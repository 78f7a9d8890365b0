-- ===== src/Book/Opening.antt =====
-- The constructor of `OrderBook`.
use leka.Base.{ℕ, ◌≡◌, refl, sym, ◌∙◌, true, false, none, [], arith}
use mathlib.Core.Option.{none-ne-some}
use leka.Base.Outcome.{ok}
use leka.Types.{OrderId, OrderSide, buy, sell, Price, is_buy_side}
use leka.Order.{Ptr, null, LevelRef}
use leka.Memory.{Heap}
use leka.Level.{make_level}
use leka.Level.Segment.{nil}
use leka.Level.Invariant.{view, IsQueue, IsFunded, depth}
use leka.Ladder.{Ladder}
use leka.Ladder.Words.{bit}
use leka.Ladder.Occupancy.{count_true-zero}
use leka.Ladder.Prices.{price_at}
use leka.Ladder.Construct.{IsRange, Constructed, make_ladder-ok}
use leka.Index.{empty_index}
use leka.Index.Table.{no_slots}
use leka.Pool.Reserve.{empty_store, empty_store-IsPool}
use leka.Book.{Book, heap_of, ladder_of}
use leka.Book.Construct.{make_book}
use leka.Book.Invariant.{Queues, queues_of, level_ref, IsSide, IsBook}

abbrev pub no_queues : Queues
no_queues = record { bids = λ _. []; asks = λ _. [] }

abbrev pub no_orders : OrderId → Ptr
no_orders id = null

queues_of-none : (s : OrderSide) (i : ℕ) → queues_of s no_queues i ≡ []
queues_of-none buy i = refl
queues_of-none sell i = refl

-- A level on which no order rests.
IsQueue-empty : (this : LevelRef) (h : Heap) (price : Price) → IsQueue this h (make_level price) []
IsQueue-empty this h price = record {
  chain = nil refl refl;
  distinct = tt;
  no_null = refl;
  counted = refl;
  machine = omega arith;
  owned = λ a mem. absurd (ground arith);
}

IsFunded-empty : (h : Heap) (price : Price) → IsFunded h (make_level price) []
unfolding depth
IsFunded-empty h price = record {
  positive = λ a mem. absurd (ground arith);
  covered = omega arith;
  bounded = omega arith;
}

Constructed-IsSide :
    (min tick count : ℕ) (side : OrderSide) (l : Ladder) (h : Heap)
    → Constructed min tick count (is_buy_side side) l
    → IsSide h side l (λ _. [])
Constructed-IsSide min tick count side l h c = record {
  ranged = c.ranged;
  marked = c.marked;
  directed = c.directed;
  levels = λ i lt. record {
    level = make_level (price_at l i);
    at = c.empty i (omega (arith, c.counts));
    priced = refl;
    queue = IsQueue-empty (level_ref side i) h (price_at l i);
    funded = IsFunded-empty h (price_at l i);
    shown = count_true-zero (bit l.words) l.level_count i (sym c.marked.counted ∙ c.unoccupied) lt;
  };
}

abbrev pub opened : Ladder → Ladder → Book
opened bids asks = record { store = empty_store; index = empty_index; bids = bids; asks = asks }

module _ (min tick count : ℕ) (bids asks : Ladder)
    (bids_made : Constructed min tick count true bids)
    (asks_made : Constructed min tick count false asks) where
  both-IsSide :
      (s : OrderSide)
      → IsSide (λ _. none) s (ladder_of s (opened bids asks)) (queues_of s no_queues)
  both-IsSide buy = Constructed-IsSide min tick count buy bids (λ _. none) bids_made
  both-IsSide sell = Constructed-IsSide min tick count sell asks (λ _. none) asks_made

  both_counts : (s : OrderSide) → (ladder_of s (opened bids asks)).level_count ≡ count
  both_counts buy = bids_made.counts
  both_counts sell = asks_made.counts

  pub opened-IsBook : (hash : ℕ → ℕ) → IsBook hash (opened bids asks) no_queues no_orders
  unfolding view
  opened-IsBook hash = record {
    pool = empty_store-IsPool;
    represents = no_slots refl refl (λ _. refl);
    machine = omega arith;
    live = refl;
    sides = both-IsSide;
    queued = λ s i a lt mem. absurd (ground (arith, mem, queues_of-none s i));
    resting = λ a o e. absurd (none-ne-some o e);
    valid = λ a o e. absurd (none-ne-some o e);
    mapped = λ id ne. absurd (ne refl);
  }

-- For a valid range of prices the constructor of the book succeeds: the parts of the new book
-- agree, whatever the hash function, no order rests in it or lives in its memory, and each side
-- has the number of levels asked for.
pub make_book-IsBook :
    (hash : ℕ → ℕ) (min tick count : ℕ)
    → IsRange min tick count
    → (b : Book) × (make_book min tick count ≡ ok b)
      × IsBook hash b no_queues no_orders
      × ((s : OrderSide) → (ladder_of s b).level_count ≡ count)
      × ((a : Ptr) → heap_of b a ≡ none)
      × (b.index.count ≡ 0)
unfolding make_book
make_book-IsBook hash min tick count r =
    let (bids, bids_run, bids_made) = make_ladder-ok min tick count true r in
    let (asks, asks_run, asks_made) = make_ladder-ok min tick count false r in
    (
      opened bids asks,
      rw (bids_run, asks_run) refl,
      opened-IsBook min tick count bids asks bids_made asks_made hash,
      both_counts min tick count bids asks bids_made asks_made,
      λ a. refl,
      refl,
    )
