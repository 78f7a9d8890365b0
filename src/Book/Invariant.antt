-- ===== src/Book/Invariant.antt =====
-- What the book of order_book.cpp satisfies between calls: its two ladders, the index and the pool
-- speak of the same resting orders.
use leka.Base.{
  ℕ, ◌^◌, ◌<◌, ◌≤◌, ◌≡◌, ◌≢◌, refl, sym, ap, ◌∙◌, subst, inl, inr, Bool, true, false, some, List,
  [], ◌∷◌, arith, ◌==◌, if◌then◌else◌, length, length-set, get_elem?, set, get_elem?-set_self,
  get_elem?-set_ne, Bool-cases, eq_of_test, ne_of_test, ◌∈◌,
}
use leka.Types.{OrderId, OrderSide, buy, sell, is_buy_side}
use leka.Order.{Ptr, null, LevelRef, Order, order_is_valid}
use leka.Memory.{Heap}
use leka.Level.{Level}
use leka.Level.Segment.{Segment-frame}
use leka.Level.Invariant.{
  view, view_congr, remaining_at_congr, depth_congr, Rests, IsQueue, IsFunded,
}
use leka.Ladder.{Ladder}
use leka.Ladder.Words.{bit}
use leka.Ladder.Occupancy.{IsMarked}
use leka.Ladder.Prices.{IsRanged, price_at}
use leka.Index.Table.{Represents}
use leka.Pool.Invariant.{IsPool}
use leka.Book.{Book, heap_of, ladder_of}

-- The queues of a book, oldest order first, by side and level.
pub record Queues : Type 0 where
  pub bids : ℕ → List Ptr
  pub asks : ℕ → List Ptr

abbrev pub queues_of : OrderSide → Queues → ℕ → List Ptr
queues_of buy q = q.bids
queues_of sell q = q.asks

abbrev pub put_queue : OrderSide → ℕ → List Ptr → Queues → Queues
put_queue buy i xs q = record q { bids = λ k. if k == i then xs else q.bids k }
put_queue sell i xs q = record q { asks = λ k. if k == i then xs else q.asks k }

abbrev pub level_ref : OrderSide → ℕ → LevelRef
level_ref side i = record { side = side; index = i }

abbrev pub some_order : List Ptr → Bool
some_order [] = false
some_order (x ∷ xs) = true

-- Level `i` of a side is the queue `xs`, its aggregate covers it, and its bit says whether an order
-- rests there.
pub record IsAt (h : Heap) (side : OrderSide) (l : Ladder) (i : ℕ) (xs : List Ptr) : Type 0 where
  pub level : Level
  pub at : get_elem? l.levels i ≡ some level
  pub priced : level.price ≡ price_at l i
  pub queue : IsQueue (level_ref side i) h level xs
  pub funded : IsFunded h level xs
  pub shown : bit l.words i ≡ some_order xs

pub record IsSide (h : Heap) (side : OrderSide) (l : Ladder) (queues : ℕ → List Ptr) : Type 0 where
  pub ranged : IsRanged l
  pub marked : IsMarked l
  pub directed : l.descending ≡ is_buy_side side
  pub levels : (i : ℕ) → i < l.level_count → IsAt h side l i (queues i)

-- The book whose queues are `q` and whose map of identifiers is `m`: each order in memory is in the
-- queue of its level, in the map and valid, and nothing else is in queue or map. The pool and the index count
-- alike, up to a number up to which doubles are exact.
pub record IsBook (hash : ℕ → ℕ) (b : Book) (q : Queues) (m : OrderId → Ptr) : Type 0 where
  pub pool : IsPool b.store
  pub represents : Represents hash b.index m
  pub machine : b.index.count ≤ 2 ^ 53
  pub live : b.store.pool.live_order_count ≡ b.index.count
  pub sides : (s : OrderSide) → IsSide (heap_of b) s (ladder_of s b) (queues_of s q)
  pub queued :
      (s : OrderSide) (i : ℕ) (a : Ptr)
      → i < (ladder_of s b).level_count
      → a ∈ queues_of s q i
      → (o : Order) × (view (heap_of b) a ≡ some o) × (o.order_side ≡ s)
  pub resting :
      (a : Ptr) (o : Order)
      → view (heap_of b) a ≡ some o
      → (m o.order_id ≡ a)
        × (i : ℕ) × (i < (ladder_of o.order_side b).level_count)
        × (a ∈ queues_of o.order_side q i)
  pub valid : (a : Ptr) (o : Order) → view (heap_of b) a ≡ some o → order_is_valid o ≡ true
  pub mapped :
      (id : OrderId)
      → m id ≢ null
      → (o : Order) × (view (heap_of b) (m id) ≡ some o) × (o.order_id ≡ id)

-- A queue whose orders stand in memory as they did.
pub IsQueue-frame :
    (this : LevelRef) (h g : Heap) (level : Level) (xs : List Ptr)
    → ((a : Ptr) → a ∈ xs → g a ≡ h a)
    → IsQueue this h level xs
    → IsQueue this g level xs
IsQueue-frame this h g level xs same v = record {
  chain = Segment-frame v.chain same;
  distinct = v.distinct;
  no_null = v.no_null;
  counted = v.counted;
  machine = v.machine;
  owned = λ a m. subst (Rests this level.price) (sym (view_congr h g a (same a m))) (v.owned a m);
}

pub IsFunded-frame :
    (h g : Heap) (level : Level) (xs : List Ptr)
    → ((a : Ptr) → a ∈ xs → view g a ≡ view h a)
    → IsFunded h level xs
    → IsFunded g level xs
IsFunded-frame h g level xs same v = record {
  positive = λ a m. omega (arith, remaining_at_congr h g a (same a m), v.positive a m);
  covered = omega (arith, depth_congr h g xs same, v.covered);
  bounded = v.bounded;
}

-- A ladder of which level `i` and its bit may have changed.
pub record Relevelled (l l' : Ladder) (i : ℕ) (level : Level) : Type 0 where
  pub min : l'.min_price ≡ l.min_price
  pub tick : l'.tick_size ≡ l.tick_size
  pub max : l'.max_price ≡ l.max_price
  pub count : l'.level_count ≡ l.level_count
  pub direction : l'.descending ≡ l.descending
  pub levels : l'.levels ≡ set l.levels i level
  pub bits : (k : ℕ) → k ≢ i → bit l'.words k ≡ bit l.words k
  pub marked : IsMarked l'

module _ (l l' : Ladder) (i : ℕ) (level : Level) (r : Relevelled l l' i level) where
  pub price_at-Relevelled : (k : ℕ) → price_at l' k ≡ price_at l k
  price_at-Relevelled k = rw (r.min, r.tick, r.max, r.direction) refl

  pub IsRanged-Relevelled : IsRanged l → IsRanged l'
  IsRanged-Relevelled v = record {
    min_pos = omega (arith, r.min, v.min_pos);
    tick_pos = omega (arith, r.tick, v.tick_pos);
    count_pos = omega (arith, r.count, v.count_pos);
    max = rw (r.min, r.tick, r.max, r.count) v.max;
    bounded = omega (arith, r.max, v.bounded);
    sized = ap length r.levels ∙ length-set l.levels i level ∙ v.sized ∙ sym r.count;
  }

  -- The side with the new level.
  pub IsSide-update :
      (h g : Heap) (side : OrderSide) (queues : ℕ → List Ptr) (xs : List Ptr)
      → IsSide h side l queues
      → i < l.level_count
      → level.price ≡ price_at l i
      → IsQueue (level_ref side i) g level xs
      → IsFunded g level xs
      → bit l'.words i ≡ some_order xs
      → ((k : ℕ) (a : Ptr) → k < l.level_count → k ≢ i → a ∈ queues k → g a ≡ h a)
      → IsSide g side l' (λ k. if k == i then xs else queues k)
  IsSide-update h g side queues xs v lt priced queue funded shown spared = record {
    ranged = IsRanged-Relevelled v.ranged;
    marked = r.marked;
    directed = r.direction ∙ v.directed;
    levels = λ k small. elim (Bool-cases (k == i)) [
      | inl e ↦
          rw (e, eq_of_test k i e)
            (record {
              level = level;
              at =
                  rw r.levels (get_elem?-set_self l.levels i level (omega (arith, v.ranged.sized)));
              priced = priced ∙ sym (price_at-Relevelled i);
              queue = queue;
              funded = funded;
              shown = shown;
            })
      | inr e ↦
          let ne = ne_of_test k i e in
          let lt_k : k < l.level_count = omega (arith, r.count) in
          let old = v.levels k lt_k in
          rw e (record {
            level = old.level;
            at = rw r.levels (get_elem?-set_ne l.levels i k level (λ q. ne (sym q)) ∙ old.at);
            priced = old.priced ∙ sym (price_at-Relevelled k);
            queue =
                IsQueue-frame (level_ref side k) h g old.level (queues k)
                  (λ a m. spared k a lt_k ne m) old.queue;
            funded =
                IsFunded-frame h g old.level (queues k)
                  (λ a m. view_congr h g a (spared k a lt_k ne m)) old.funded;
            shown = r.bits k ne ∙ old.shown;
          })
    ];
  }

-- A side whose orders stand in memory as they did.
pub IsSide-frame :
    (h g : Heap) (side : OrderSide) (l : Ladder) (queues : ℕ → List Ptr)
    → ((k : ℕ) (a : Ptr) → k < l.level_count → a ∈ queues k → g a ≡ h a)
    → IsSide h side l queues
    → IsSide g side l queues
IsSide-frame h g side l queues same v = record {
  ranged = v.ranged;
  marked = v.marked;
  directed = v.directed;
  levels = λ k lt.
      let old = v.levels k lt in
      record {
        level = old.level;
        at = old.at;
        priced = old.priced;
        queue =
            IsQueue-frame (level_ref side k) h g old.level (queues k) (λ a m. same k a lt m)
              old.queue;
        funded =
            IsFunded-frame h g old.level (queues k) (λ a m. view_congr h g a (same k a lt m))
              old.funded;
        shown = old.shown;
      };
}
