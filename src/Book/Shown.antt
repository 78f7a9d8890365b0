-- ===== src/Book/Shown.antt =====
-- What `OrderBook::captureSnapshot` shows of a book, by the queues of its orders.
use leka.Base.{
  ℕ, zero, suc, ◌+◌, ◌≤◌, ◌<◌, ◌≡◌, refl, sym, ap, ◌∙◌, subst, inl, inr, Bool, some, List, [], ◌∷◌,
  map, arith, length, get_elem?, take, Bool-cases,
}
use mathlib.Core.Option.{some-injective}
use leka.Base.Outcome.{ok}
use leka.Types.{Price, OrderId, OrderSide, buy, sell}
use leka.Order.{Ptr}
use leka.Memory.{Heap}
use leka.Level.{Level, make_level}
use leka.Level.Invariant.{depth}
use leka.Ladder.{Ladder}
use leka.Ladder.Words.{bit}
use leka.Ladder.Occupancy.{count_true}
use leka.Ladder.Prices.{plain_price, price_at-plain}
use leka.Ladder.Traversal.{
  all_set, level_of, get_elem?-get_or, best_levels, for_each_occupied-best_levels,
}
use leka.Book.{Book, heap_of}
use leka.Book.Snapshot.{
  BookSnapshot, BookSnapshotLevel, snapshot_level, front_price, capture_snapshot,
}
use leka.Book.Invariant.{Queues, queues_of, some_order, IsSide, IsBook}

-- The row shows the level `i`, where the orders `xs` rest: its price, the number of the orders, and
-- its aggregate quantity, which covers what they have left.
pub record IsRow (h : Heap) (l : Ladder) (i : ℕ) (xs : List Ptr) (row : BookSnapshotLevel)
    : Type 0 where
  pub level : Level
  pub at : get_elem? l.levels i ≡ some level
  pub price : row.price_raw ≡ plain_price l i
  pub orders : row.order_count ≡ length xs
  pub aggregate : row.quantity ≡ level.total_quantity
  pub covers : depth h xs ≤ row.quantity

-- One row for each of the levels, in their order.
abbrev pub AreRows : Heap → Ladder → (ℕ → List Ptr) → List ℕ → List BookSnapshotLevel → Type 0
AreRows h l queues [] [] = Unit {0}
AreRows h l queues (i ∷ is) (row ∷ rows) = IsRow h l i (queues i) row × AreRows h l queues is rows
AreRows h l queues _ _ = ⊥

-- The levels where orders rest, by their index, so best first.
abbrev pub resting_levels : Ladder → (ℕ → List Ptr) → List ℕ
resting_levels l queues = all_set (λ i. some_order (queues i)) 0 l.level_count

abbrev pub best_price : Ladder → List ℕ → Price
best_price l [] = 0
best_price l (i ∷ _) = plain_price l i

-- What the snapshot holds of one side.
pub record IsShown (h : Heap) (l : Ladder) (queues : ℕ → List Ptr) (limit : ℕ)
    (rows : List BookSnapshotLevel) (best level_count : ℕ) : Type 0 where
  pub shown : AreRows h l queues (take limit (resting_levels l queues)) rows
  pub first : best ≡ best_price l (take limit (resting_levels l queues))
  pub number : level_count ≡ length (resting_levels l queues)

-- The snapshot `s`, written over `out`, shows the book; what the caller has set is kept.
pub record Shows (b : Book) (q : Queues) (limit : ℕ) (out s : BookSnapshot) : Type 0 where
  pub bids :
      IsShown (heap_of b) b.bids (queues_of buy q) limit s.bids s.best_bid_raw s.bid_level_count
  pub asks :
      IsShown (heap_of b) b.asks (queues_of sell q) limit s.asks s.best_ask_raw s.ask_level_count
  pub same_sequence : s.sequence ≡ out.sequence
  pub same_time : s.ts_ns ≡ out.ts_ns

all_set_congr :
    (p q : ℕ → Bool) (from n : ℕ)
    → ((i : ℕ) → i < from + n → p i ≡ q i)
    → all_set p from n ≡ all_set q from n
unfolding all_set
all_set_congr p q from zero same = refl
all_set_congr p q from (suc n) same =
    rw (same from (omega arith), all_set_congr p q (suc from) n (λ i h. same i (omega arith))) refl

-- Counted from below, or listed from below.
count_true-append :
    (p : ℕ → Bool) (from n : ℕ)
    → count_true p (from + n) ≡ count_true p from + length (all_set p from n)
unfolding count_true all_set
count_true-append p from zero =
    ap (count_true p) {x = from + 0} {y = from} (omega arith) ∙ omega arith
count_true-append p from (suc n) =
    let rest = count_true-append p (suc from) n in
    ap (count_true p) {x = from + suc n} {y = suc from + n} (omega arith) ∙ ground (arith, rest)

count_true-all_set : (p : ℕ → Bool) (n : ℕ) → count_true p n ≡ length (all_set p 0 n)
unfolding count_true
count_true-all_set p n =
    let whole = count_true-append p 0 n in
    omega (arith, ap (count_true p) {x = n} {y = 0 + n} (omega arith), whole)

module _ (h : Heap) (side : OrderSide) (l : Ladder) (queues : ℕ → List Ptr)
    (v : IsSide h side l queues) where
  rests : (i : ℕ) → i < l.level_count → bit l.words i ≡ some_order (queues i)
  rests i lt = (v.levels i lt).shown

  resting_levels_lem : all_set (bit l.words) 0 l.level_count ≡ resting_levels l queues
  resting_levels_lem =
      all_set_congr (bit l.words) (λ i. some_order (queues i)) 0 l.level_count
        (λ i lt. rests i (omega arith))

  snapshot_level-IsRow :
      (i : ℕ) → i < l.level_count → IsRow h l i (queues i) (snapshot_level (level_of l i))
  snapshot_level-IsRow i lt =
      let a = v.levels i lt in
      let same : level_of l i ≡ a.level =
        some-injective (level_of l i) a.level (
          sym (get_elem?-get_or l.levels i (make_level 0) (omega (arith, v.ranged.sized)))
          ∙ a.at) in
      record {
        level = a.level;
        at = a.at;
        price = ap (λ x. x.price) same ∙ a.priced ∙ price_at-plain l v.ranged i lt;
        orders = ap (λ x. x.count) same ∙ a.queue.counted;
        aggregate = ap (λ x. x.total_quantity) same;
        covers = omega (arith, ap (λ x. x.total_quantity) same, a.funded.covered);
      }

  -- Levels from `from` on.
  rows-AreRows :
      (p : ℕ → Bool) (limit from n : ℕ)
      → from + n ≤ l.level_count
      → AreRows h l queues
          (take limit (all_set p from n))
          (map snapshot_level (map (level_of l) (take limit (all_set p from n))))
  unfolding all_set
  rows-AreRows p zero from n le = tt
  rows-AreRows p (suc limit) from zero le = tt
  rows-AreRows p (suc limit) from (suc n) le = elim (Bool-cases (p from)) [
    | inl here ↦
        rw here
          (snapshot_level-IsRow from (omega arith), rows-AreRows p limit (suc from) n (omega arith))
    | inr off ↦ rw off (rows-AreRows p (suc limit) (suc from) n (omega arith))
  ]

  front_price-AreRows :
      (is : List ℕ) (rows : List BookSnapshotLevel)
      → AreRows h l queues is rows
      → front_price rows ≡ best_price l is
  front_price-AreRows [] [] w = refl
  front_price-AreRows (i ∷ is) (row ∷ rows) w = w.0.price
  front_price-AreRows [] (row ∷ rows) w = absurd w
  front_price-AreRows (i ∷ is) [] w = absurd w

  rows-IsShown :
      (limit : ℕ)
      → IsShown h l queues limit
          (map snapshot_level (best_levels l limit))
          (front_price (map snapshot_level (best_levels l limit)))
          l.occupied
  rows-IsShown limit =
      let rows = rows-AreRows (bit l.words) limit 0 l.level_count (omega arith) in
      let all = ap (take limit) resting_levels_lem in
      let shown =
        subst (λ is. AreRows h l queues is (map snapshot_level (best_levels l limit))) all rows in
      record {
        shown = shown;
        first = front_price-AreRows _ _ shown;
        number =
            v.marked.counted
            ∙ count_true-all_set (bit l.words) l.level_count
            ∙ ap length resting_levels_lem;
      }

-- In a book whose parts agree, the capture of a snapshot succeeds, and each side shows the levels
-- where orders rest, best first and as many as asked for: of each the price, the number of its
-- orders, and the aggregate quantity of the level, which covers what its orders have left and may
-- exceed it. The best price is that of the first row, or 0 without rows, the level count is the
-- number of all levels where orders rest, and the sequence and the time that the caller has set
-- are kept.
pub capture_snapshot-Shows :
    (hash : ℕ → ℕ) (b : Book) (q : Queues) (m : OrderId → Ptr) (out : BookSnapshot) (limit : ℕ)
    → IsBook hash b q m
    → (s : BookSnapshot) × (capture_snapshot b out limit ≡ ok s) × Shows b q limit out s
unfolding capture_snapshot
capture_snapshot-Shows hash b q m out limit v =
    let w = v.sides buy in
    let x = v.sides sell in
    (
      record out {
        bids = map snapshot_level (best_levels b.bids limit);
        asks = map snapshot_level (best_levels b.asks limit);
        best_bid_raw = front_price (map snapshot_level (best_levels b.bids limit));
        best_ask_raw = front_price (map snapshot_level (best_levels b.asks limit));
        bid_level_count = b.bids.occupied;
        ask_level_count = b.asks.occupied;
      },
      rw
          (
            for_each_occupied-best_levels b.bids w.marked w.ranged.sized limit,
            for_each_occupied-best_levels b.asks x.marked x.ranged.sized limit,
          )
          refl,
      record {
        bids = rows-IsShown (heap_of b) buy b.bids (queues_of buy q) w limit;
        asks = rows-IsShown (heap_of b) sell b.asks (queues_of sell q) x limit;
        same_sequence = refl;
        same_time = refl;
      },
    )
