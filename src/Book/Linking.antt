-- ===== src/Book/Linking.antt =====
-- `OrderBook::addOrderWithQuantities` up to `addedToLevel`: the order is linked to the level of its
-- price, or the slot is given back.
use leka.Base.{
  ℕ, ◌+◌, ◌<◌, ◌≤◌, ◌≡◌, ◌≢◌, ◌⊎◌, refl, sym, ap, ◌∙◌, inl, inr, true, false, not, ◌||◌, ltb, none,
  some, arith, ◌==◌, Bool-cases, eq_of_test, ne_of_test, get_elem?,
}
use leka.Base.Outcome.{
  Outcome, ok, throws, Exception, invalid_argument, logic_error, overflow_error, out_of_range,
}
use leka.Base.State.{pure, and_then}
use leka.Types.{OrderId, Price, OrderSide, is_limit_type, quantity_is_valid, u64_max, add_u64}
use leka.Order.{Ptr, null, LevelRef, Order, order_is_valid}
use leka.Memory.{Heap, update, update_self, update_ne, load-ok}
use leka.Level
use leka.Level.{Level, is_empty, check_add, set_level}
use leka.Level.Invariant.{view_congr}
use leka.Level.Add.{Added, add_order-Added}
use leka.Ladder.{Ladder, level_at, index_of, put_level}
use leka.Ladder.Prices.{index_of_cases, price_at}
use leka.Pool.{Store, release}
use leka.Pool.Release.{release_live-IsPool}
use leka.Pool.Invariant.{IsPool}
use leka.Book.{
  Book, read_level, heap_of, ladder_of, put_ladder, put_heap, on_store, on_level, read_order,
}
use leka.Book.Add.{link_order}
use leka.Book.Invariant.{Queues, queues_of, level_ref, IsBook}
use leka.Book.Unlinking.{get_level-ok, on_level-ok}
use leka.Book.Update.{IsBook-store}
use leka.Book.Arrival.{at, out_of_queue, IsQueue-allocated, IsFunded-allocated}
use leka.Book.Same.{SameSide-refl}
use leka.Book.Rollback.{Unchanged}

-- What can stand in the way of a new order, by the exception that says so.
pub data Refused (b : Book) (m : OrderId → Ptr) (o : Order) : Exception → Type 0 where
  wrong_type : is_limit_type o.order_type ≡ false → Refused b m o invalid_argument
  bad_quantity :
      (not (quantity_is_valid o.original_quantity)
          || not (quantity_is_valid o.remaining_quantity)
          || ltb o.original_quantity o.remaining_quantity)
        ≡ true
      → Refused b m o invalid_argument
  no_room : {e : Exception} → b.store.pool.first_page_with_free_slot ≡ none → Refused b m o e
  not_valid : order_is_valid o ≡ false → Refused b m o invalid_argument
  off_range :
      (o.price < (ladder_of o.order_side b).min_price)
        ⊎ ((ladder_of o.order_side b).max_price < o.price)
      → Refused b m o out_of_range
  off_grid :
      ((i : ℕ)
        → i < (ladder_of o.order_side b).level_count
        → price_at (ladder_of o.order_side b) i ≢ o.price)
      → Refused b m o invalid_argument
  too_much :
      (i : ℕ) (level : Level)
      → get_elem? (ladder_of o.order_side b).levels i ≡ some level
      → level.price ≡ o.price
      → u64_max < level.total_quantity + o.remaining_quantity
      → Refused b m o overflow_error
  duplicate : m o.order_id ≢ null → Refused b m o logic_error

level_at-ok :
    (l : Ladder) (price : Price) (i : ℕ) {level : Level}
    → index_of l price ≡ ok i
    → get_elem? l.levels i ≡ some level
    → level_at l price ≡ ok (i, level)
unfolding level_at
level_at-ok l price i e at = rw (e, get_level-ok l i at) refl

level_at-throws :
    (l : Ladder) (price : Price) {e : Exception}
    → index_of l price ≡ throws e
    → level_at l price ≡ throws e
unfolding level_at
level_at-throws l price e = rw e refl

on_level-throws :
    (b : Book) (side : OrderSide) (i : ℕ) (f : Level → Heap → Outcome (Level × Heap))
    {level : Level} {e : Exception}
    → get_elem? (ladder_of side b).levels i ≡ some level
    → f level (heap_of b) ≡ throws e
    → on_level (level_ref side i) f b ≡ (throws e, b)
unfolding on_level read_level
on_level-throws b side i f at run = rw (get_level-ok (ladder_of side b) i at, run) refl

add_order-overflow :
    (this : LevelRef) (h : Heap) (level : Level) (p : Ptr) {o : Order}
    → h p ≡ some o
    → p ≢ null
    → o.price ≡ level.price
    → o.price_level ≡ none
    → 0 < o.remaining_quantity
    → u64_max < level.total_quantity + o.remaining_quantity
    → level.total_quantity ≤ u64_max
    → Level.add_order this level p h ≡ throws overflow_error
unfolding Level.add_order check_add
add_order-overflow this h level p e ne priced free pos big bounded =
    rw (load-ok h p e, free) (ground arith)

-- The book behind the allocation.
abbrev pub given : Book → Store → Book
given b t = record b { store = t }

-- The order `o` in the slot `p` of the store `t`, which held none.
module _ (hash : ℕ → ℕ) (b : Book) (q : Queues) (m : OrderId → Ptr) (v : IsBook hash b q m)
    (o : Order) (free : o.price_level ≡ none) (unfilled : 0 < o.remaining_quantity) (p : Ptr)
    (t : Store) (pool : IsPool t) (not_null : p ≢ null) (vacant : heap_of b p ≡ none)
    (heap : t.heap ≡ update (heap_of b) p (some o))
    (living : t.pool.live_order_count ≡ add_u64 b.store.pool.live_order_count 1) where
  abbrev side : OrderSide
  side = o.order_side

  pub stored : t.heap p ≡ some o
  stored = ap (λ h. h p) heap ∙ update_self (heap_of b) p (some o)

  -- The slot is (given b t) back.
  pub release-given :
      (b' : Book) × (on_store (release p) (given b t) ≡ (ok tt, b')) × Unchanged hash b q m b'
  release-given =
      let (s, run, pool', heap', living') = release_live-IsPool t p o pool stored in
      let same : (a : Ptr) → s.heap a ≡ heap_of b a = λ a. elim (Bool-cases (a == p)) [
        | inl e ↦
            let e' = eq_of_test a p e in
            ap s.heap e'
            ∙ ap (λ h. h p) heap'
            ∙ update_self t.heap p none
            ∙ sym (ap (heap_of b) e' ∙ vacant)
        | inr e ↦
            let ne = ne_of_test a p e in
            ap (λ h. h a) heap'
            ∙ update_ne t.heap p a none ne
            ∙ ap (λ h. h a) heap
            ∙ update_ne (heap_of b) p a (some o) ne
      ] in
      (
        record b { store = s },
        rw run refl,
        record {
          book =
              IsBook-store hash b q m s v pool' same
                (omega (arith, living, living', v.live, v.machine));
          same = λ a. view_congr (heap_of b) s.heap a (same a);
          sides = λ side. SameSide-refl (ladder_of side b);
          count = refl;
        },
      )

  -- The order reached the level `i`.
  pub record Linking (i : ℕ) (lt : i < (ladder_of side b).level_count) (level' : Level) (h : Heap)
      : Type 0 where
    pub run : link_order p (given b t) ≡ (
      ok (record {
        level = level_ref side i;
        was_empty = is_empty (at hash b q m v p o vacant i lt).level;
      }),
      put_heap h (put_ladder side (put_level (ladder_of side b) i level') (given b t)),
    )
    pub added :
        Added
          (level_ref side i)
          t.heap
          (at hash b q m v p o vacant i lt).level
          p
          o
          (queues_of side q i)
          (level', h)
    pub found : index_of (ladder_of side b) o.price ≡ ok i
    pub valid : order_is_valid o ≡ true
    pub priced : (at hash b q m v p o vacant i lt).level.price ≡ o.price

  link_order-at :
      order_is_valid o ≡ true
      → (i : ℕ) (lt : i < (ladder_of side b).level_count) → price_at (ladder_of side b) i ≡ o.price
      → index_of (ladder_of side b) o.price ≡ ok i
      → ((e : Exception) × (link_order p (given b t) ≡ (throws e, (given b t))) × Refused b m o e)
        ⊎ ((level' : Level) × (h : Heap) × Linking i lt level' h)
  unfolding link_order read_order
  link_order-at valid i lt priced found =
      let here = at hash b q m v p o vacant i lt in
      let priced' : here.level.price ≡ o.price = here.priced ∙ priced in
      let look = level_at-ok (ladder_of side b) o.price i found here.at in
      elim (Bool-cases (ltb u64_max (here.level.total_quantity + o.remaining_quantity))) [
        | inl big ↦ inl (
          overflow_error,
          rw (load-ok t.heap p stored, valid, look)
              (ap
                (λ r. and_then r (λ _.
                  pure (record { level = level_ref side i; was_empty = is_empty here.level })))
                (on_level-throws (given b t) side i
                  (λ l h. Level.add_order (level_ref side i) l p h) here.at
                  (add_order-overflow (level_ref side i) t.heap here.level p stored not_null
                    (sym priced') free unfilled (ground arith) here.funded.bounded))),
          too_much i here.level here.at priced' (ground arith),
        )
        | inr small ↦
            let ((level', h), run, added) =
              add_order-Added (level_ref side i) t.heap here.level p o (queues_of side q i) stored
                (record {
                  not_null = not_null;
                  priced = sym priced';
                  unlinked = free;
                  unfilled = unfilled;
                  fits = ground arith;
                })
                (out_of_queue hash b q m v p o vacant side i lt)
                (IsQueue-allocated hash b q m v p o vacant i lt t.heap heap)
                (IsFunded-allocated hash b q m v p o vacant i lt t.heap heap) in
            inr (
              level',
              h,
              record {
                run =
                    rw (load-ok t.heap p stored, valid, look)
                      (ap
                        (λ r. and_then r (λ _.
                          pure
                            (record { level = level_ref side i; was_empty = is_empty here.level })))
                        (on_level-ok (given b t) side i
                          (λ l h. Level.add_order (level_ref side i) l p h) here.at run));
                added = added;
                found = found;
                priced = priced';
                valid = valid;
              },
            )
      ]

  pub link_order_cases :
      ((e : Exception) × (link_order p (given b t) ≡ (throws e, (given b t))) × Refused b m o e)
      ⊎ ((i : ℕ) × (lt : i < (ladder_of side b).level_count) × (level' : Level) × (h : Heap)
          × Linking i lt level' h)
  unfolding link_order read_order
  link_order_cases = elim (Bool-cases (order_is_valid o)) [
    | inr bad ↦ inl (invalid_argument, rw (load-ok t.heap p stored, bad) refl, not_valid bad)
    | inl valid ↦ elim (index_of_cases (ladder_of side b) (v.sides side).ranged o.price) [
      | inl (off, run) ↦ inl (
        out_of_range,
        rw (load-ok t.heap p stored, valid, level_at-throws (ladder_of side b) o.price run) refl,
        off_range off,
      )
      | inr (inl (off, run)) ↦ inl (
        invalid_argument,
        rw (load-ok t.heap p stored, valid, level_at-throws (ladder_of side b) o.price run) refl,
        off_grid off,
      )
      | inr (inr (i, lt, priced, found)) ↦ elim (link_order-at valid i lt priced found) [
        | inl stop ↦ inl stop
        | inr (level', h, l) ↦ inr (i, lt, level', h, l)
      ]
    ]
  ]
