-- ===== src/Book/Shrinking.antt =====
-- An order of the book has less left: the calls behind the checks of `reduceOrder`.
use leka.Base.{
  ℕ, ◌-◌, ◌<◌, ◌≤◌, ◌≡◌, ◌≢◌, refl, sym, ap, ◌∙◌, subst, inl, inr, true, some, arith, ◌==◌,
  Bool-cases, eq_of_test, ne_of_test, ◌∈◌, get_elem?,
}
use mathlib.Core.Option.{some-injective}
use leka.Base.Outcome.{ok}
use leka.Types.{OrderId, OrderSide, buy, sell, Quantity}
use leka.Order.{Ptr, Order, order_is_valid, set_remaining_quantity}
use leka.Memory.{Heap, update, update_ne}
use leka.Level.{Level, reduce_total_quantity}
use leka.Level.Invariant.{contents, view, view-some, view_congr, view_self}
use leka.Ladder.{put_level}
use leka.Book.{
  Book, heap_of, ladder_of, put_ladder, put_heap, read_level, write_level, shrink_order,
}
use leka.Book.Invariant.{Queues, queues_of, level_ref, IsAt, IsSide, IsBook}
use leka.Book.Unlinking.{get_level-ok, put_level-Relevelled}
use leka.Book.Places.{IsPool-heap, lives-update, level_count-put, place_lem, one_place}
use leka.Book.Update.{new_sides, put_queue_same}
use leka.Book.Resizing.{resized, retotalled, resized-IsQueue, resized-IsFunded, covers}

-- What the reduction of the order `o` at `p` leaves: the order with less left, the aggregate of its
-- level less by the difference, and all else, the queues included, as it was.
pub record Shrinks (hash : ℕ → ℕ) (b : Book) (q : Queues) (m : OrderId → Ptr) (p : Ptr) (o : Order)
    (target : Quantity) (b' : Book) : Type 0 where
  pub index : ℕ
  pub level : Level
  pub queued : p ∈ queues_of o.order_side q index
  pub was : get_elem? (ladder_of o.order_side b).levels index ≡ some level
  pub now :
      b'
      ≡ put_ladder o.order_side
          (put_level
            (ladder_of o.order_side b)
            index
            (retotalled (level.total_quantity - (o.remaining_quantity - target)) level))
          (put_heap (update (heap_of b) p (some (resized target o))) b)
  pub book : IsBook hash b' q m
  pub alike :
      (a : Ptr) (c' : Order)
      → view (heap_of b') a ≡ some c'
      → (c : Order) × (view (heap_of b) a ≡ some c)
        × (c.order_side ≡ c'.order_side)
        × (c.price ≡ c'.price)

remaining-le :
    (o : Order) → order_is_valid (contents o) ≡ true → o.remaining_quantity ≤ o.original_quantity
unfolding order_is_valid
remaining-le o e = ground arith

order_is_valid-resized :
    (target : Quantity) (o : Order)
    → order_is_valid (contents o) ≡ true
    → target ≤ o.remaining_quantity
    → order_is_valid (contents (resized target o)) ≡ true
unfolding order_is_valid
order_is_valid-resized target o e small = ground arith

set_remaining_quantity-ok :
    (target : Quantity) (o : Order)
    → 0 < target
    → target ≤ o.original_quantity
    → set_remaining_quantity target o ≡ ok (resized target o)
unfolding set_remaining_quantity
set_remaining_quantity-ok target o pos small = ground arith

pub reduce_total_quantity-ok :
    (q : Quantity) (level : Level)
    → q ≤ level.total_quantity
    → reduce_total_quantity q level ≡ ok (retotalled (level.total_quantity - q) level)
unfolding reduce_total_quantity
reduce_total_quantity-ok q level small = ground arith

module _ (hash : ℕ → ℕ) (b : Book) (q : Queues) (m : OrderId → Ptr) (v : IsBook hash b q m)
    (p : Ptr) (o : Order) (stored : heap_of b p ≡ some o) (i : ℕ)
    (lt : i < (ladder_of o.order_side b).level_count) (mem : p ∈ queues_of o.order_side q i)
    (target : Quantity) (pos : 0 < target) (small : target ≤ o.remaining_quantity) where
  abbrev side : OrderSide
  side = o.order_side

  pub here : IsAt (heap_of b) side (ladder_of side b) i (queues_of side q i)
  here = (v.sides side).levels i lt

  abbrev pub level' : Level
  level' = retotalled (here.level.total_quantity - (o.remaining_quantity - target)) here.level

  abbrev heap' : Heap
  heap' = update (heap_of b) p (some (resized target o))

  abbrev pub shrunk : Book
  shrunk = put_ladder side (put_level (ladder_of side b) i level') (put_heap heap' b)

  good : order_is_valid (contents o) ≡ true
  good = v.valid p (contents o) (view-some (heap_of b) p stored)

  apart : (a : Ptr) → a ≢ p → heap' a ≡ heap_of b a
  apart a ne = update_ne (heap_of b) p a (some (resized target o)) ne

  shrunk-IsSide : (t : OrderSide) → IsSide heap' t (ladder_of t shrunk) (queues_of t q)
  unfolding put_level
  shrunk-IsSide t =
      subst (λ x. IsSide heap' t (ladder_of t shrunk) (queues_of t x)) (put_queue_same side i q)
        (new_sides b q heap' side i (put_level (ladder_of side b) i level') level'
          (queues_of side q i) v.sides
          (put_level-Relevelled (ladder_of side b) i level' (v.sides side).marked) lt here.priced
          (resized-IsQueue (level_ref side i) (heap_of b) here.level p o (queues_of side q i) target
            here.queue stored mem _)
          (resized-IsFunded (level_ref side i) (heap_of b) here.level p o (queues_of side q i)
            target here.queue stored mem here.funded pos small)
          here.shown
          (λ s k a lt_k ne mem'. apart a (λ e. ne (
            one_place hash b q m v s side k i a lt_k lt mem'
              (subst (λ x. x ∈ queues_of side q i) (sym e) mem))))
          t)

  same_count : (t : OrderSide) → (ladder_of t shrunk).level_count ≡ (ladder_of t b).level_count
  unfolding put_level
  same_count t =
      level_count-put t side (put_level (ladder_of side b) i level') (put_heap heap' b) (go side)
    where
      go :
          (s : OrderSide)
          → (ladder_of s b).level_count ≡ (ladder_of s (put_heap heap' b)).level_count
      go buy = refl
      go sell = refl

  -- What an order is but for the quantity.
  abbrev Alike : Order → Order → Type 0
  Alike c c' = (c.order_id ≡ c'.order_id) × (c.order_side ≡ c'.order_side) × (c.price ≡ c'.price)

  later :
      (a : Ptr) (c : Order)
      → view (heap_of b) a ≡ some c
      → (c' : Order) × (view heap' a ≡ some c') × Alike c c'
  later a c e = elim (Bool-cases (a == p)) [
    | inl at ↦
        let is_p = eq_of_test a p at in
        let is_c =
          some-injective (contents o) c
            (sym (view-some (heap_of b) p stored) ∙ ap (view (heap_of b)) (sym is_p) ∙ e) in
        (
          contents (resized target o),
          ap (view heap') is_p ∙ view_self (heap_of b) p (resized target o),
          (
            ap (λ x. x.order_id) (sym is_c),
            ap (λ x. x.order_side) (sym is_c),
            ap (λ x. x.price) (sym is_c),
          ),
        )
    | inr ne ↦
        (c, view_congr (heap_of b) heap' a (apart a (ne_of_test a p ne)) ∙ e, (refl, refl, refl))
  ]

  earlier :
      (a : Ptr) (c' : Order)
      → view heap' a ≡ some c'
      → (c : Order) × (view (heap_of b) a ≡ some c) × Alike c c' × (order_is_valid c' ≡ true)
  earlier a c' e = elim (Bool-cases (a == p)) [
    | inl at ↦
        let is_p = eq_of_test a p at in
        let is_c =
          some-injective (contents (resized target o)) c'
            (sym (view_self (heap_of b) p (resized target o)) ∙ ap (view heap') (sym is_p) ∙ e) in
        (
          contents o,
          ap (view (heap_of b)) is_p ∙ view-some (heap_of b) p stored,
          (ap (λ x. x.order_id) is_c, ap (λ x. x.order_side) is_c, ap (λ x. x.price) is_c),
          ap order_is_valid (sym is_c) ∙ order_is_valid-resized target o good small,
        )
    | inr ne ↦
        let old = view_congr heap' (heap_of b) a (sym (apart a (ne_of_test a p ne))) ∙ e in
        (c', old, (refl, refl, refl), v.valid a c' old)
  ]

  pub shrunk-IsBook : IsBook hash shrunk q m
  shrunk-IsBook = record {
    pool = IsPool-heap b.store heap' (lives-update (heap_of b) p _ stored) v.pool;
    represents = v.represents;
    machine = v.machine;
    live = v.live;
    sides = shrunk-IsSide;
    queued = λ t k a lt_k mem'.
        let (c, e, at_side) = v.queued t k a (omega (arith, same_count t)) mem' in
        let (c', e', (_, same_side, _)) = later a c e in (c', e', sym same_side ∙ at_side);
    resting = λ a c' e'.
        let (c, e, (same_id, same_side, _), _) = earlier a c' e' in
        let (id, k, lt_k, mem') = v.resting a c e in
        subst
          (λ s.
            (m c'.order_id ≡ a)
            × (j : ℕ) × (j < (ladder_of s shrunk).level_count)
            × (a ∈ queues_of s q j))
          same_side (ap m (sym same_id) ∙ id, k, omega (arith, same_count c.order_side), mem');
    valid = λ a c' e'. let (c, _, _, sound) = earlier a c' e' in sound;
    mapped = λ id ne.
        let (c, e, is_id) = v.mapped id ne in
        let (c', e', (same_id, _, _)) = later (m id) c e in (c', e', sym same_id ∙ is_id);
  }

  pub shrunk-alike :
      (a : Ptr) (c' : Order)
      → view heap' a ≡ some c'
      → (c : Order) × (view (heap_of b) a ≡ some c)
        × (c.order_side ≡ c'.order_side)
        × (c.price ≡ c'.price)
  shrunk-alike a c' e' =
      let (c, e, (_, same_side, same_price), _) = earlier a c' e' in (c, e, same_side, same_price)

  pub shrink_order-Shrinks :
      (b' : Book) × (shrink_order hash p o target b ≡ (ok tt, b'))
      × Shrinks hash b q m p o target b'
  unfolding shrink_order read_level write_level
  shrink_order-Shrinks =
      let linked =
        place_lem hash b q m v side i p (contents o) lt mem (view-some (heap_of b) p stored) in
      let fits : o.remaining_quantity - target ≤ here.level.total_quantity = omega (
        arith,
        covers (level_ref side i) (heap_of b) here.level p o (queues_of side q i) target here.queue
            stored mem here.funded,
      ) in
      (
        shrunk,
        rw
            (
              set_remaining_quantity-ok target o pos (omega (arith, remaining-le o good)),
              linked,
              get_level-ok (ladder_of side b) i here.at,
              reduce_total_quantity-ok (o.remaining_quantity - target) here.level fits,
            )
            refl,
        record {
          index = i;
          level = here.level;
          queued = mem;
          was = here.at;
          now = refl;
          book = shrunk-IsBook;
          alike = shrunk-alike;
        },
      )
