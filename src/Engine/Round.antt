-- ===== src/Engine/Round.antt =====
-- One execution against the first order of the best level: `settle_fill` on a book whose parts agree.
use leka.Base.{
  ℕ, ◌-◌, ◌<◌, ◌≤◌, ◌≡◌, ◌⊎◌, refl, sym, ap, ◌∙◌, subst, inl, inr, true, false, some, List, [],
  arith, ◌==◌, Bool-cases, get_elem?, ==_iff, ◌∈◌,
}
use leka.Base.Outcome.{ok}
use leka.Base.State.{Cmd, lift, ◌>>=◌}
use leka.Types.{OrderId, OrderSide, Quantity}
use leka.Order.{Ptr, Order, reduce_remaining_quantity}
use leka.Memory.{update}
use leka.Level.{Level, reduce_total_quantity}
use leka.Ladder.{put_level}
use leka.Book.{Book, heap_of, ladder_of, put_ladder, put_heap, read_level, write_level}
use leka.Book.Invariant.{Queues, queues_of, put_queue, level_ref, IsBook}
use leka.Book.Unlinking.{get_level-ok}
use leka.Book.Resizing.{resized, retotalled, covers}
use leka.Book.Departure.{Leaves}
use leka.Book.Removal.{remove_order-Leaves_at}
use leka.Book.Shrinking.{
  Shrinks, reduce_total_quantity-ok, shrunk, shrunk-IsBook, shrunk-alike, here,
}
use leka.Engine.{settle_fill}
use leka.Engine.Best.{IsBest}

reduce_remaining_quantity-ok :
    (quantity : Quantity) (o : Order)
    → quantity ≤ o.remaining_quantity
    → reduce_remaining_quantity quantity o ≡ ok (resized (o.remaining_quantity - quantity) o)
unfolding reduce_remaining_quantity
reduce_remaining_quantity-ok quantity o small = ground arith

-- The aggregate of a level is reduced.
abbrev shrink_level : OrderSide → ℕ → Quantity → Cmd Book (Unit {0})
shrink_level side i quantity = do
  level ← read_level (level_ref side i)
  level' ← lift (reduce_total_quantity quantity level)
  write_level (level_ref side i) level'

shrink_level_lem :
    (b : Book) (side : OrderSide) (i : ℕ) (level : Level) (quantity : Quantity)
    → get_elem? (ladder_of side b).levels i ≡ some level
    → quantity ≤ level.total_quantity
    → shrink_level side i quantity b ≡ (
      ok tt,
      put_ladder side
          (put_level (ladder_of side b) i (retotalled (level.total_quantity - quantity) level))
          b,
    )
unfolding read_level write_level
shrink_level_lem b side i level quantity at fits =
    rw (get_level-ok (ladder_of side b) i at, reduce_total_quantity-ok quantity level fits) refl

module _ (hash : ℕ → ℕ) (b : Book) (q : Queues) (m : OrderId → Ptr) (v : IsBook hash b q m)
    (p : Ptr) (o : Order) (stored : heap_of b p ≡ some o) (i : ℕ) (ps : List Ptr)
    (best : IsBest b q o.order_side i p ps) (quantity : Quantity) (pos : 0 < quantity)
    (small : quantity ≤ o.remaining_quantity) where
  abbrev left : Quantity
  left = o.remaining_quantity - quantity

  settle_all :
      (left == 0) ≡ true
      → (b' : Book) × (settle_fill hash (level_ref o.order_side i) p o quantity b ≡ (ok tt, b'))
        × Leaves hash b q m p o b' (put_queue o.order_side i ps q)
  unfolding settle_fill
  settle_all all =
      let (b', run, leaves) =
        remove_order-Leaves_at hash b q m v p o stored i [] ps best.inside best.queue left
          (omega arith) in
      (b', rw (reduce_remaining_quantity-ok quantity o small, all) run, leaves)

  first_in : p ∈ queues_of o.order_side q i
  first_in = subst (λ l. p ∈ l) (sym best.queue) (ground (arith, (==_iff p p).1 refl))

  -- The order keeps its place with less left.
  settle_some :
      (left == 0) ≡ false
      → (more : 0 < left) (less : left ≤ o.remaining_quantity)
      → (b' : Book) × (settle_fill hash (level_ref o.order_side i) p o quantity b ≡ (ok tt, b'))
        × Shrinks hash b q m p o left b'
  unfolding settle_fill
  settle_some part more less =
      let at = here hash b q m v p o stored i best.inside first_in left more less in
      let fits : quantity ≤ at.level.total_quantity = omega (
        arith,
        covers (level_ref o.order_side i) (heap_of b) at.level p o (queues_of o.order_side q i) left
            at.queue stored first_in at.funded,
      ) in
      let difference : quantity ≡ o.remaining_quantity - left = omega arith in
      (
        shrunk hash b q m v p o stored i best.inside first_in left more less,
        rw (reduce_remaining_quantity-ok quantity o small, part)
              (shrink_level_lem (put_heap (update (heap_of b) p (some (resized left o))) b)
                o.order_side i at.level quantity at.at fits)
            ∙ ap
                (λ n. (
                  ok tt,
                  put_ladder o.order_side
                      (put_level (ladder_of o.order_side b) i
                        (retotalled (at.level.total_quantity - n) at.level))
                      (put_heap (update (heap_of b) p (some (resized left o))) b),
                ))
                difference,
        record {
          index = i;
          level = at.level;
          queued = first_in;
          was = at.at;
          now = refl;
          book = shrunk-IsBook hash b q m v p o stored i best.inside first_in left more less;
          alike = shrunk-alike hash b q m v p o stored i best.inside first_in left more less;
        },
      )

  pub settle_fill_cases :
      ((quantity ≡ o.remaining_quantity)
        × (b' : Book) × (settle_fill hash (level_ref o.order_side i) p o quantity b ≡ (ok tt, b'))
        × Leaves hash b q m p o b' (put_queue o.order_side i ps q))
      ⊎ ((quantity < o.remaining_quantity)
          × (b' : Book) × (settle_fill hash (level_ref o.order_side i) p o quantity b ≡ (ok tt, b'))
          × Shrinks hash b q m p o left b')
  settle_fill_cases = elim (Bool-cases (left == 0)) [
    | inl all ↦ let (b', run, leaves) = settle_all all in inl (ground (arith, all), b', run, leaves)
    | inr part ↦
        let (b', run, shrinks) = settle_some part (ground (arith, part)) (omega arith) in
        inr (ground (arith, part), b', run, shrinks)
  ]
