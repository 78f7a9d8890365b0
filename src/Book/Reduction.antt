-- ===== src/Book/Reduction.antt =====
-- `OrderBook::reduceOrder` on a book whose parts agree.
use leka.Base.{
  ℕ, ◌<◌, ◌≡◌, ◌⊎◌, refl, ap, ◌∙◌, inl, inr, Bool, true, false, not, ◌||◌, some, arith, ◌==◌, ltb,
  if◌then◌else◌, Bool-cases, eq_of_test, ne_of_test,
}
use leka.Base.Outcome.{ok, throws, invalid_argument}
use leka.Base.State.{Cmd, pure, and_then, throw_when, when, ◌>>=◌, ◌>>◌}
use leka.Types.{OrderId, Quantity}
use leka.Order.{Ptr, null, Order}
use leka.Memory.{load-ok}
use leka.Level.Invariant.{contents, view-some}
use leka.Index.Table.{find_order_lem}
use leka.Book.{Book, heap_of, read_order, find, shrink_order, reduce_order}
use leka.Book.Invariant.{Queues, IsBook}
use leka.Book.Places.{view_inverse}
use leka.Book.Shrinking.{Shrinks, shrink_order-Shrinks}

module _ (hash : ℕ → ℕ) (b : Book) (q : Queues) (m : OrderId → Ptr) where
  -- On a book whose parts agree, a reduction answers false where the map has no entry for the
  -- identifier, throws invalid_argument for no quantity and for more than the order has left, and
  -- answers true and changes nothing for as much as it has left. For less than that, but some, it
  -- answers true: the order has that quantity left and keeps its place, the aggregate of its
  -- level is less by the difference, all else is as it was, and the parts agree again.
  pub reduce_order_cases :
      (id : OrderId) (target : Quantity)
      → IsBook hash b q m
      → ((m id ≡ null) × (reduce_order hash id target b ≡ (ok false, b)))
        ⊎ ((o : Order) × (heap_of b (m id) ≡ some o)
            × (o.order_id ≡ id)
            × ((((target ≡ 0) ⊎ (o.remaining_quantity < target))
                  × (reduce_order hash id target b ≡ (throws invalid_argument, b)))
                ⊎ ((target ≡ o.remaining_quantity) × (reduce_order hash id target b ≡ (ok true, b)))
                ⊎ ((0 < target)
                    × (target < o.remaining_quantity)
                    × (b' : Book) × (reduce_order hash id target b ≡ (ok true, b'))
                    × Shrinks hash b q m (m id) o target b')))
  unfolding reduce_order find read_order
  reduce_order_cases id target v =
      let look = find_order_lem hash b.index m id v.represents in
      let checked : Cmd Book Bool = (do
        o ← read_order (m id)
        throw_when (target == 0 || ltb o.remaining_quantity target) invalid_argument
        when (not (target == o.remaining_quantity)) (shrink_order hash (m id) o target)
        pure true) in
      elim (Bool-cases (m id == null)) [
        | inl e ↦ inl (eq_of_test (m id) null e, rw (look, e) refl)
        | inr e ↦
            let (c, at_c, same_id) = v.mapped id (ne_of_test (m id) null e) in
            let (o, stored, same) = view_inverse (heap_of b) (m id) c at_c in
            let start : reduce_order hash id target b ≡ checked b =
              rw look (ap (λ t. (if t then pure false else checked) b) e) in
            inr (
              o,
              stored,
              ap (λ x. x.order_id) same ∙ same_id,
              elim (Bool-cases (target == 0 || ltb o.remaining_quantity target)) [
                | inl bad ↦
                    inl (
                      ground (arith, bad),
                      start ∙ rw (load-ok (heap_of b) (m id) stored, bad) refl,
                    )
                | inr fine ↦ elim (Bool-cases (target == o.remaining_quantity)) [
                  | inl all ↦ inr (
                      inl (
                        eq_of_test target o.remaining_quantity all,
                        start ∙ rw (load-ok (heap_of b) (m id) stored, fine, all) refl,
                      ))
                  | inr part ↦
                      let (_, i, lt, mem) =
                        v.resting (m id) (contents o) (view-some (heap_of b) (m id) stored) in
                      let (b', run, shrinks) =
                        shrink_order-Shrinks hash b q m v (m id) o stored i lt mem target
                          (ground (arith, fine)) (ground (arith, fine)) in
                      inr (
                        inr (
                          ground (arith, fine),
                          ground (arith, fine, ne_of_test target o.remaining_quantity part),
                          b',
                          start
                              ∙ rw (load-ok (heap_of b) (m id) stored, fine, part)
                                  (ap (λ r. and_then r (λ _. pure true)) run),
                          shrinks,
                        ))
                ]
              ],
            )
      ]
