-- ===== src/Index/Adds.antt =====
-- `OrderIndex::addOrder` against the map that the table stands for.
use leka.Base.{
  ℕ, ◌+◌, ◌<◌, ◌≡◌, ◌≢◌, ◌⊎◌, refl, inl, inr, some, arith, ◌==◌, Bool-cases, eq_of_test, ne_of_test,
  test_of_ne, ◌^◌,
}
use leka.Base.Outcome.{ok, throws, logic_error}
use leka.Types.{OrderId, add_u64}
use leka.Order.{Ptr, Order, null}
use leka.Memory.{Heap, load-ok}
use leka.Index.{Index}
use leka.Index.Add.{add_order}
use leka.Index.Table.{Represents, with_slots}
use leka.Index.Insertion.{update_map}
use leka.Index.Insert.{insert-Grown, insert-throws}
use leka.Index.Resize.{grow_if_needed-IsReady}

module _ (hash : ℕ → ℕ) (t : Index) (m : OrderId → Ptr) (p : Ptr) (h : Heap) (o : Order) where
  -- If a table represents a map, counts fewer than 2^53 orders, and a pointer other than null is
  -- that of an order, then adding the order either succeeds, where the map has no entry for its
  -- identifier, and the table represents the map with the entry and counts one more, or throws
  -- logic_error, where there is an entry, and the table represents the same map and counts the
  -- same.
  pub add_order_cases :
      Represents hash t m
      → h p ≡ some o
      → p ≢ null
      → t.count < 2 ^ 53
      → ((m o.order_id ≡ null)
          × (t' : Index) × (add_order hash p h t ≡ (ok tt, t'))
          × Represents hash t' (update_map m o.order_id p)
          × (t'.count ≡ t.count + 1))
        ⊎ ((m o.order_id ≢ null)
            × (t' : Index) × (add_order hash p h t ≡ (throws logic_error, t'))
            × Represents hash t' m
            × (t'.count ≡ t.count))
  unfolding add_order
  add_order_cases rep e ne small =
      let (g, grown, k, ready, same) = grow_if_needed-IsReady hash t m rep in
      elim (Bool-cases (m o.order_id == null)) [
        | inl z ↦
            let fresh = eq_of_test (m o.order_id) null z in
            let (r, run, more) =
              insert-Grown hash k g m o.order_id p ready.placed
                (omega (arith, ready.counted, ready.room)) ne fresh in
            inl (
              fresh,
              record { slots = r; count = add_u64 g.count 1 },
              rw (test_of_ne p null ne, grown, load-ok h p e, run) refl,
              with_slots k more.placed (omega (arith, ready.counted, more.more, same))
                  (omega (arith, ready.room, more.same, same)),
              omega (arith, same),
            )
        | inr z ↦
            let present = ne_of_test (m o.order_id) null z in
            inr (
              present,
              g,
              rw
                  (
                    test_of_ne p null ne,
                    grown,
                    load-ok h p e,
                    insert-throws hash k g m o.order_id p ready.placed
                        (omega (arith, ready.counted, ready.room)) ne present,
                  )
                  refl,
              with_slots k ready.placed ready.counted (omega (arith, ready.room)),
              same,
            )
      ]
