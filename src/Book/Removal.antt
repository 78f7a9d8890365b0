-- ===== src/Book/Removal.antt =====
-- `OrderBook::removeOrder` and `cancelOrder` on a book whose parts agree.
use leka.Base.{
  ◌≤◌, sym, ℕ, ◌<◌, ◌≡◌, ◌≢◌, ◌⊎◌, refl, ap, ◌∙◌, inl, inr, Bool, true, false, none, some, List,
  ◌∷◌, ◌++◌, arith, ◌==◌, if◌then◌else◌, Bool-cases, eq_of_test, ne_of_test, test_of_ne, ==_iff,
}
use leka.Base.Outcome.{ok}
use leka.Base.State.{Cmd, pure, and_then, puts, ◌>>=◌, ◌>>◌}
use leka.Types.{Quantity, OrderId}
use leka.Order.{Ptr, null, LevelRef, Order}
use leka.Memory.{update, update_self, update_same, load-ok}
use leka.Level.Invariant.{contents, view-some}
use leka.Index
use leka.Index.{find_order}
use leka.Index.Table.{find_order_lem}
use leka.Index.Removal.{remove_order-Represents}
use leka.Pool.{release}
use leka.Pool.Release.{release_live-IsPool}
use leka.Book.{
  put_heap, reads, on_store, unlink_order, Book, heap_of, ladder_of, find, read_order, remove_order,
  cancel_order,
}
use leka.Book.Invariant.{Queues, queues_of, put_queue, level_ref, IsBook}
use leka.Book.Places.{view_inverse, IsPool-heap, lives-update, Removed-lives, split_mem}
use leka.Book.Resizing.{resized}
use leka.Book.Departure.{
  Leaves, not_null, mapped_id, linked, unlink, left, left-IsBook, gone, views, same_count,
}

-- The calls behind the checks of `removeOrder`.
abbrev drop_order : (hash : ℕ → ℕ) → Ptr → Cmd Book (Unit {0})
drop_order hash p = do
  i ← reads (λ b. Index.remove_order hash p (heap_of b) b.index)
  puts (λ b. record b { index = i })
  on_store (release p)

remove_order-checked :
    (hash : ℕ → ℕ) (b : Book) (p : Ptr) (o : Order) (r : LevelRef)
    → p ≢ null
    → heap_of b p ≡ some o
    → find_order hash o.order_id b.index ≡ ok p
    → o.price_level ≡ some r
    → remove_order hash p b
      ≡ and_then (unlink_order p r o.order_side o.price b) (λ _. drop_order hash p)
unfolding remove_order find read_order
remove_order-checked hash b p o r ne stored look linked =
    rw (test_of_ne p null ne, load-ok (heap_of b) p stored, look, (==_iff p p).1 refl, linked) refl

module _ (hash : ℕ → ℕ) (b : Book) (q : Queues) (m : OrderId → Ptr) (v : IsBook hash b q m)
    (p : Ptr) (o : Order) (stored : heap_of b p ≡ some o) (i : ℕ) (xs ys : List Ptr)
    (lt : i < (ladder_of o.order_side b).level_count)
    (was : queues_of o.order_side q i ≡ xs ++ p ∷ ys) (rest_of_it : Quantity)
    (less : rest_of_it ≤ o.remaining_quantity) where
  pub remove_order-Leaves_at :
      (b' : Book) × (remove_order hash p
          (put_heap (update (heap_of b) p (some (resized rest_of_it o))) b)
        ≡ (ok tt, b'))
      × Leaves hash b q m p o b' (put_queue o.order_side i (xs ++ ys) q)
  remove_order-Leaves_at =
      let (level', h, l, u) = unlink hash b q m v p o stored i xs ys lt was rest_of_it less in
      let (t, removes, represents, count) =
        remove_order-Represents hash b.index m p h
          (record o {
            remaining_quantity = rest_of_it;
            next_order = null;
            previous_order = null;
            price_level = none;
          })
          v.represents u.removed.stored
          (not_null hash b q m v p o stored i xs ys lt was rest_of_it less)
          (mapped_id hash b q m v p o stored i xs ys lt was rest_of_it less)
          (omega (arith, v.machine)) in
      let (s, releases, pool, heap, living) =
        release_live-IsPool (record b.store { heap = h }) p _
          (IsPool-heap b.store h
            (λ a.
              Removed-lives u.removed (update_self (heap_of b) p _) a
              ∙ lives-update (heap_of b) p _ stored a)
            v.pool)
          u.removed.stored in
      (
        left hash b q m v p o stored i xs ys lt was rest_of_it less level' h l t s u.removed
            u.relevelled heap u.shows,
        remove_order-checked hash (put_heap (update (heap_of b) p (some (resized rest_of_it o))) b)
              p (resized rest_of_it o) (level_ref o.order_side i)
              (not_null hash b q m v p o stored i xs ys lt was rest_of_it less)
              (update_self (heap_of b) p _)
              (find_order_lem hash b.index m o.order_id v.represents
                ∙ ap ok (mapped_id hash b q m v p o stored i xs ys lt was rest_of_it less))
              (linked hash b q m v p o stored i xs ys lt was rest_of_it less)
            ∙ ap (λ r. and_then r (λ _. drop_order hash p)) u.run
            ∙ rw (removes, releases) refl,
        record {
          index = i;
          before = xs;
          behind = ys;
          was = was;
          now = refl;
          book =
              left-IsBook hash b q m v p o stored i xs ys lt was rest_of_it less level' h l t s
                u.removed u.relevelled heap u.shows pool represents count living;
          gone =
              gone hash b q m v p o stored i xs ys lt was rest_of_it less level' h l t s u.removed
                u.relevelled heap u.shows;
          others =
              views hash b q m v p o stored i xs ys lt was rest_of_it less level' h l t s u.removed
                u.relevelled heap u.shows;
          count = count;
          levels =
              same_count hash b q m v p o stored i xs ys lt was rest_of_it less level' h l t s
                u.removed u.relevelled heap u.shows;
        },
      )

module _ (hash : ℕ → ℕ) (b : Book) (q : Queues) (m : OrderId → Ptr) where
  pub remove_order-Leaves :
      (p : Ptr) (o : Order)
      → IsBook hash b q m
      → heap_of b p ≡ some o
      → (b' : Book) × (q' : Queues) × (remove_order hash p b ≡ (ok tt, b'))
        × Leaves hash b q m p o b' q'
  remove_order-Leaves p o v stored =
      let (_, i, lt, mem) = v.resting p (contents o) (view-some (heap_of b) p stored) in
      let (xs, ys, was) = split_mem p (queues_of o.order_side q i) mem in
      let (b', run, leaves) =
        remove_order-Leaves_at hash b q m v p o stored i xs ys lt was o.remaining_quantity
          (omega arith) in
      (
        b',
        put_queue o.order_side i (xs ++ ys) q,
        ap (λ h. remove_order hash p (put_heap h b)) (sym (update_same (heap_of b) p stored)) ∙ run,
        leaves,
      )

  -- On a book whose parts agree, a cancellation answers false and changes nothing where the map
  -- has no entry for the identifier; where it has one, it answers true, and the order is gone
  -- from its queue, the map and memory, the other orders keep their places and all but their
  -- links, and the parts agree again, with one order less.
  pub cancel_order_cases :
      (id : OrderId)
      → IsBook hash b q m
      → ((m id ≡ null) × (cancel_order hash id b ≡ (ok false, b)))
        ⊎ ((o : Order) × (heap_of b (m id) ≡ some o)
            × (o.order_id ≡ id)
            × (b' : Book) × (q' : Queues) × (cancel_order hash id b ≡ (ok true, b'))
            × Leaves hash b q m (m id) o b' q')
  unfolding cancel_order find
  cancel_order_cases id v = elim (Bool-cases (m id == null)) [
    | inl e ↦
        inl (eq_of_test (m id) null e, rw (find_order_lem hash b.index m id v.represents, e) refl)
    | inr e ↦
        let (c, at_c, same_id) = v.mapped id (ne_of_test (m id) null e) in
        let (o, stored, same) = view_inverse (heap_of b) (m id) c at_c in
        let after : Cmd Book Bool = (do remove_order hash (m id); pure true) in
        let (b', q', run, leaves) = remove_order-Leaves (m id) o v stored in
        inr (
          o,
          stored,
          ap (λ x. x.order_id) same ∙ same_id,
          b',
          q',
          rw (find_order_lem hash b.index m id v.represents) (
              ap (λ t. (if t then pure false else after) b) e
              ∙ ap (λ r. and_then r (λ _. pure true)) run),
          leaves,
        )
  ]
