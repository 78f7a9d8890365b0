-- ===== src/Book/Arrival.antt =====
-- An order that has been allocated reaches the level of its price: the state that the first calls of
-- `addOrderWithQuantities` lead to.
use leka.Base.{
  ℕ, ◌+◌, ◌<◌, ◌^◌, ◌≡◌, ◌≢◌, ◌⊎◌, refl, sym, ap, ◌∙◌, subst, inl, inr, true, none, some, List, [],
  ◌∷◌, ◌++◌, arith, ◌==◌, Bool-cases, eq_of_test, ne_of_test, test_of_ne, ==_iff, ◌∈◌, ◌∉◌, has,
  has-append, ne_of_mem,
}
use mathlib.Core.Option.{none-ne-some, some-injective}
use leka.Types.{add_u64, OrderId, OrderSide}
use leka.Order.{Ptr, null, LevelRef, Order, order_is_valid}
use leka.Memory.{Heap, update, update_ne}
use leka.Level.{Level, set_level}
use leka.Level.Invariant.{contents, view, view_congr, IsQueue, IsFunded}
use leka.Level.Add.{Added}
use leka.Ladder.{Ladder}
use leka.Ladder.Words.{bit}
use leka.Index.{Index}
use leka.Index.Insertion.{update_map}
use leka.Index.Table.{Represents}
use leka.Pool.{Store}
use leka.Pool.Invariant.{IsPool}
use leka.Book.{Book, heap_of, ladder_of, put_ladder}
use leka.Book.Invariant.{
  Queues, queues_of, put_queue, level_ref, some_order, IsAt, IsSide, IsBook, IsQueue-frame,
  IsFunded-frame, Relevelled,
}
use leka.Book.Places.{
  place_cases, put_queue_at, put_queue_off, level_count-put, view-none, one_place,
}
use leka.Book.Update.{new_sides}

-- What the addition of the order `o` leaves: the order stands at the back of the queue of its price, in
-- fresh memory, and under its identifier in the map; nothing else of what can be seen has changed.
pub record Arrives (hash : ℕ → ℕ) (b : Book) (q : Queues) (m : OrderId → Ptr) (o : Order) (p : Ptr)
    (b' : Book) (q' : Queues) : Type 0 where
  pub index : ℕ
  pub at :
      IsAt
        (heap_of b)
        o.order_side
        (ladder_of o.order_side b)
        index
        (queues_of o.order_side q index)
  pub priced : at.level.price ≡ o.price
  pub now : q' ≡ put_queue o.order_side index (queues_of o.order_side q index ++ p ∷ []) q
  pub book : IsBook hash b' q' (update_map m o.order_id p)
  pub fresh : m o.order_id ≡ null
  pub vacant : heap_of b p ≡ none
  pub stored :
      view (heap_of b') p ≡ some (set_level (some (level_ref o.order_side index)) (contents o))
  pub others : (a : Ptr) → a ≢ p → view (heap_of b') a ≡ view (heap_of b) a
  pub count : b'.index.count ≡ b.index.count + 1

-- Whether an order is valid is not for its links to say.
order_is_valid-linked :
    (r : LevelRef) (o : Order) → order_is_valid (set_level (some r) (contents o)) ≡ order_is_valid o
unfolding order_is_valid
order_is_valid-linked r o = refl

module _ (hash : ℕ → ℕ) (b : Book) (q : Queues) (m : OrderId → Ptr) (v : IsBook hash b q m)
    (p : Ptr) (o : Order) (vacant : heap_of b p ≡ none) where
  -- A vacant address is in no queue, and every queue stands in memory as before the allocation.
  pub not_queued :
      (s : OrderSide) (k : ℕ) (a : Ptr)
      → k < (ladder_of s b).level_count
      → a ∈ queues_of s q k
      → a ≢ p
  not_queued s k a lt mem e =
      let (c, at_c, _) = v.queued s k a lt mem in
      none-ne-some c (sym (view-none (heap_of b) a (ap (heap_of b) e ∙ vacant)) ∙ at_c)

  pub out_of_queue : (s : OrderSide) (k : ℕ) → k < (ladder_of s b).level_count → p ∉ queues_of s q k
  out_of_queue s k lt = elim (Bool-cases (has p (queues_of s q k))) [
    | inl mem ↦ absurd (not_queued s k p lt mem refl)
    | inr off ↦ off
  ]

  module _ (i : ℕ) (lt : i < (ladder_of o.order_side b).level_count) where
    abbrev queue : List Ptr
    queue = queues_of o.order_side q i

    pub at : IsAt (heap_of b) o.order_side (ladder_of o.order_side b) i queue
    at = (v.sides o.order_side).levels i lt

    -- The level, seen in the memory that holds the new order too.
    module _ (g : Heap) (heap : g ≡ update (heap_of b) p (some o)) where
      allocated : (a : Ptr) → a ≢ p → g a ≡ heap_of b a
      allocated a ne = ap (λ h. h a) heap ∙ update_ne (heap_of b) p a (some o) ne

      pub IsQueue-allocated : IsQueue (level_ref o.order_side i) g at.level queue
      IsQueue-allocated =
          IsQueue-frame (level_ref o.order_side i) (heap_of b) g at.level queue
            (λ a mem. allocated a (not_queued o.order_side i a lt mem)) at.queue

      pub IsFunded-allocated : IsFunded g at.level queue
      IsFunded-allocated =
          IsFunded-frame (heap_of b) g at.level queue
            (λ a mem. view_congr (heap_of b) g a (allocated a (not_queued o.order_side i a lt mem)))
            at.funded

      module _ (level' : Level) (h : Heap)
          (added : Added (level_ref o.order_side i) g at.level p o queue (level', h)) where
        -- An order that rests elsewhere stands in memory as it did.
        pub spared :
            (t : OrderSide) (k : ℕ) (a : Ptr)
            → k < (ladder_of t b).level_count
            → level_ref t k ≢ level_ref o.order_side i
            → a ∈ queues_of t q k
            → h a ≡ heap_of b a
        spared t k a lt_k ne mem =
            let off = not_queued t k a lt_k mem in
            elim (Bool-cases (has a queue)) [
              | inl there ↦
                  absurd (ne (one_place hash b q m v t o.order_side k i a lt_k lt mem there))
              | inr away ↦ added.outside a away off ∙ allocated a off
            ]

        pub views : (a : Ptr) → a ≢ p → view h a ≡ view (heap_of b) a
        views a ne = added.others a ne ∙ view_congr (heap_of b) g a (allocated a ne)

        module _ (l : Ladder) (t : Index) (s : Store)
            (relevelled : Relevelled (ladder_of o.order_side b) l i level')
            (shows : bit l.words i ≡ true) (heap' : s.heap ≡ h) where
          abbrev arrived : Book
          arrived = record (put_ladder o.order_side l b) { store = s; index = t }

          abbrev longer : List Ptr
          longer = queue ++ p ∷ []

          ends : (xs : List Ptr) → some_order (xs ++ p ∷ []) ≡ true
          ends [] = refl
          ends (x ∷ xs) = refl

          arrived-IsSide :
              (t : OrderSide)
              → IsSide h t (ladder_of t arrived) (queues_of t (put_queue o.order_side i longer q))
          arrived-IsSide =
              new_sides b q h o.order_side i l level' longer v.sides relevelled lt
                (added.price ∙ at.priced) added.queue added.funded (shows ∙ sym (ends queue)) spared

          same_count :
              (t : OrderSide) → (ladder_of t arrived).level_count ≡ (ladder_of t b).level_count
          same_count t = level_count-put t o.order_side l b relevelled.count

          -- Who is in a queue now is the new order, in its own, or was there before.
          now_in :
              (t : OrderSide) (k : ℕ) (a : Ptr)
              → a ∈ queues_of t (put_queue o.order_side i longer q) k
              → ((a ≡ p) × (o.order_side ≡ t)) ⊎ (a ∈ queues_of t q k)
          now_in t k a mem = elim (place_cases t o.order_side k i) [
            | inr off ↦ inr (subst (λ x. a ∈ x) (put_queue_off t o.order_side k i longer q off) mem)
            | inl (same, e) ↦
                let mem' : a ∈ longer =
                  subst (λ x. a ∈ x)
                    (ap (λ x. queues_of x (put_queue o.order_side i longer q) k) same
                      ∙ ap (queues_of o.order_side (put_queue o.order_side i longer q)) e
                      ∙ put_queue_at o.order_side i longer q)
                    mem in
                elim (Bool-cases (a == p)) [
                  | inl is_p ↦ inl (eq_of_test a p is_p, sym same)
                  | inr not_p ↦
                      let old : a ∈ queue = ground (arith, has-append a queue (p ∷ [])) in
                      inr (
                        subst (λ x. a ∈ x)
                          (sym (ap (λ x. queues_of x q k) same ∙ ap (queues_of o.order_side q) e))
                          old)
                ]
          ]

          stays_in :
              (t : OrderSide) (k : ℕ) (a : Ptr)
              → a ∈ queues_of t q k
              → a ∈ queues_of t (put_queue o.order_side i longer q) k
          stays_in t k a mem = elim (place_cases t o.order_side k i) [
            | inr off ↦ subst (λ x. a ∈ x) (sym (put_queue_off t o.order_side k i longer q off)) mem
            | inl (same, e) ↦
                let old : a ∈ queue =
                  subst (λ x. a ∈ x)
                    (ap (λ x. queues_of x q k) same ∙ ap (queues_of o.order_side q) e) mem in
                subst (λ x. a ∈ x)
                  (sym (
                    ap (λ x. queues_of x (put_queue o.order_side i longer q) k) same
                    ∙ ap (queues_of o.order_side (put_queue o.order_side i longer q)) e
                    ∙ put_queue_at o.order_side i longer q))
                  (ground (arith, has-append a queue (p ∷ [])))
          ]

          joined : p ∈ queues_of o.order_side (put_queue o.order_side i longer q) i
          joined =
              subst (λ x. p ∈ x) (sym (put_queue_at o.order_side i longer q))
                (has-append p queue (p ∷ []) ∙ ground (arith, (==_iff p p).1 refl))

          pub arrived-IsBook :
              IsPool s
              → Represents hash t (update_map m o.order_id p)
              → t.count ≡ b.index.count + 1
              → b.index.count < 2 ^ 53
              → s.pool.live_order_count ≡ add_u64 b.store.pool.live_order_count 1
              → m o.order_id ≡ null
              → order_is_valid o ≡ true
              → IsBook hash arrived (put_queue o.order_side i longer q) (update_map m o.order_id p)
          arrived-IsBook pool represents count small living fresh good = record {
            pool = pool;
            represents = represents;
            machine = omega (arith, count, small);
            live = omega (arith, living, count, small, v.live);
            sides = λ t.
                subst
                  (λ g'.
                    IsSide g' t (ladder_of t arrived)
                      (queues_of t (put_queue o.order_side i longer q)))
                  (sym heap') (arrived-IsSide t);
            queued = λ t k a lt_k mem. elim (now_in t k a mem) [
              | inl (is_p, same) ↦
                  (_, ap (view s.heap) is_p ∙ ap (λ g'. view g' p) heap' ∙ added.stored, same)
              | inr old ↦
                  let lt' : k < (ladder_of t b).level_count = omega (arith, same_count t) in
                  let (c, at_c, at_side) = v.queued t k a lt' old in
                  (
                    c,
                    ap (λ g'. view g' a) heap' ∙ views a (not_queued t k a lt' old) ∙ at_c,
                    at_side,
                  )
            ];
            resting = λ a c e. elim (Bool-cases (a == p)) [
              | inl is_p ↦
                  let q_p = eq_of_test a p is_p in
                  let is_c = some-injective _ c (
                    sym added.stored
                    ∙ ap (λ g'. view g' p) (sym heap')
                    ∙ ap (view s.heap) (sym q_p)
                    ∙ e) in
                  subst
                    (λ x.
                      (update_map m o.order_id p x.order_id ≡ a)
                      × (j : ℕ) × (j < (ladder_of x.order_side arrived).level_count)
                      × (a ∈ queues_of x.order_side (put_queue o.order_side i longer q) j))
                    is_c
                    (
                      rw ((==_iff o.order_id o.order_id).1 refl) (sym q_p),
                      i,
                      omega (arith, same_count o.order_side),
                      rw q_p joined,
                    )
              | inr not_p ↦
                  let ne = ne_of_test a p not_p in
                  let old = sym (views a ne) ∙ ap (λ g'. view g' a) (sym heap') ∙ e in
                  let (id, k, lt_k, mem) = v.resting a c old in
                  let no_null : a ≢ null =
                    ne_of_mem (queues_of c.order_side q k) mem
                      ((v.sides c.order_side).levels k lt_k).queue.no_null in
                  (
                    rw (test_of_ne c.order_id o.order_id (λ z. no_null (sym id ∙ ap m z ∙ fresh)))
                        id,
                    k,
                    omega (arith, same_count c.order_side),
                    stays_in c.order_side k a mem,
                  )
            ];
            valid = λ a c e. elim (Bool-cases (a == p)) [
              | inl is_p ↦
                  let q_p = eq_of_test a p is_p in
                  let is_c = some-injective _ c (
                    sym added.stored
                    ∙ ap (λ g'. view g' p) (sym heap')
                    ∙ ap (view s.heap) (sym q_p)
                    ∙ e) in
                  ap order_is_valid (sym is_c)
                  ∙ order_is_valid-linked (level_ref o.order_side i) o
                  ∙ good
              | inr not_p ↦
                  v.valid a c
                    (sym (views a (ne_of_test a p not_p)) ∙ ap (λ g'. view g' a) (sym heap') ∙ e)
            ];
            mapped = λ id h'. elim (Bool-cases (id == o.order_id)) [
              | inl e ↦
                  rw e
                    (_, ap (λ g'. view g' p) heap' ∙ added.stored, sym (eq_of_test id o.order_id e))
              | inr e ↦
                  let (c, at_c, same_id) = v.mapped id (rw e at h') in
                  let ne : m id ≢ p = λ z.
                    none-ne-some c
                      (sym (view-none (heap_of b) (m id) (ap (heap_of b) z ∙ vacant)) ∙ at_c) in
                  rw e (c, ap (λ g'. view g' (m id)) heap' ∙ views (m id) ne ∙ at_c, same_id)
            ];
          }
