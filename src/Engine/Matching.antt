-- ===== src/Engine/Matching.antt =====
-- The matching loop on a book whose parts agree: it ends, throws nothing, and trades by price and time.
use leka.Base.{
  ℕ, zero, suc, ◌+◌, ◌-◌, ◌<◌, ◌≤◌, ◌≡◌, ◌≢◌, refl, sym, ap, ◌∙◌, subst, inl, inr, false, ◌||◌, not,
  some, List, [], ◌∷◌, ◌++◌, arith, ◌==◌, min, Bool-cases, eq_of_test, ne_of_test, ==_iff, ◌∈◌,
  ne_of_mem,
}
use mathlib.Core.Option.{some-injective}
use leka.Base.Outcome.{ok}
use leka.Base.State.{and_then}
use leka.Types.{OrderId, Price, OrderSide, OrderType}
use leka.Order.{Ptr, null, Order}
use leka.Level.Invariant.{contents, view-some, remaining_at-some}
use leka.Index.Insertion.{update_map}
use leka.Book.{Book, heap_of, ladder_of}
use leka.Book.Invariant.{Queues, queues_of, put_queue, level_ref, IsBook}
use leka.Book.Places.{view_inverse}
use leka.Book.Departure.{Leaves}
use leka.Book.Uncrossed.{IsUncrossed-alike, Leaves-IsUncrossed}
use leka.Engine.{Engine, opposite, stops_at, settle_fill, execute, match_best, match_loop}
use leka.Engine.Priority.{
  accepts, queue_line, line, offers, fill, trades, untraded, queue_line-empty, trades-stop,
  trades-zero,
}
use leka.Engine.Best.{IsBest, best_opposing_cases}
use leka.Engine.Spread.{stops_at-accepts, IsBeyond-stop, IsBeyond-none}
use leka.Engine.Round.{settle_fill_cases}
use leka.Engine.Steps.{
  Matched, loop_round, loop_end, execute_lem, no_new, behind, first_offer, other_offers,
  Matched-next, Matched-last, Matched-none,
}

module _ (hash : ℕ → ℕ) (id : OrderId) (price : Price) (side : OrderSide) (type : OrderType) where
  -- The first order of the best level, at a price that the incoming order accepts.
  module _ (fuel quantity : ℕ) (e : Engine) (q : Queues) (m : OrderId → Ptr)
      (v : IsBook hash e.book q m) (i : ℕ) (p : Ptr) (ps : List Ptr)
      (best : IsBest e.book q (opposite side) i p ps) (o : Order)
      (stored : heap_of e.book p ≡ some o) (same : o.order_side ≡ opposite side)
      (more : (quantity == 0) ≡ false)
      (go : (quantity == 0 || not (accepts side type price o.price)) ≡ false)
      (rest : (e1 : Engine) (q1 : Queues) (m1 : OrderId → Ptr) (n : ℕ)
        → IsBook hash e1.book q1 m1
        → e1.book.index.count + 2 ≤ fuel
        → (left : ℕ) × (e' : Engine) × (match_loop hash fuel id price side type n e1
            ≡ (ok left, e'))
          × Matched hash e1 q1 m1 id price side type n left e') where
    abbrev traded : ℕ
    traded = min quantity o.remaining_quantity

    p_in : p ∈ (p ∷ ps)
    p_in = ground (arith, (==_iff p p).1 refl)

    not_null : p ≢ null
    not_null = ne_of_mem (p ∷ ps) p_in best.at.queue.no_null

    some_left : 0 < o.remaining_quantity
    some_left =
        omega (arith, best.at.funded.positive p p_in, remaining_at-some (heap_of e.book) p stored)

    some_traded : 0 < traded
    some_traded = omega (arith, some_left, ne_of_test quantity 0 more)

    abbrev after : Book → Engine
    after b' = record e { book = b'; out = e.out ++ fill id quantity o ∷ [] }

    offered :
        offers (heap_of e.book) (line e.book q (opposite side))
        ≡ contents o
          ∷ offers (heap_of e.book) (
              queue_line
                (behind hash e.book q m (opposite side) i p ps best)
                0
                (ladder_of (opposite side) e.book).level_count)
    offered =
        first_offer hash e.book q m (opposite side) i p ps best (contents o)
          (view-some (heap_of e.book) p stored)

    executes :
        (b' : Book)
        → settle_fill hash (level_ref o.order_side i) p o traded e.book ≡ (ok tt, b')
        → execute hash id (level_ref (opposite side) i) best.at.level quantity e
          ≡ (ok (quantity - traded), after b')
    executes b' run =
        execute_lem hash id (level_ref (opposite side) i) best.at.level quantity e p o best.head
          not_null stored
          (subst (λ s. settle_fill hash (level_ref s i) p o traded e.book ≡ (ok tt, b')) same run)

    pub Matched-first :
        e.book.index.count + 2 ≤ suc fuel
        → (left : ℕ) × (e' : Engine) × (and_then
              (execute hash id (level_ref (opposite side) i) best.at.level quantity e)
              (match_loop hash fuel id price side type)
            ≡ (ok left, e'))
          × Matched hash e q m id price side type quantity left e'
    Matched-first enough =
        elim (settle_fill_cases hash e.book q m v p o stored i ps
          (subst (λ s. IsBest e.book q s i p ps) (sym same) best) traded some_traded
          (omega arith)) [
            | inl (all, b', run, leaves') ↦
                let leaves =
                  subst (λ s. Leaves hash e.book q m p o b' (put_queue s i ps q)) same leaves' in
                let (left, e', runs, w) =
                  rest (after b') (put_queue (opposite side) i ps q) (update_map m o.order_id null)
                    (quantity - traded) leaves.book (omega (arith, leaves.count, enough)) in
                (
                  left,
                  e',
                  ap (λ r. and_then r (match_loop hash fuel id price side type)) (executes b' run)
                      ∙ runs,
                  Matched-next hash id price side type e (after b') e' q
                      (put_queue (opposite side) i ps q) m (update_map m o.order_id null) quantity
                      left (contents o) _ offered
                      (other_offers hash e.book q m (opposite side) i p ps best o b' leaves) go refl
                      refl (omega (arith, leaves.count)) (no_new m o.order_id)
                      (Leaves-IsUncrossed leaves) w,
                )
            | inr (part, b', run, shrinks) ↦
                let spent : quantity - traded ≡ 0 = omega (arith, part) in
                (
                  0,
                  after b',
                  ap (λ r. and_then r (match_loop hash fuel id price side type)) (executes b' run)
                      ∙ ap (λ n. match_loop hash fuel id price side type n (after b')) spent
                      ∙ loop_end hash fuel id price side type (after b') (omega (arith, enough)),
                  Matched-last hash id price side type e (after b') q m quantity (contents o) _
                      shrinks.book offered go spent refl refl (ap (λ x. x.index.count) shrinks.now)
                      (IsUncrossed-alike (heap_of e.book) (heap_of b') shrinks.alike),
                )
          ]

  -- On a book whose parts agree, the matching loop returns if it has two rounds more than the
  -- book has orders. It throws nothing, appends the executions that price and time priority ask
  -- for, none at a price above a buyer's limit or below a seller's, and answers the quantity that
  -- they leave, leaves a book whose parts agree, of no more orders and no new identifier, and if
  -- quantity is left, no resting order of the other side is within the limit price; a book that
  -- was not crossed is not crossed behind it.
  pub match_loop-Matched :
      (fuel quantity : ℕ) (e : Engine) (q : Queues) (m : OrderId → Ptr)
      → IsBook hash e.book q m
      → e.book.index.count + 2 ≤ fuel
      → (left : ℕ) × (e' : Engine) × (match_loop hash fuel id price side type quantity e
          ≡ (ok left, e'))
        × Matched hash e q m id price side type quantity left e'
  unfolding match_best offers trades untraded
  match_loop-Matched zero quantity e q m v enough = absurd (omega arith)
  match_loop-Matched (suc fuel) quantity e q m v enough = elim (Bool-cases (quantity == 0)) [
    | inl z ↦
        let is_zero = eq_of_test quantity 0 z in
        let (none_traded, none_left) =
          trades-zero id price side type
            (offers (heap_of e.book) (line e.book q (opposite side))) in
        (
          quantity,
          e,
          ap (λ n. match_loop hash (suc fuel) id price side type n e) is_zero
              ∙ loop_end hash (suc fuel) id price side type e (omega arith)
              ∙ ap (λ n. (ok n, e)) (sym is_zero),
          Matched-none hash id price side type e q m quantity _ v refl
              (
                ap
                      (λ n.
                        trades id price side type n
                          (offers (heap_of e.book) (line e.book q (opposite side))))
                      is_zero
                    ∙ none_traded,
                ap
                      (λ n.
                        untraded price side type n
                          (offers (heap_of e.book) (line e.book q (opposite side))))
                      is_zero
                    ∙ none_left
                    ∙ sym is_zero,
              )
              (λ pos. absurd (omega (arith, is_zero))),
        )
    | inr more ↦ elim (best_opposing_cases hash e.book q m v side) [
      | inl (empty, run) ↦ (
        quantity,
        e,
        loop_round hash fuel id price side type quantity e more run,
        Matched-none hash id price side type e q m quantity [] v
            (ap (offers (heap_of e.book)) (
              queue_line-empty (queues_of (opposite side) q) 0
                (ladder_of (opposite side) e.book).level_count
                (λ k _ lt. empty k (omega (arith, lt)))))
            (refl, refl) (λ _. IsBeyond-none hash e.book q m v side price empty),
      )
      | inr (i, p, ps, best, run) ↦
          let mem : p ∈ (p ∷ ps) = ground (arith, (==_iff p p).1 refl) in
          let (c, at_c, at_side) =
            v.queued (opposite side) i p best.inside (subst (λ l. p ∈ l) (sym best.queue) mem) in
          let (o, stored, same_c) = view_inverse (heap_of e.book) p c at_c in
          let same : o.order_side ≡ opposite side = ap (λ x. x.order_side) same_c ∙ at_side in
          let rests = best.at.queue.owned p mem in
          let priced : best.at.level.price ≡ o.price =
            sym rests.at_price
            ∙ ap (λ x. x.price)
                (some-injective rests.order (contents o)
                  (sym rests.holds ∙ view-some (heap_of e.book) p stored)) in
          let round = loop_round hash fuel id price side type quantity e more run in
          elim (Bool-cases (stops_at side type price best.at.level.price)) [
            | inl stop ↦ (
              quantity,
              e,
              round ∙ rw stop refl,
              Matched-none hash id price side type e q m quantity _ v
                  (first_offer hash e.book q m (opposite side) i p ps best (contents o)
                    (view-some (heap_of e.book) p stored))
                  (trades-stop id price side type quantity (contents o) _ (
                    rw more (
                      sym (stops_at-accepts side type price o.price)
                      ∙ ap (stops_at side type price) (sym priced)
                      ∙ stop)))
                  (λ _. IsBeyond-stop hash e.book q m v side type price i p ps best stop),
            )
            | inr go ↦
                let (left, e', runs, w) =
                  Matched-first fuel quantity e q m v i p ps best o stored same more
                    (rw more (
                      sym (stops_at-accepts side type price o.price)
                      ∙ ap (stops_at side type price) (sym priced)
                      ∙ go))
                    (λ e1 q1 m1 n v1 fits. match_loop-Matched fuel n e1 q1 m1 v1 fits) enough in
                (left, e', round ∙ rw go runs, w)
          ]
    ]
  ]
