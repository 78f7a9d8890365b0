-- ===== src/Index/Session.antt =====
-- A session with the index: its calls one after the other, and the map that answers them.
use leka.Base.{
  ℕ, ◌+◌, ◌≤◌, ◌<◌, ◌≡◌, ◌≢◌, refl, inl, inr, none, some, List, [], ◌∷◌, arith, ◌==◌, if◌then◌else◌,
  length, Bool-cases, eq_of_test, ne_of_test, test_of_ne, ==_iff, ◌^◌,
}
use leka.Base.Outcome.{Outcome, ok, throws, fault, out_of_fuel, ◌>>=◌}
use leka.Types.{OrderId}
use leka.Order.{Ptr, Order, null}
use leka.Memory.{Heap}
use leka.Index.{Index, empty_index, remove_order, find_order}
use leka.Index.Add.{add_order}
use leka.Index.Table.{Represents, no_slots, find_order_lem}
use leka.Index.Insertion.{update_map}
use leka.Index.Adds.{add_order_cases}
use leka.Index.Removal.{remove_order-Represents, remove_order-throws}

pub data Call : Type 0 where
  add remove : Ptr → Call
  find : OrderId → Call

pub data Answer : Type 0 where
  done refused : Answer
  at_pointer : Ptr → Answer

-- A call of `addOrder` that throws may leave a larger table behind.
unfoldable pub answer_add : Outcome (Unit {0}) × Index → Outcome (Answer × Index)
answer_add (ok x, t) = ok (done, t)
answer_add (throws e, t) = ok (refused, t)
answer_add (fault, t) = fault
answer_add (out_of_fuel, t) = out_of_fuel

unfoldable pub answer_remove : Outcome Index → Index → Outcome (Answer × Index)
answer_remove (ok t') t = ok (done, t')
answer_remove (throws e) t = ok (refused, t)
answer_remove fault t = fault
answer_remove out_of_fuel t = out_of_fuel

module _ (hash : ℕ → ℕ) (h : Heap) where
  unfoldable pub answer : Call → Index → Outcome (Answer × Index)
  answer (add p) t = answer_add (add_order hash p h t)
  answer (remove p) t = answer_remove (remove_order hash p h t) t
  answer (find id) t = do p ← find_order hash id t; ok (at_pointer p, t)

  unfoldable pub answers : List Call → Index → Outcome (List Answer)
  answers [] t = ok []
  answers (c ∷ calls) t = do (a, t') ← answer c t; rest ← answers calls t'; ok (a ∷ rest)

-- What the map answers, where `m` gives each id the pointer of its order, or null.
module _ (h : Heap) where
  unfoldable pub map_answer : Call → (OrderId → Ptr) → Answer × (OrderId → Ptr)
  map_answer (add p) m = elim (h p) [
    | none ↦ (refused, m)
    | some o ↦ (if m o.order_id == null then (done, update_map m o.order_id p) else (refused, m))
  ]
  map_answer (remove p) m = elim (h p) [
    | none ↦ (refused, m)
    | some o ↦ (if m o.order_id == p then (done, update_map m o.order_id null) else (refused, m))
  ]
  map_answer (find id) m = (at_pointer (m id), m)

  unfoldable pub map_answers : List Call → (OrderId → Ptr) → List Answer
  map_answers [] m = []
  map_answers (c ∷ calls) m = (map_answer c m).0 ∷ map_answers calls (map_answer c m).1

  -- The pointer of a call is that of an order.
  abbrev pub IsCall : Call → Type 0
  IsCall (add p) = (p ≢ null) × (o : Order) × (h p ≡ some o)
  IsCall (remove p) = (p ≢ null) × (o : Order) × (h p ≡ some o)
  IsCall (find id) = Unit {0}

  abbrev pub AreCalls : List Call → Type 0
  AreCalls [] = Unit {0}
  AreCalls (c ∷ calls) = IsCall c × AreCalls calls

module _ (hash : ℕ → ℕ) (h : Heap) where
  answer_lem :
      (c : Call) (t : Index) (m : OrderId → Ptr)
      → IsCall h c
      → Represents hash t m
      → t.count < 2 ^ 53
      → (t' : Index) × (answer hash h c t ≡ ok ((map_answer h c m).0, t'))
        × Represents hash t' (map_answer h c m).1
        × (t'.count ≤ t.count + 1)
  unfolding answer map_answer answer_add answer_remove
  answer_lem (add p) t m (ne, o, e) rep room = elim (add_order_cases hash t m p h o rep e ne room) [
    | inl (new, t', run, rep', n) ↦
        rw (answer, map_answer, e, run, (==_iff (m o.order_id) null).1 new)
          (t', refl, rep', omega (arith, n))
    | inr (old, t', run, rep', n) ↦
        rw (answer, map_answer, e, run, test_of_ne (m o.order_id) null old)
          (t', refl, rep', omega (arith, n))
  ]
  answer_lem (remove p) t m (ne, o, e) rep room = elim (Bool-cases (m o.order_id == p)) [
    | inl q ↦
        let (t', run, rep', n) =
          remove_order-Represents hash t m p h o rep e ne (eq_of_test (m o.order_id) p q)
            (omega arith) in
        rw (answer, map_answer, e, run, q) (t', refl, rep', omega (arith, n))
    | inr q ↦
        rw
          (
            answer,
            map_answer,
            e,
            remove_order-throws hash t m p h o rep e ne (ne_of_test (m o.order_id) p q),
            q,
          )
          (t, refl, rep, omega arith)
  ]
  answer_lem (find id) t m call rep room =
      rw (answer, map_answer, find_order_lem hash t m id rep) (t, refl, rep, omega arith)

  answers_lem :
      (calls : List Call) (t : Index) (m : OrderId → Ptr)
      → AreCalls h calls
      → Represents hash t m
      → t.count + length calls ≤ 2 ^ 53
      → answers hash h calls t ≡ ok (map_answers h calls m)
  unfolding answers map_answers
  answers_lem [] t m valid rep room = refl
  answers_lem (c ∷ calls) t m (valid, others) rep room =
      let (t', run, rep', n) = answer_lem c t m valid rep (omega arith) in
      rw (run, answers_lem calls t' (map_answer h c m).1 others rep' (omega arith)) refl

-- Any sequence of calls on a new index, additions, removals and lookups of orders in memory, is
-- answered like the map from identifiers to pointers: an order is added exactly if its identifier
-- is not in the map, removed exactly if its identifier maps to it, and a lookup answers what the
-- map holds, or null. This holds for every hash function, as long as there are at most 2^53
-- calls; no call faults and no probe runs out of rounds.
pub session_lem :
    (hash : ℕ → ℕ) (h : Heap) (calls : List Call)
    → AreCalls h calls
    → length calls ≤ 2 ^ 53
    → answers hash h calls empty_index ≡ ok (map_answers h calls (λ _. null))
session_lem hash h calls valid room =
    answers_lem hash h calls empty_index (λ _. null) valid (no_slots refl refl (λ q. refl))
      (omega arith)
