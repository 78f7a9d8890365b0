-- ===== src/Engine/Accounting.antt =====
-- The accounts of the matching loop of matching_engine.cpp: what its executions report, and what is
-- left of the incoming order.
use leka.Base.{
  ℕ, zero, suc, ◌+◌, ◌-◌, ◌≤◌, ◌≡◌, refl, sym, ap, ◌∙◌, inl, inr, Bool, true, false, Option, none,
  some, List, [], ◌∷◌, ◌++◌, arith, ◌==◌, min, Bool-cases,
}
use mathlib.Core.List.{append-nil, append_assoc}
use leka.Base.Outcome.{Outcome, ok, throws, fault, out_of_fuel, Exception, logic_error}
use leka.Base.State.{Cmd, and_then, throw_when}
use leka.Types.{OrderId, Price, OrderSide, OrderType}
use leka.Order.{null, LevelRef, Order}
use leka.Level.{Level}
use leka.Book.{Book, read_order}
use leka.Engine.{
  Engine, Execution, on_book, best_opposing, stops_at, settle_fill, execute, match_best, match_loop,
}

-- The quantity that a list of executions reports.
unfoldable pub executed : List Execution → ℕ
executed [] = 0
executed (x ∷ xs) = x.execution_quantity + executed xs

pub executed-append : (xs ys : List Execution) → executed (xs ++ ys) ≡ executed xs + executed ys
unfolding executed
executed-append [] ys = omega arith
executed-append (x ∷ xs) ys = omega (arith, executed-append xs ys)

-- Every execution names the incoming order.
abbrev pub AllFor : OrderId → List Execution → Type 0
AllFor id [] = Unit {0}
AllFor id (x ∷ xs) = (x.incoming_order_id ≡ id) × AllFor id xs

AllFor-append :
    (id : OrderId) (xs ys : List Execution) → AllFor id xs → AllFor id ys → AllFor id (xs ++ ys)
AllFor-append id [] ys a b = b
AllFor-append id (x ∷ xs) ys a b = (a.0, AllFor-append id xs ys a.1 b)

-- The books of a run: with `left` returned nothing is lost, and no run executes too much.
abbrev pub Balances : (quantity done : ℕ) → Outcome ℕ → Type 0
Balances quantity done (ok left) = done + left ≡ quantity
Balances quantity done (throws e) = done ≤ quantity
Balances quantity done fault = done ≤ quantity
Balances quantity done out_of_fuel = done ≤ quantity

-- A run that started with the buffer `out` has added executions of the order `id` that balance.
pub record Accounted (id : OrderId) (quantity : ℕ) (out : List Execution) (r : Outcome ℕ × Engine)
    : Type 0 where
  pub added : List Execution
  pub appended : r.1.out ≡ out ++ added
  pub named : AllFor id added
  pub balance : Balances quantity (executed added) r.0

-- A run that adds nothing to the buffer, and leaves `left` if it returns.
abbrev Leaves : ℕ → Outcome ℕ → Type 0
Leaves left (ok k) = k ≡ left
Leaves left _ = Unit {0}

record Quiet (out : List Execution) (left : ℕ) (r : Outcome ℕ × Engine) : Type 0 where
  same : r.1.out ≡ out
  leaves : Leaves left r.0

Quiet-next :
    {A : Type 0} {out : List Execution} {left : ℕ} (r : Outcome A × Engine) (f : A → Cmd Engine ℕ)
    → r.1.out ≡ out
    → ((a : A) (e : Engine) → e.out ≡ out → Quiet out left (f a e))
    → Quiet out left (and_then r f)
Quiet-next (ok a, e) f q k = k a e q
Quiet-next (throws x, e) f q k = record { same = q; leaves = tt }
Quiet-next (fault, e) f q k = record { same = q; leaves = tt }
Quiet-next (out_of_fuel, e) f q k = record { same = q; leaves = tt }

nothing_added :
    {id : OrderId} {n : ℕ} {out : List Execution} (r : Outcome ℕ) (e : Engine)
    → e.out ≡ out
    → Balances n (executed []) r
    → Accounted id n out (r, e)
nothing_added {out} r e q b = record {
  added = [];
  appended = q ∙ sym (append-nil out);
  named = tt;
  balance = b;
}

-- A step that adds nothing, in front of an accounted run.
unchanged_next :
    {A : Type 0} {id : OrderId} {n : ℕ} {out : List Execution} (r : Outcome A × Engine)
    (f : A → Cmd Engine ℕ)
    → r.1.out ≡ out
    → ((a : A) (e : Engine) → e.out ≡ out → Accounted id n out (f a e))
    → Accounted id n out (and_then r f)
unfolding executed
unchanged_next (ok a, e) f q k = k a e q
unchanged_next {out} (throws x, e) f q k = nothing_added (throws x) e q (omega arith)
unchanged_next {out} (fault, e) f q k = nothing_added fault e q (omega arith)
unchanged_next {out} (out_of_fuel, e) f q k = nothing_added out_of_fuel e q (omega arith)

emitted_balance :
    {n : ℕ} (x : Execution) (r : Outcome ℕ)
    → x.execution_quantity ≤ n
    → Leaves (n - x.execution_quantity) r
    → Balances n (executed (x ∷ [])) r
unfolding executed
emitted_balance x (ok left) h l = omega arith
emitted_balance x (throws e) h l = omega arith
emitted_balance x fault h l = omega arith
emitted_balance x out_of_fuel h l = omega arith

-- One execution, followed by steps that add none.
emitted :
    {id : OrderId} {n : ℕ} {out : List Execution} (x : Execution)
    → x.incoming_order_id ≡ id
    → x.execution_quantity ≤ n
    → (r : Outcome ℕ × Engine) → Quiet (out ++ x ∷ []) (n - x.execution_quantity) r
    → Accounted id n out r
emitted x i h (r, e) q = record {
  added = x ∷ [];
  appended = q.same;
  named = (i, tt);
  balance = emitted_balance x r h q.leaves;
}

pub throw_when-out : (b : Bool) (x : Exception) (e : Engine) → (throw_when b x e).1.out ≡ e.out
throw_when-out true x e = refl
throw_when-out false x e = refl

on_book-out : {A : Type 0} (m : Cmd Book A) (e : Engine) → (on_book m e).1.out ≡ e.out
on_book-out m e = refl

chained :
    (n left : ℕ) (r : Outcome ℕ) (xs ys : List Execution)
    → executed xs + left ≡ n
    → Balances left (executed ys) r
    → Balances n (executed (xs ++ ys)) r
chained n left (ok k) xs ys a b = omega (arith, executed-append xs ys)
chained n left (throws e) xs ys a b = omega (arith, executed-append xs ys)
chained n left fault xs ys a b = omega (arith, executed-append xs ys)
chained n left out_of_fuel xs ys a b = omega (arith, executed-append xs ys)

-- One accounted run behind another.
Accounted-next :
    {id : OrderId} {n : ℕ} {out : List Execution} (r : Outcome ℕ × Engine) (f : ℕ → Cmd Engine ℕ)
    → Accounted id n out r
    → ((left : ℕ) (e : Engine) → Accounted id left e.out (f left e))
    → Accounted id n out (and_then r f)
Accounted-next {id} {n} {out} (ok left, e) f a k =
    let b = k left e in
    record {
      added = a.added ++ b.added;
      appended =
          b.appended ∙ ap (λ xs. xs ++ b.added) a.appended ∙ append_assoc out a.added b.added;
      named = AllFor-append id a.added b.added a.named b.named;
      balance = chained n left (f left e).0 a.added b.added a.balance b.balance;
    }
Accounted-next (throws x, e) f a k = record {
  added = a.added;
  appended = a.appended;
  named = a.named;
  balance = a.balance;
}
Accounted-next (fault, e) f a k = record {
  added = a.added;
  appended = a.appended;
  named = a.named;
  balance = a.balance;
}
Accounted-next (out_of_fuel, e) f a k = record {
  added = a.added;
  appended = a.appended;
  named = a.named;
  balance = a.balance;
}

module _ (hash : ℕ → ℕ) (id : OrderId) where
  abbrev report : Order → ℕ → Execution
  report o remaining = record {
    incoming_order_id = id;
    resting_order_id = o.order_id;
    execution_price = o.price;
    execution_quantity = min remaining o.remaining_quantity;
  }

  execute-Accounted :
      (r : LevelRef) (level : Level) (remaining : ℕ) (e : Engine)
      → Accounted id remaining e.out (execute hash id r level remaining e)
  unfolding execute
  execute-Accounted r level remaining e =
      unchanged_next (throw_when (level.head_order == null) logic_error e) _
        (throw_when-out (level.head_order == null) logic_error e)
        (λ _ e1 q1. unchanged_next (on_book (read_order level.head_order) e1) _ q1 (λ o e2 q2.
          emitted (report o remaining) refl (omega arith) _ (
            Quiet-next
              (on_book (settle_fill hash r level.head_order o (min remaining o.remaining_quantity))
                (record e2 { out = e2.out ++ report o remaining ∷ [] }))
              _ (ap (λ xs. xs ++ report o remaining ∷ []) q2)
              (λ _ e3 q3. record { same = q3; leaves = refl }))))

  -- A run from a buffer, transported along an equation of buffers.
  moved :
      {n : ℕ} {out out' : List Execution} {r : Outcome ℕ × Engine}
      → out' ≡ out
      → Accounted id n out' r
      → Accounted id n out r
  moved q a = record {
    added = a.added;
    appended = a.appended ∙ ap (λ xs. xs ++ a.added) q;
    named = a.named;
    balance = a.balance;
  }

  match_best-Accounted :
      (price : Price) (side : OrderSide) (type : OrderType) (remaining : ℕ)
      (rest : ℕ → Cmd Engine ℕ) (found : Option (LevelRef × Level)) (e : Engine)
      → ((left : ℕ) (e' : Engine) → Accounted id left e'.out (rest left e'))
      → Accounted id remaining e.out (match_best hash id price side type remaining rest found e)
  unfolding match_best executed
  match_best-Accounted price side type remaining rest none e k =
      nothing_added (ok remaining) e refl (omega arith)
  match_best-Accounted price side type remaining rest (some (r, level)) e k =
      elim (Bool-cases (stops_at side type price level.price)) [
        | inl s ↦ rw s (nothing_added (ok remaining) e refl (omega arith))
        | inr s ↦ rw s (
            Accounted-next (execute hash id r level remaining e) rest
              (execute-Accounted r level remaining e) k)
      ]

  -- The matching loop accounts for the whole quantity, whatever the state: it only appends to the
  -- buffer of executions, each of them names the incoming order, and the quantities they report,
  -- with what the loop returns as left, add up to the quantity that it was given. If the loop
  -- stops in any other way, the executions so far do not add up to more than that quantity.
  pub match_loop-Accounted :
      (fuel : ℕ) (price : Price) (side : OrderSide) (type : OrderType) (remaining : ℕ) (e : Engine)
      → Accounted id remaining e.out (match_loop hash fuel id price side type remaining e)
  unfolding match_loop executed
  match_loop-Accounted zero price side type remaining e =
      nothing_added out_of_fuel e refl (omega arith)
  match_loop-Accounted (suc fuel) price side type remaining e = elim (Bool-cases (remaining == 0)) [
    | inl z ↦ rw (z, match_loop) (nothing_added (ok remaining) e refl (omega arith))
    | inr nz ↦
        rw (nz, match_loop)
          (unchanged_next (on_book (best_opposing side) e) _ refl (λ found e1 q1. moved q1 (
            match_best-Accounted price side type remaining _ found e1
              (λ left e2. match_loop-Accounted fuel price side type left e2))))
  ]
