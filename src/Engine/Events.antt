-- ===== src/Engine/Events.antt =====
-- What an event may execute: the handler of matching_engine.cpp around its matching loop.
use leka.Base.{
  ℕ, ◌≤◌, ◌≡◌, refl, sym, ap, ◌∙◌, Bool, true, false, List, [], ◌++◌, arith, ◌==◌, not, ◌&&◌, ◌||◌,
}
use mathlib.Core.List.{append-nil}
use leka.Base.Outcome.{
  Outcome, ok, throws, fault, out_of_fuel, Exception, invalid_argument, logic_error,
}
use leka.Base.State.{Cmd, lift, pure, when, and_then, throw_when}
use leka.Types.{
  OrderId, Price, Quantity, Timestamp, SequenceNumber, OrderSide, limit, OrderType, is_limit_type,
  order_id_is_valid, price_is_valid, quantity_is_valid, timestamp_is_valid,
}
use leka.Order.{null}
use leka.Order.Event.{OrderEvent, new, cancel, reduce}
use leka.Order.IdGenerator.{generate_sequence_number}
use leka.Pool.{System}
use leka.Book.{find, cancel_order, reduce_order}
use leka.Book.Add.{add_resting_remainder}
use leka.Engine.{
  Engine, Execution, on_book, check_incoming, next_sequence, match_loop, match_fuel, rest_remainder,
  match_order, process_event, dispatch,
}
use leka.Engine.Accounting.{
  executed, AllFor, Balances, Accounted, match_loop-Accounted, throw_when-out,
}

-- The order that an event is about, and the quantity that it may execute.
abbrev pub subject : OrderEvent → OrderId
subject (new o) = o.order_id
subject (cancel c) = c.order_id
subject (reduce c) = c.order_id

abbrev pub volume : OrderEvent → Quantity
volume (new o) = o.quantity
volume (cancel c) = 0
volume (reduce c) = 0

-- A run that started with the buffer `out` has added executions of the order `id`, for `n` at most.
pub record Within {A : Type 0} (id : OrderId) (n : ℕ) (out : List Execution)
    (r : Outcome A × Engine) : Type 0 where
  pub added : List Execution
  pub appended : r.1.out ≡ out ++ added
  pub named : AllFor id added
  pub bound : executed added ≤ n

Kept : {A : Type 0} → List Execution → Outcome A × Engine → Type 0
Kept out r = r.1.out ≡ out

kept_next :
    {A B : Type 0} {out : List Execution} (r : Outcome A × Engine) (f : A → Cmd Engine B)
    → r.1.out ≡ out
    → ((a : A) (e : Engine) → e.out ≡ out → (f a e).1.out ≡ out)
    → (and_then r f).1.out ≡ out
kept_next (ok a, e) f q k = k a e q
kept_next (throws x, e) f q k = q
kept_next (fault, e) f q k = q
kept_next (out_of_fuel, e) f q k = q

kept-Within :
    {A : Type 0} {id : OrderId} {n : ℕ} {out : List Execution} (r : Outcome A × Engine)
    → r.1.out ≡ out
    → Within id n out r
unfolding executed
kept-Within {out} r q = record {
  added = [];
  appended = q ∙ sym (append-nil out);
  named = tt;
  bound = omega arith;
}

unchanged-Within :
    {A B : Type 0} {id : OrderId} {n : ℕ} {out : List Execution} (r : Outcome A × Engine)
    (f : A → Cmd Engine B)
    → r.1.out ≡ out
    → ((a : A) (e : Engine) → e.out ≡ out → Within id n out (f a e))
    → Within id n out (and_then r f)
unchanged-Within (ok a, e) f q k = k a e q
unchanged-Within (throws x, e) f q k = kept-Within (throws x, e) q
unchanged-Within (fault, e) f q k = kept-Within (fault, e) q
unchanged-Within (out_of_fuel, e) f q k = kept-Within (out_of_fuel, e) q

Within-next :
    {A B : Type 0} {id : OrderId} {n : ℕ} {out : List Execution} (r : Outcome A × Engine)
    (f : A → Cmd Engine B)
    → Within id n out r
    → ((a : A) (e : Engine) → (f a e).1.out ≡ e.out)
    → Within id n out (and_then r f)
Within-next (ok a, e) f w k = record {
  added = w.added;
  appended = k a e ∙ w.appended;
  named = w.named;
  bound = w.bound;
}
Within-next (throws x, e) f w k = record {
  added = w.added;
  appended = w.appended;
  named = w.named;
  bound = w.bound;
}
Within-next (fault, e) f w k = record {
  added = w.added;
  appended = w.appended;
  named = w.named;
  bound = w.bound;
}
Within-next (out_of_fuel, e) f w k = record {
  added = w.added;
  appended = w.appended;
  named = w.named;
  bound = w.bound;
}

Balances-bound : (n done : ℕ) (r : Outcome ℕ) → Balances n done r → done ≤ n
Balances-bound n done (ok left) b = omega arith
Balances-bound n done (throws e) b = b
Balances-bound n done fault b = b
Balances-bound n done out_of_fuel b = b

-- An accounted run, with steps behind it that leave the buffer as it is.
Accounted-Within :
    {A : Type 0} {id : OrderId} {n : ℕ} {out out' : List Execution} (r : Outcome ℕ × Engine)
    (f : ℕ → Cmd Engine A)
    → out' ≡ out
    → Accounted id n out' r
    → ((left : ℕ) (e : Engine) → (f left e).1.out ≡ e.out)
    → Within id n out (and_then r f)
Accounted-Within {n} (ok left, e) f q a k = record {
  added = a.added;
  appended = k left e ∙ a.appended ∙ ap (λ xs. xs ++ a.added) q;
  named = a.named;
  bound = Balances-bound n (executed a.added) (ok left) a.balance;
}
Accounted-Within (throws x, e) f q a k = record {
  added = a.added;
  appended = a.appended ∙ ap (λ xs. xs ++ a.added) q;
  named = a.named;
  bound = a.balance;
}
Accounted-Within (fault, e) f q a k = record {
  added = a.added;
  appended = a.appended ∙ ap (λ xs. xs ++ a.added) q;
  named = a.named;
  bound = a.balance;
}
Accounted-Within (out_of_fuel, e) f q a k = record {
  added = a.added;
  appended = a.appended ∙ ap (λ xs. xs ++ a.added) q;
  named = a.named;
  bound = a.balance;
}

checked-out :
    {B : Type 0} (b : Bool) (x : Exception) (m : Cmd Engine B) (e : Engine)
    → (m e).1.out ≡ e.out
    → (and_then (throw_when b x e) (λ _. m)).1.out ≡ e.out
checked-out true x m e q = refl
checked-out false x m e q = q

checked-Within :
    {B : Type 0} {id : OrderId} {n : ℕ} {out : List Execution} (b : Bool) (x : Exception)
    (m : Cmd Engine B) (e : Engine)
    → e.out ≡ out
    → Within id n out (m e)
    → Within id n out (and_then (throw_when b x e) (λ _. m))
checked-Within true x m e q w = kept-Within (throws x, e) q
checked-Within false x m e q w = w

check_incoming-out :
    (id : OrderId) (price : Price) (quantity : Quantity) (timestamp : Timestamp) (type : OrderType)
    (e : Engine)
    → (check_incoming id price quantity timestamp type e).1.out ≡ e.out
unfolding check_incoming
check_incoming-out id price quantity timestamp type e =
    checked-out
      (not (order_id_is_valid id)
        || not (quantity_is_valid quantity)
        || not (timestamp_is_valid timestamp))
      invalid_argument _ e
      (checked-out (is_limit_type type && not (price_is_valid price)) invalid_argument
        (throw_when (not (is_limit_type type) && price_is_valid price) invalid_argument) e
        (throw_when-out (not (is_limit_type type) && price_is_valid price) invalid_argument e))

next_sequence-out : (e : Engine) → (next_sequence e).1.out ≡ e.out
unfolding next_sequence
next_sequence-out e =
    kept_next (lift (generate_sequence_number e.generator) e) _ refl (λ x e1 q1. q1)

when-out :
    (b : Bool) (m : Cmd Engine (Unit {0})) (e : Engine)
    → (m e).1.out ≡ e.out
    → (when b m e).1.out ≡ e.out
when-out true m e q = q
when-out false m e q = refl

module _ (hash : ℕ → ℕ) (system : System) where
  rest_remainder-out :
      (id : OrderId) (price : Price) (quantity : Quantity) (timestamp : Timestamp)
      (side : OrderSide) (type : OrderType) (sequence : SequenceNumber) (remaining : ℕ) (e : Engine)
      → (rest_remainder hash system id price quantity timestamp side type sequence remaining
          e).1.out
        ≡ e.out
  unfolding rest_remainder
  rest_remainder-out id price quantity timestamp side type sequence remaining e =
      when-out (not (remaining == 0) && is_limit_type type) _ e (
        kept_next
          (on_book
            (add_resting_remainder hash system id price quantity remaining timestamp side limit
              sequence)
            e)
          (λ _. pure tt) refl (λ _ e' q. q))

  match_order-Within :
      (id : OrderId) (price : Price) (quantity : Quantity) (timestamp : Timestamp)
      (side : OrderSide) (type : OrderType) (e : Engine)
      → Within id quantity e.out (match_order hash system id price quantity timestamp side type e)
  unfolding match_order
  match_order-Within id price quantity timestamp side type e =
      unchanged-Within (check_incoming id price quantity timestamp type e) _
        (check_incoming-out id price quantity timestamp type e)
        (λ _ e1 q1. unchanged-Within (on_book (find hash id) e1) _ q1 (λ p e2 q2.
          checked-Within (not (p == null)) logic_error _ e2 q2 (
            unchanged-Within (next_sequence e2) _ (next_sequence-out e2 ∙ q2) (λ sequence e3 q3.
              Accounted-Within
                (match_loop hash (match_fuel hash system e3) id price side type quantity e3) _ q3
                (match_loop-Accounted hash id (match_fuel hash system e3) price side type quantity
                  e3)
                (λ left e4.
                  rest_remainder-out id price quantity timestamp side type sequence left e4)))))

  -- Handling an event, the buffer of executions is cleared first, and then holds only executions
  -- that name the event's order; their quantities add up to at most the quantity of a new order,
  -- and to nothing for a cancellation or a reduction. This holds for every state, and also where
  -- the handler throws.
  pub process_event-Within :
      (event : OrderEvent) (e : Engine)
      → Within (subject event) (volume event) [] (process_event hash system event e)
  unfolding process_event dispatch
  process_event-Within (new o) e =
      Within-next
        (match_order hash system o.order_id o.price o.quantity o.timestamp o.order_side o.order_type
          (record e { out = [] }))
        _
        (match_order-Within o.order_id o.price o.quantity o.timestamp o.order_side o.order_type
          (record e { out = [] }))
        (λ _ e'. refl)
  process_event-Within (cancel c) e =
      checked-Within (not (order_id_is_valid c.order_id)) invalid_argument _ (record e { out = [] })
        refl
        (unchanged-Within (on_book (cancel_order hash c.order_id) (record e { out = [] })) _ refl
          (λ _ e2 q2. kept-Within (ok 0, e2) q2))
  process_event-Within (reduce c) e =
      checked-Within (not (order_id_is_valid c.order_id)) invalid_argument _ (record e { out = [] })
        refl
        (unchanged-Within
          (on_book (reduce_order hash c.order_id c.new_quantity) (record e { out = [] })) _ refl
          (λ _ e2 q2. kept-Within (ok 0, e2) q2))
