-- ===== src/Engine/Handling.antt =====
-- The handler of matching_engine.cpp on a book whose parts agree: they agree behind every event, and the
-- handler returns or throws.
use leka.Base.{
  ℕ, zero, ◌<◌, ◌^◌, ◌≡◌, sym, ap, subst, inl, inr, Bool, true, false, not, some, [], arith, length,
}
use leka.Base.Outcome.{Outcome, ok, throws, fault, out_of_fuel, invalid_argument}
use leka.Base.State.{Cmd, pure, and_then, throw_when, put_back}
use leka.Types.{OrderId, Quantity, order_id_is_valid}
use leka.Order.{Ptr}
use leka.Order.Event.{OrderEvent, new, cancel, reduce}
use leka.Pool.{System}
use leka.Book.Uncrossed.{IsUncrossed-alike, Leaves-IsUncrossed}
use leka.Book.{heap_of, cancel_order, reduce_order}
use leka.Book.Invariant.{Queues, IsBook}
use leka.Book.Removal.{cancel_order_cases}
use leka.Book.Reduction.{reduce_order_cases}
use leka.Engine.{Engine, match_order, process_event, dispatch, on_book}
use leka.Engine.Orders.{Returns, Sound, thrown, match_order-Sound}

module _ (hash : ℕ → ℕ) (system : System)
    (maps : (call a : ℕ) → system.mmap call ≡ some a → 0 < a) where
  -- A call whose answer is turned into another.
  Sound-then :
      {A : Type 0} (e : Engine) (r : Outcome A × Engine) (f : A → Engine → ℕ)
      → Sound hash e.book r
      → Sound hash e.book (and_then r (λ a s. (ok (f a s), s)))
  Sound-then e (ok a, s) f w = record {
    queues = w.queues;
    map = w.map;
    book = w.book;
    more = w.more;
    uncrossed = w.uncrossed;
    returns = tt;
  }
  Sound-then e (throws x, s) f w = record {
    queues = w.queues;
    map = w.map;
    book = w.book;
    more = w.more;
    uncrossed = w.uncrossed;
    returns = tt;
  }
  Sound-then e (fault, s) f w = absurd w.returns
  Sound-then e (out_of_fuel, s) f w = absurd w.returns

  cancel_order-Sound :
      (id : OrderId) (e : Engine) (q : Queues) (m : OrderId → Ptr)
      → IsBook hash e.book q m
      → Sound hash e.book (on_book (cancel_order hash id) e)
  cancel_order-Sound id e q m v = elim (cancel_order_cases hash e.book q m id v) [
    | inl (_, run) ↦
        subst (λ r. Sound hash e.book (put_back (λ b s. record s { book = b }) e r)) (sym run)
          (record {
            queues = q;
            map = m;
            book = v;
            more = omega arith;
            uncrossed = λ u. u;
            returns = tt;
          })
    | inr (o, _, _, b', q', run, leaves) ↦
        subst (λ r. Sound hash e.book (put_back (λ b s. record s { book = b }) e r)) (sym run)
          (record {
            queues = q';
            map = _;
            book = leaves.book;
            more = omega (arith, leaves.count);
            uncrossed = Leaves-IsUncrossed leaves;
            returns = tt;
          })
  ]

  reduce_order-Sound :
      (id : OrderId) (target : Quantity) (e : Engine) (q : Queues) (m : OrderId → Ptr)
      → IsBook hash e.book q m
      → Sound hash e.book (on_book (reduce_order hash id target) e)
  reduce_order-Sound id target e q m v =
      let same : (r : Outcome Bool) → Returns r → Sound hash e.book (r, e) = λ r d. record {
        queues = q;
        map = m;
        book = v;
        more = omega arith;
        uncrossed = λ u. u;
        returns = d;
      } in
      elim (reduce_order_cases hash e.book q m id target v) [
        | inl (_, run) ↦
            subst (λ r. Sound hash e.book (put_back (λ b s. record s { book = b }) e r)) (sym run)
              (same (ok false) tt)
        | inr (o, _, _, inl (_, run)) ↦
            subst (λ r. Sound hash e.book (put_back (λ b s. record s { book = b }) e r)) (sym run)
              (same (throws invalid_argument) tt)
        | inr (o, _, _, inr (inl (_, run))) ↦
            subst (λ r. Sound hash e.book (put_back (λ b s. record s { book = b }) e r)) (sym run)
              (same (ok true) tt)
        | inr (o, _, _, inr (inr (_, _, b', run, shrinks))) ↦
            subst (λ r. Sound hash e.book (put_back (λ b s. record s { book = b }) e r)) (sym run)
              (record {
                queues = q;
                map = m;
                book = shrinks.book;
                more = omega (arith, ap (λ x. x.index.count) shrinks.now);
                uncrossed = IsUncrossed-alike (heap_of e.book) (heap_of b') shrinks.alike;
                returns = tt;
              })
      ]

  checked-Sound :
      (bad : Bool) (m : Cmd Engine Bool) (e : Engine) (q : Queues) (map : OrderId → Ptr)
      → IsBook hash e.book q map
      → Sound hash e.book (m e)
      → Sound {A = ℕ} hash e.book
          (and_then (throw_when bad invalid_argument e) (λ _ s. and_then (m s) (λ _. pure zero)))
  checked-Sound true m e q map v w = thrown hash system maps invalid_argument e q map v
  checked-Sound false m e q map v w = Sound-then e (m e) (λ _ _. zero) w

  -- If the parts of the engine's book agree, with fewer than 2^53 orders, and the system maps no
  -- page at address 0, then every event returns or throws, and behind it the parts agree again:
  -- ladders with exact marks, queues, index, pool and memory hold the same valid orders. There is
  -- at most one order more, and a book in which no buyer's price reaches a seller's stays so.
  pub process_event-Sound :
      (event : OrderEvent) (e : Engine) (q : Queues) (m : OrderId → Ptr)
      → IsBook hash e.book q m
      → e.book.index.count < 2 ^ 53
      → Sound hash e.book (process_event hash system event e)
  unfolding process_event dispatch
  process_event-Sound (new o) e q m v small =
      Sound-then (record e { out = [] })
        (match_order hash system o.order_id o.price o.quantity o.timestamp o.order_side o.order_type
          (record e { out = [] }))
        (λ _ s. length s.out)
        (match_order-Sound hash system maps o.order_id o.price o.quantity o.timestamp o.order_side
          o.order_type (record e { out = [] }) q m v small)
  process_event-Sound (cancel c) e q m v small =
      checked-Sound (not (order_id_is_valid c.order_id)) (on_book (cancel_order hash c.order_id))
        (record e { out = [] }) q m v (cancel_order-Sound c.order_id (record e { out = [] }) q m v)
  process_event-Sound (reduce c) e q m v small =
      checked-Sound (not (order_id_is_valid c.order_id))
        (on_book (reduce_order hash c.order_id c.new_quantity)) (record e { out = [] }) q m v
        (reduce_order-Sound c.order_id c.new_quantity (record e { out = [] }) q m v)
