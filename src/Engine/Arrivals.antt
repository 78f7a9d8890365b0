-- ===== src/Engine/Arrivals.antt =====
-- A new order that passes the handler's checks, on a book whose parts agree: what it trades, and what
-- becomes of the rest of it.
use leka.Base.{
  ℕ, ◌<◌, ◌^◌, ◌≡◌, ◌≢◌, refl, sym, ap, ◌∙◌, subst, inl, inr, true, false, not, ◌&&◌, some, arith,
  ◌==◌, Bool-cases, test_of_ne, ==_iff,
}
use leka.Base.Outcome.{Outcome, ok, throws, Exception, overflow_error}
use leka.Base.State.{and_then}
use leka.Types.{
  OrderId, Price, Quantity, Timestamp, SequenceNumber, OrderSide, OrderType, limit, market,
  is_limit_type, u64_max, add_u64,
}
use leka.Order.{Ptr, null, make_order}
use leka.Order.IdGenerator.{generate_sequence_number}
use leka.Index.Table.{find_order_lem}
use leka.Pool.{System}
use leka.Book.{Book, find}
use leka.Book.Add.{add_resting_remainder}
use leka.Book.Invariant.{Queues, IsBook}
use leka.Book.Arrival.{Arrives}
use leka.Book.Rollback.{Unchanged}
use leka.Book.Linking.{Refused}
use leka.Book.Addition.{add_order_with_quantities_cases}
use leka.Engine.{
  Engine, check_incoming, next_sequence, match_fuel, match_loop, match_order, rest_remainder,
}
use leka.Engine.Guards.{IsPriced}
use leka.Engine.Steps.{Matched}
use leka.Engine.Matching.{match_loop-Matched}

-- The engine when the loop begins: the order has its sequence number.
abbrev pub numbered : Engine → Engine
numbered e = record e {
  generator = record { current_sequence = add_u64 e.generator.current_sequence 1 };
}

abbrev pub number : Engine → SequenceNumber
number e = add_u64 e.generator.current_sequence 1

next_sequence-ok :
    (e : Engine)
    → e.generator.current_sequence ≢ u64_max
    → next_sequence e ≡ (ok (number e), numbered e)
unfolding next_sequence generate_sequence_number
next_sequence-ok e ne = rw (test_of_ne e.generator.current_sequence u64_max ne) refl

pub next_sequence-throws :
    (e : Engine)
    → e.generator.current_sequence ≡ u64_max
    → next_sequence e ≡ (throws overflow_error, e)
unfolding next_sequence generate_sequence_number
next_sequence-throws e is_last = rw ((==_iff e.generator.current_sequence u64_max).1 is_last) refl

positive_test : (x : ℕ) → 0 < x → (x == 0) ≡ false
positive_test x pos = test_of_ne x 0 (omega arith)

check_incoming-ok :
    (id : OrderId) (price : Price) (quantity : Quantity) (timestamp : Timestamp) (type : OrderType)
    (e : Engine)
    → 0 < id
    → 0 < quantity
    → 0 < timestamp
    → IsPriced type price
    → check_incoming id price quantity timestamp type e ≡ (ok tt, e)
unfolding check_incoming
check_incoming-ok id price quantity timestamp limit e i n t priced =
    rw
      (
        positive_test id i,
        positive_test quantity n,
        positive_test timestamp t,
        positive_test price priced,
      )
      refl
check_incoming-ok id price quantity timestamp market e i n t priced =
    rw (positive_test id i, positive_test quantity n, positive_test timestamp t, priced) refl

module _ (hash : ℕ → ℕ) (system : System) (maps : (call a : ℕ) → system.mmap call ≡ some a → 0 < a)
    (id : OrderId) (price : Price) (quantity : Quantity) (timestamp : Timestamp) (side : OrderSide)
    (type : OrderType) where
  -- What becomes of what is left: nothing is, or a market order's rest is dropped; a limit order's rest
  -- is added to the book; or the addition is refused, and the trades stand.
  pub data Ends (e em : Engine) (left : ℕ) (queues : Queues) (map : OrderId → Ptr)
      (result : Outcome (Unit {0}) × Engine) : Type 0 where
    done :
        (not (left == 0) && is_limit_type type) ≡ false
        → result ≡ (ok tt, em)
        → Ends e em left queues map result
    rests :
        type ≡ limit
        → 0 < left
        → (p : Ptr) (b : Book) (q : Queues) → result ≡ (ok tt, record em { book = b })
        → Arrives hash em.book queues map
            (make_order id price quantity left timestamp side limit (number e))
            p
            b
            q
        → Ends e em left queues map result
    refused :
        type ≡ limit
        → 0 < left
        → (x : Exception) (b : Book) → result ≡ (throws x, record em { book = b })
        → Unchanged hash em.book queues map b
        → Refused em.book map (make_order id price quantity left timestamp side limit (number e)) x
        → Ends e em left queues map result

  is_limit : (type' : OrderType) → is_limit_type type' ≡ true → type' ≡ limit
  is_limit limit e = refl
  is_limit market e = absurd (ground arith)

  rest_remainder-Ends :
      (e em : Engine) (left : ℕ) (queues : Queues) (map : OrderId → Ptr)
      → IsBook hash em.book queues map
      → em.book.index.count < 2 ^ 53
      → Ends e em left queues map
          (rest_remainder hash system id price quantity timestamp side type (number e) left em)
  unfolding rest_remainder add_resting_remainder
  rest_remainder-Ends e em left queues map v small =
      elim (Bool-cases (not (left == 0) && is_limit_type type)) [
        | inr none_rests ↦ done none_rests (rw none_rests refl)
        | inl some_rests ↦
            elim (add_order_with_quantities_cases hash system em.book queues map id price quantity
              left timestamp side limit (number e) maps v small) [
                | inl (p, b, q, run, arrives) ↦
                    rests (is_limit type (ground (arith, some_rests))) (ground (arith, some_rests))
                      p b q (rw (some_rests, run) refl) arrives
                | inr (x, b, run, unchanged, why) ↦
                    refused (is_limit type (ground (arith, some_rests)))
                      (ground (arith, some_rests)) x b (rw (some_rests, run) refl) unchanged why
              ]
      ]

  match_order-checked :
      (e : Engine) (q : Queues) (m : OrderId → Ptr)
      → IsBook hash e.book q m
      → check_incoming id price quantity timestamp type e ≡ (ok tt, e)
      → m id ≡ null
      → e.generator.current_sequence ≢ u64_max
      → match_order hash system id price quantity timestamp side type e
        ≡ and_then
            (match_loop hash
              (match_fuel hash system (numbered e))
              id
              price
              side
              type
              quantity
              (numbered e))
            (rest_remainder hash system id price quantity timestamp side type (number e))
  unfolding match_order find
  match_order-checked e q m v checked fresh ne =
      rw (checked, find_order_lem hash e.book.index m id v.represents, fresh, next_sequence-ok e ne)
        refl

  pub match_order-Ends :
      (e : Engine) (q : Queues) (m : OrderId → Ptr)
      → IsBook hash e.book q m
      → e.book.index.count < 2 ^ 53
      → check_incoming id price quantity timestamp type e ≡ (ok tt, e)
      → m id ≡ null
      → e.generator.current_sequence ≢ u64_max
      → (left : ℕ) × (em : Engine) × (w : Matched hash
          (numbered e)
          q
          m
          id
          price
          side
          type
          quantity
          left
          em)
        × Ends e em left w.queues w.map
            (match_order hash system id price quantity timestamp side type e)
  match_order-Ends e q m v small checked fresh ne =
      let start = match_order-checked e q m v checked fresh ne in
      let (left, em, run, w) =
        match_loop-Matched hash id price side type (match_fuel hash system (numbered e)) quantity
          (numbered e) q m v (omega (arith, v.live)) in
      let ends =
        rest_remainder-Ends e em left w.queues w.map w.book (omega (arith, w.fewer, small)) in
      (
        left,
        em,
        w,
        subst (Ends e em left w.queues w.map)
            (sym (
              start
              ∙ ap
                  (λ r.
                    and_then r
                      (rest_remainder hash system id price quantity timestamp side type (number e)))
                  run))
            ends,
      )

  -- On a book whose parts agree, with fewer than 2^53 orders, a system that maps no page at
  -- address 0 and sequence numbers left, an order with an identifier that is not in the book, a
  -- quantity, a timestamp and, exactly if it is a limit order, a price trades what price and time
  -- priority say: the executions are those of the orders of the other side taken in line, best
  -- price first and at a price the oldest first, each as far as both have quantity, at the
  -- resting price, until the limit: none at a price above a buyer's limit or below a seller's.
  -- Then nothing is left, or a market order's rest is dropped; or the rest of a limit order joins
  -- the back of the queue of its price under its original quantity and sequence number; or its
  -- addition is refused for one of the listed reasons, and the trades stand. The book's parts
  -- agree before the rest is added and after it.
  pub match_order-Trades :
      (e : Engine) (q : Queues) (m : OrderId → Ptr)
      → IsBook hash e.book q m
      → e.book.index.count < 2 ^ 53
      → 0 < id
      → 0 < quantity
      → 0 < timestamp
      → IsPriced type price
      → m id ≡ null
      → e.generator.current_sequence ≢ u64_max
      → (left : ℕ) × (em : Engine) × (w : Matched hash
          (numbered e)
          q
          m
          id
          price
          side
          type
          quantity
          left
          em)
        × Ends e em left w.queues w.map
            (match_order hash system id price quantity timestamp side type e)
  match_order-Trades e q m v small i n t priced fresh ne =
      match_order-Ends e q m v small
        (check_incoming-ok id price quantity timestamp type e i n t priced) fresh ne
