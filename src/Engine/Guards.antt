-- ===== src/Engine/Guards.antt =====
-- What the handler of matching_engine.cpp refuses before it looks at the book.
use leka.Base.{
  ℕ, ◌<◌, ◌≡◌, refl, ◌⊎◌, inl, inr, true, false, [], arith, not, ◌||◌, ◌==◌, Bool-cases, eq_of_test,
}
use leka.Base.Outcome.{throws, invalid_argument}
use leka.Types.{OrderId, Price, Quantity, Timestamp, OrderType, limit, market}
use leka.Order.Event.{OrderEvent, new, cancel, reduce}
use leka.Pool.{System}
use leka.Engine.{Engine, check_incoming, match_order, process_event, dispatch}

-- A limit order has a price, and a market order has none.
abbrev pub IsPriced : OrderType → Price → Type 0
IsPriced limit price = 0 < price
IsPriced market price = price ≡ 0

-- An event that the engine may look up in the book.
abbrev pub IsProper : OrderEvent → Type 0
IsProper (new o) =
    (0 < o.order_id) × (0 < o.quantity) × (0 < o.timestamp) × IsPriced o.order_type o.price
IsProper (cancel c) = 0 < c.order_id
IsProper (reduce c) = 0 < c.order_id

nonzero : (x : ℕ) → (x == 0) ≡ false → 0 < x
nonzero x h = ground arith

-- The part of the check that both types of order share.
improper_cases :
    (id quantity timestamp : ℕ)
    → ((not (not (id == 0)) || not (not (quantity == 0)) || not (not (timestamp == 0))) ≡ true)
      ⊎ (((not (not (id == 0)) || not (not (quantity == 0)) || not (not (timestamp == 0))) ≡ false)
          × (0 < id)
          × (0 < quantity)
          × (0 < timestamp))
improper_cases id quantity timestamp = elim (Bool-cases (id == 0)) [
  | inl i ↦ inl (rw i refl)
  | inr i ↦ elim (Bool-cases (quantity == 0)) [
    | inl q ↦ inl (rw (i, q) refl)
    | inr q ↦ elim (Bool-cases (timestamp == 0)) [
      | inl t ↦ inl (rw (i, q, t) refl)
      | inr t ↦ inr (rw (i, q, t) refl, nonzero id i, nonzero quantity q, nonzero timestamp t)
    ]
  ]
]

check_incoming_refuses :
    (id : OrderId) (price : Price) (quantity : Quantity) (timestamp : Timestamp) (type : OrderType)
    (e : Engine)
    → ¬ ((0 < id) × (0 < quantity) × (0 < timestamp) × IsPriced type price)
    → check_incoming id price quantity timestamp type e ≡ (throws invalid_argument, e)
unfolding check_incoming
check_incoming_refuses id price quantity timestamp limit e bad =
    elim (improper_cases id quantity timestamp) [
      | inl b ↦ rw (b, check_incoming) refl
      | inr (g, i, q, t) ↦ elim (Bool-cases (price == 0)) [
        | inl p ↦ rw (g, p, check_incoming) refl
        | inr p ↦ absurd (bad (i, q, t, nonzero price p))
      ]
    ]
check_incoming_refuses id price quantity timestamp market e bad =
    elim (improper_cases id quantity timestamp) [
      | inl b ↦ rw (b, check_incoming) refl
      | inr (g, i, q, t) ↦ elim (Bool-cases (price == 0)) [
        | inl p ↦ absurd (bad (i, q, t, eq_of_test price 0 p))
        | inr p ↦ rw (g, p, check_incoming) refl
      ]
    ]

zero_of : (x : ℕ) → ¬ (0 < x) → (x == 0) ≡ true
zero_of x h = ground arith

module _ (hash : ℕ → ℕ) (system : System) where
  -- An event without an order id, a new order without a quantity or a timestamp, a limit order
  -- without a price and a market order with one are refused: the handler throws invalid_argument,
  -- and of the engine only the buffer of executions has changed, which is cleared.
  pub process_event_refuses :
      (event : OrderEvent) (e : Engine)
      → ¬ IsProper event
      → process_event hash system event e ≡ (throws invalid_argument, record e { out = [] })
  unfolding process_event dispatch match_order
  process_event_refuses (new o) e bad =
      rw
        (
          check_incoming_refuses o.order_id o.price o.quantity o.timestamp o.order_type
              (record e { out = [] }) bad,
          match_order,
        )
        refl
  process_event_refuses (cancel c) e bad = rw (zero_of c.order_id bad, dispatch) refl
  process_event_refuses (reduce c) e bad = rw (zero_of c.order_id bad, dispatch) refl
