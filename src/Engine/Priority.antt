-- ===== src/Engine/Priority.antt =====
-- Price and time priority, apart from the structures that keep it: the orders of a side in one line, and
-- what an incoming order trades with such a line.
use leka.Base.{
  Bool, not, leb, ℕ, zero, suc, ◌+◌, ◌-◌, ◌<◌, ◌≤◌, ◌≡◌, ◌≢◌, refl, sym, ap, ◌∙◌, inl, inr, true,
  false, ◌||◌, Option, none, some, List, [], ◌∷◌, ◌++◌, arith, ◌==◌, if◌then◌else◌, min, Bool-cases,
  eq_of_test, ne_of_test, ◌∈◌, has, has-append,
}
use leka.Types.{OrderId, Price, OrderSide, buy, sell, OrderType, limit, market}
use leka.Order.{Ptr, Order}
use leka.Memory.{Heap}
use leka.Level.Invariant.{view}
use leka.Book.{Book, ladder_of}
use leka.Book.Invariant.{Queues, queues_of}
use leka.Engine.{Execution}

-- The queues of `n` levels from `start` on, one behind the other.
unfoldable pub queue_line : (ℕ → List Ptr) → (start n : ℕ) → List Ptr
queue_line queues start zero = []
queue_line queues start (suc n) = queues start ++ queue_line queues (suc start) n

-- A side of the book in the order of its priority: best price first, at a price the oldest order first.
abbrev pub line : Book → Queues → OrderSide → List Ptr
line b q side = queue_line (queues_of side q) 0 (ladder_of side b).level_count

abbrev pub with_offer : Option Order → List Order → List Order
with_offer none os = os
with_offer (some o) os = o ∷ os

-- The orders at the listed addresses.
unfoldable pub offers : Heap → List Ptr → List Order
offers h [] = []
offers h (p ∷ ps) = with_offer (view h p) (offers h ps)

abbrev pub fill : OrderId → ℕ → Order → Execution
fill id remaining o = record {
  incoming_order_id = id;
  resting_order_id = o.order_id;
  execution_price = o.price;
  execution_quantity = min remaining o.remaining_quantity;
}

-- A market order accepts every price, a limit order to buy none above its limit, and one to sell none
-- below it.
abbrev pub accepts : OrderSide → OrderType → (limit_price price : Price) → Bool
accepts side market limit_price price = true
accepts buy limit limit_price price = leb price limit_price
accepts sell limit limit_price price = leb limit_price price

abbrev pub IsWithin : OrderSide → OrderType → (limit_price price : Price) → Type 0
IsWithin side market limit_price price = Unit {0}
IsWithin buy limit limit_price price = price ≤ limit_price
IsWithin sell limit limit_price price = limit_price ≤ price

accepts-IsWithin :
    (side : OrderSide) (type : OrderType) (limit_price price : Price)
    → accepts side type limit_price price ≡ true
    → IsWithin side type limit_price price
accepts-IsWithin side market limit_price price e = tt
accepts-IsWithin buy limit limit_price price e = ground arith
accepts-IsWithin sell limit limit_price price e = ground arith

-- No execution is at a price beyond the limit.
abbrev pub AllWithin : OrderSide → OrderType → Price → List Execution → Type 0
AllWithin side type limit_price [] = Unit {0}
AllWithin side type limit_price (x ∷ xs) =
    IsWithin side type limit_price x.execution_price × AllWithin side type limit_price xs

-- The executions of an incoming order against a line: with each order in turn as much as both have, at
-- the resting order's price, until nothing is left or the price is beyond the limit.
unfoldable pub trades : OrderId → Price → OrderSide → OrderType → ℕ → List Order → List Execution
trades id price side type remaining [] = []
trades id price side type remaining (o ∷ os) =
    let rest = trades id price side type (remaining - min remaining o.remaining_quantity) os in
    if remaining == 0 || not (accepts side type price o.price)
    then []
    else fill id remaining o ∷ rest

-- What is left of the incoming order behind them.
unfoldable pub untraded : Price → OrderSide → OrderType → ℕ → List Order → ℕ
untraded price side type remaining [] = remaining
untraded price side type remaining (o ∷ os) =
    let rest = untraded price side type (remaining - min remaining o.remaining_quantity) os in
    if remaining == 0 || not (accepts side type price o.price) then remaining else rest

pub trades-AllWithin :
    (id : OrderId) (price : Price) (side : OrderSide) (type : OrderType) (remaining : ℕ)
    (os : List Order)
    → AllWithin side type price (trades id price side type remaining os)
unfolding trades
trades-AllWithin id price side type remaining [] = tt
trades-AllWithin id price side type remaining (o ∷ os) =
    elim (Bool-cases (remaining == 0 || not (accepts side type price o.price))) [
      | inl stop ↦ rw stop tt
      | inr go ↦ rw go (
        accepts-IsWithin side type price o.price (ground (arith, go)),
        trades-AllWithin id price side type (remaining - min remaining o.remaining_quantity) os,
      )
    ]

queue_line_congr :
    (f g : ℕ → List Ptr) (start n : ℕ)
    → ((k : ℕ) → start ≤ k → k < start + n → f k ≡ g k)
    → queue_line f start n ≡ queue_line g start n
unfolding queue_line
queue_line_congr f g start zero same = refl
queue_line_congr f g start (suc n) same =
    rw
      (
        same start (omega arith) (omega arith),
        queue_line_congr f g (suc start) n (λ k low high. same k (omega arith) (omega arith)),
      )
      refl

pub queue_line-empty :
    (f : ℕ → List Ptr) (start n : ℕ)
    → ((k : ℕ) → start ≤ k → k < start + n → f k ≡ [])
    → queue_line f start n ≡ []
unfolding queue_line
queue_line-empty f start zero same = refl
queue_line-empty f start (suc n) same =
    rw (same start (omega arith) (omega arith))
      (queue_line-empty f (suc start) n (λ k low high. same k (omega arith) (omega arith)))

-- The first order of the first queue that has one is the first in line.
pub queue_line-first :
    (f g : ℕ → List Ptr) (i start n : ℕ) (p : Ptr) (ps : List Ptr)
    → start ≤ i
    → i < start + n
    → ((k : ℕ) → start ≤ k → k < i → f k ≡ [])
    → f i ≡ p ∷ ps
    → g i ≡ ps
    → ((k : ℕ) → k ≢ i → g k ≡ f k)
    → queue_line f start n ≡ p ∷ queue_line g start n
unfolding queue_line
queue_line-first f g i start zero p ps low high none_before here now off = absurd (omega arith)
queue_line-first f g i start (suc n) p ps low high none_before here now off =
    elim (Bool-cases (start == i)) [
      | inl e ↦
          let is_i = eq_of_test start i e in
          rw (ap f is_i ∙ here, ap g is_i ∙ now)
            (ap (λ l. p ∷ (ps ++ l))
              (queue_line_congr f g (suc start) n (λ k low' high'. sym (off k (omega arith)))))
      | inr e ↦
          let ne = ne_of_test start i e in
          let empty : f start ≡ [] = none_before start (omega arith) (omega arith) in
          rw (off start ne, empty)
            (queue_line-first f g i (suc start) n p ps (omega arith) (omega arith)
              (λ k low' high'. none_before k (omega arith) high') here now off)
    ]

-- Who stands in the line stands in a queue.
pub in_queue :
    (f : ℕ → List Ptr) (start n : ℕ) (a : Ptr)
    → a ∈ queue_line f start n
    → (k : ℕ) × (k < start + n) × (a ∈ f k)
unfolding queue_line
in_queue f start zero a mem = absurd (ground arith)
in_queue f start (suc n) a mem = elim (Bool-cases (has a (f start))) [
  | inl here ↦ (start, omega arith, here)
  | inr away ↦
      let (k, lt, there) =
        in_queue f (suc start) n a
          (ground (arith, has-append a (f start) (queue_line f (suc start) n))) in
      (k, omega arith, there)
]

pub offers_congr :
    (h g : Heap) (ps : List Ptr)
    → ((a : Ptr) → a ∈ ps → view g a ≡ view h a)
    → offers g ps ≡ offers h ps
unfolding offers
offers_congr h g [] same = refl
offers_congr h g (p ∷ ps) same =
    rw (same p (ground arith), offers_congr h g ps (λ a mem. same a (ground arith))) refl

pub offers-some :
    (h : Heap) (p : Ptr) (ps : List Ptr) {o : Order}
    → view h p ≡ some o
    → offers h (p ∷ ps) ≡ o ∷ offers h ps
unfolding offers
offers-some h p ps e = rw e refl

pub trades-stop :
    (id : OrderId) (price : Price) (side : OrderSide) (type : OrderType) (remaining : ℕ) (o : Order)
    (os : List Order)
    → (remaining == 0 || not (accepts side type price o.price)) ≡ true
    → (trades id price side type remaining (o ∷ os) ≡ [])
      × (untraded price side type remaining (o ∷ os) ≡ remaining)
unfolding trades untraded
trades-stop id price side type remaining o os e = (rw e refl, rw e refl)

-- With nothing left nothing is traded.
pub trades-zero :
    (id : OrderId) (price : Price) (side : OrderSide) (type : OrderType) (os : List Order)
    → (trades id price side type 0 os ≡ []) × (untraded price side type 0 os ≡ 0)
unfolding trades untraded
trades-zero id price side type [] = (refl, refl)
trades-zero id price side type (o ∷ os) = (refl, refl)

pub trades-step :
    (id : OrderId) (price : Price) (side : OrderSide) (type : OrderType) (remaining : ℕ) (o : Order)
    (os : List Order)
    → (remaining == 0 || not (accepts side type price o.price)) ≡ false
    → (trades id price side type remaining (o ∷ os)
        ≡ fill id remaining o
          ∷ trades id price side type (remaining - min remaining o.remaining_quantity) os)
      × (untraded price side type remaining (o ∷ os)
          ≡ untraded price side type (remaining - min remaining o.remaining_quantity) os)
unfolding trades untraded
trades-step id price side type remaining o os e = (rw e refl, rw e refl)
