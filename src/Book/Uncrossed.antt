-- ===== src/Book/Uncrossed.antt =====
-- A book in which every buyer pays less than every seller asks, as the matching loop leaves it.
use leka.Base.{
  ℕ, ◌<◌, ◌≡◌, ◌≢◌, refl, sym, ap, ◌∙◌, inl, inr, some, arith, ◌==◌, Bool-cases, eq_of_test,
  ne_of_test,
}
use mathlib.Core.Option.{none-ne-some, some-injective}
use leka.Types.{OrderId, Price, OrderSide, buy, sell, is_buy_side}
use leka.Order.{Ptr, Order}
use leka.Memory.{Heap}
use leka.Level.Invariant.{view}
use leka.Book.{Book, heap_of}
use leka.Book.Invariant.{Queues}
use leka.Book.Places.{view-none}
use leka.Book.Departure.{Leaves}
use leka.Book.Arrival.{Arrives}
use leka.Book.Rollback.{Unchanged}

abbrev pub IsUncrossed : Heap → Type 0
IsUncrossed h =
    (a c : Ptr) (bid ask : Order)
    → view h a ≡ some bid
    → view h c ≡ some ask
    → bid.order_side ≡ buy
    → ask.order_side ≡ sell
    → bid.price < ask.price

-- Orders that have gone, or whose quantity has changed, cross nobody.
pub IsUncrossed-alike :
    (h g : Heap)
    → ((a : Ptr) (c' : Order)
        → view g a ≡ some c'
        → (c : Order) × (view h a ≡ some c) × (c.order_side ≡ c'.order_side) × (c.price ≡ c'.price))
    → IsUncrossed h
    → IsUncrossed g
IsUncrossed-alike h g alike v a c bid ask at_a at_c is_bid is_ask =
    let (bid', at_a', side, price) = alike a bid at_a in
    let (ask', at_c', side', price') = alike c ask at_c in
    omega (arith, price, price', v a c bid' ask' at_a' at_c' (side ∙ is_bid) (side' ∙ is_ask))

pub Leaves-IsUncrossed :
    {hash : ℕ → ℕ} {b : Book} {q : Queues} {m : OrderId → Ptr} {p : Ptr} {o : Order} {b' : Book}
    {q' : Queues}
    → Leaves hash b q m p o b' q'
    → IsUncrossed (heap_of b)
    → IsUncrossed (heap_of b')
Leaves-IsUncrossed {b} {p} {b'} leaves = IsUncrossed-alike (heap_of b) (heap_of b') (λ a c' e.
    let ne : a ≢ p = λ is_p.
      none-ne-some c' (sym (view-none (heap_of b') a (ap (heap_of b') is_p ∙ leaves.gone)) ∙ e) in
    (c', sym (leaves.others a ne) ∙ e, refl, refl))

pub Unchanged-IsUncrossed :
    {hash : ℕ → ℕ} {b : Book} {q : Queues} {m : OrderId → Ptr} {b' : Book}
    → Unchanged hash b q m b'
    → IsUncrossed (heap_of b)
    → IsUncrossed (heap_of b')
Unchanged-IsUncrossed {b} {b'} unchanged =
    IsUncrossed-alike (heap_of b) (heap_of b')
      (λ a c' e. (c', sym (unchanged.same a) ∙ e, refl, refl))

-- No order of the other side is to be had at the price.
abbrev pub IsBeyond : Heap → OrderSide → Price → Type 0
IsBeyond h side price =
    (a : Ptr) (c : Order)
    → view h a ≡ some c
    → (side ≡ buy → c.order_side ≡ sell → price < c.price)
      × (side ≡ sell → c.order_side ≡ buy → c.price < price)

two_sides : (s : OrderSide) → s ≡ buy → s ≢ sell
two_sides s e e' = absurd (ground (arith, ap is_buy_side (sym e ∙ e')))

pub Arrives-IsUncrossed :
    {hash : ℕ → ℕ} {b : Book} {q : Queues} {m : OrderId → Ptr} {p : Ptr} {o : Order} {b' : Book}
    {q' : Queues}
    → Arrives hash b q m o p b' q'
    → IsBeyond (heap_of b) o.order_side o.price
    → IsUncrossed (heap_of b)
    → IsUncrossed (heap_of b')
Arrives-IsUncrossed {b} {p} {o} {b'} arrives beyond v a c bid ask at_a at_c is_bid is_ask =
    let new : (x : Ptr) (y : Order)
        → view (heap_of b') x ≡ some y
        → x ≡ p
        → (o.order_side ≡ y.order_side) × (o.price ≡ y.price) =
      λ x y at is_p.
        let same =
          some-injective _ y (sym arrives.stored ∙ ap (view (heap_of b')) (sym is_p) ∙ at) in
        (ap (λ z. z.order_side) same, ap (λ z. z.price) same) in
    let old : (x : Ptr) (y : Order)
        → view (heap_of b') x ≡ some y
        → x ≢ p
        → view (heap_of b) x ≡ some y =
      λ x y at ne. sym (arrives.others x ne) ∙ at in
    elim (Bool-cases (a == p)) [
      | inl e ↦
          let (side, price) = new a bid at_a (eq_of_test a p e) in
          elim (Bool-cases (c == p)) [
            | inl e' ↦
                let (side', _) = new c ask at_c (eq_of_test c p e') in
                absurd (two_sides o.order_side (side ∙ is_bid) (side' ∙ is_ask))
            | inr ne' ↦ omega (
              arith,
              price,
              (beyond c ask (old c ask at_c (ne_of_test c p ne'))).0 (side ∙ is_bid) is_ask,
            )
          ]
      | inr ne ↦ elim (Bool-cases (c == p)) [
        | inl e' ↦
            let (side', price') = new c ask at_c (eq_of_test c p e') in
            omega (
              arith,
              price',
              (beyond a bid (old a bid at_a (ne_of_test a p ne))).1 (side' ∙ is_ask) is_bid,
            )
        | inr ne' ↦
            v a c bid ask (old a bid at_a (ne_of_test a p ne)) (old c ask at_c (ne_of_test c p ne'))
              is_bid is_ask
      ]
    ]
