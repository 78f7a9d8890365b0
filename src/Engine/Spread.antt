-- ===== src/Engine/Spread.antt =====
-- Where the matching loop stops: no order of the other side is to be had at the limit price.
use leka.Base.{
  not, refl, ℕ, ◌<◌, ◌≤◌, ◌≡◌, ◌≢◌, sym, ap, ◌∙◌, subst, inl, inr, true, some, List, [], arith,
  ◌==◌, Bool-cases, eq_of_test, ne_of_test, dec_lt, ◌∈◌, if◌then◌else◌,
}
use mathlib.Core.Option.{some-injective}
use leka.Types.{OrderId, Price, OrderSide, buy, sell, is_buy_side, OrderType, limit, market}
use leka.Order.{Ptr, Order}
use leka.Level.Invariant.{view}
use leka.Ladder.{Ladder}
use leka.Ladder.Prices.{price_at, price_at_order}
use leka.Book.{Book, heap_of, ladder_of}
use leka.Book.Invariant.{Queues, queues_of, IsBook}
use leka.Book.Uncrossed.{IsBeyond}
use leka.Engine.{opposite, stops_at}
use leka.Engine.Priority.{accepts}
use leka.Engine.Best.{IsBest}

-- The test of the loop is the independent one.
pub stops_at-accepts :
    (side : OrderSide) (type : OrderType) (limit_price price : Price)
    → stops_at side type limit_price price ≡ not (accepts side type limit_price price)
unfolding stops_at
stops_at-accepts side market limit_price price = refl
stops_at-accepts buy limit limit_price price = ground arith
stops_at-accepts sell limit limit_price price = ground arith

module _ (hash : ℕ → ℕ) (b : Book) (q : Queues) (m : OrderId → Ptr) (v : IsBook hash b q m) where
  -- An order rests at the price of its level.
  resting_price :
      (s : OrderSide) (a : Ptr) (c : Order)
      → view (heap_of b) a ≡ some c
      → c.order_side ≡ s
      → (k : ℕ) × (k < (ladder_of s b).level_count)
        × (a ∈ queues_of s q k)
        × (c.price ≡ price_at (ladder_of s b) k)
  resting_price s a c e at_side =
      let (_, k, lt, mem) =
        subst
          (λ s.
            (m c.order_id ≡ a)
            × (k : ℕ) × (k < (ladder_of s b).level_count)
            × (a ∈ queues_of s q k))
          at_side (v.resting a c e) in
      let here = (v.sides s).levels k lt in
      let rests = here.queue.owned a mem in
      (
        k,
        lt,
        mem,
        ap (λ x. x.price) (some-injective c rests.order (sym e ∙ rests.holds))
            ∙ rests.at_price
            ∙ here.priced,
      )

  module _ (s : OrderSide) (i : ℕ) (p : Ptr) (ps : List Ptr) (best : IsBest b q s i p ps) where
    abbrev l : Ladder
    l = ladder_of s b

    -- No order of a side has a better price than its best level.
    pub best_price :
        (a : Ptr) (c : Order)
        → view (heap_of b) a ≡ some c
        → c.order_side ≡ s
        → if is_buy_side s then c.price ≤ best.at.level.price else best.at.level.price ≤ c.price
    best_price a c e at_side =
        let (k, lt, mem, priced) = resting_price s a c e at_side in
        let directed = (v.sides s).directed in
        elim (dec_lt k i) [
          | yes low ↦ absurd (ground (arith, subst (λ xs. a ∈ xs) (best.before k low) mem))
          | no high ↦ elim (Bool-cases (k == i)) [
            | inl same ↦
                let e' : c.price ≡ best.at.level.price =
                  priced ∙ ap (price_at l) (eq_of_test k i same) ∙ sym best.at.priced in
                ground (arith, e')
            | inr ne ↦
                let far =
                  price_at_order l (v.sides s).ranged i k (omega (arith, ne_of_test k i ne)) lt in
                subst
                  (λ d. if d then c.price ≤ best.at.level.price else best.at.level.price ≤ c.price)
                  directed (ground (arith, far, priced, best.at.priced))
          ]
        ]

  pub IsBeyond-stop :
      (side : OrderSide) (type : OrderType) (price : Price) (i : ℕ) (p : Ptr) (ps : List Ptr)
      (best : IsBest b q (opposite side) i p ps)
      → stops_at side type price best.at.level.price ≡ true
      → IsBeyond (heap_of b) side price
  unfolding stops_at
  IsBeyond-stop buy limit price i p ps best stop a c e = (
    λ _ is_ask. ground (arith, best_price sell i p ps best a c e is_ask, stop),
    λ z _. absurd (ground (arith, ap is_buy_side z)),
  )
  IsBeyond-stop sell limit price i p ps best stop a c e = (
    λ z _. absurd (ground (arith, ap is_buy_side z)),
    λ _ is_bid. ground (arith, best_price buy i p ps best a c e is_bid, stop),
  )
  IsBeyond-stop side market price i p ps best stop a c e = absurd (ground (arith, stop))

  pub IsBeyond-none :
      (side : OrderSide) (price : Price)
      → ((k : ℕ)
          → k < (ladder_of (opposite side) b).level_count
          → queues_of (opposite side) q k ≡ [])
      → IsBeyond (heap_of b) side price
  IsBeyond-none side price empty a c e = (
    λ is_buy is_ask. absurd (nobody (is_ask ∙ ap opposite (sym is_buy))),
    λ is_sell is_bid. absurd (nobody (is_bid ∙ ap opposite (sym is_sell))),
  )
    where
      nobody : c.order_side ≢ opposite side
      nobody at_side =
          let (k, lt, mem, _) = resting_price (opposite side) a c e at_side in
          absurd (ground (arith, subst (λ xs. a ∈ xs) (empty k lt) mem))
