-- ===== src/Ladder/Prices.antt =====
-- Prices and indices in price_ladder.cpp: `indexOf`, and the prices that the constructor gives the
-- levels.
use leka.Base.{
  ℕ, suc, ◌+◌, ◌-◌, ◌*◌, ◌/◌, ◌%◌, ◌≤◌, ◌<◌, ◌≡◌, ◌≢◌, refl, sym, ap, ◌∙◌, ◌⊎◌, inl, inr, arith,
  ◌==◌, if◌then◌else◌, length, Bool-cases, dec_lt, eq_of_test, ne_of_test,
}
use leka.Base.Outcome.{ok, throws, invalid_argument, out_of_range}
use leka.Types.{Price, u64_max}
use leka.Ladder.{Ladder, level_price, to_index, index_of}
use native.Mathlib.Nat.{
  mul-div_cancel, div-add-mod', mul-mod_left, mul-le-mul_right, div-le_of_le-mul,
}

-- The range of prices, and a level for each of them.
pub record IsRanged (l : Ladder) : Type 0 where
  pub min_pos : 0 < l.min_price
  pub tick_pos : 0 < l.tick_size
  pub count_pos : 0 < l.level_count
  pub max : l.max_price ≡ l.min_price + (l.level_count - 1) * l.tick_size
  pub bounded : l.max_price ≤ u64_max
  pub sized : length l.levels ≡ l.level_count

-- The price of the level at an index.
abbrev pub price_at : Ladder → ℕ → Price
price_at l = level_price l.min_price l.tick_size l.max_price l.descending

-- The same price without wrap-around.
abbrev pub plain_price : Ladder → ℕ → Price
plain_price l i =
    if l.descending then l.max_price - i * l.tick_size else l.min_price + i * l.tick_size

module _ (l : Ladder) (v : IsRanged l) where
  span_le : (i : ℕ) → i < l.level_count → i * l.tick_size ≤ (l.level_count - 1) * l.tick_size
  span_le i h = let k : i ≤ l.level_count - 1 = omega arith in grind arith

  -- No price of a level wraps.
  pub price_at-plain : (i : ℕ) → i < l.level_count → price_at l i ≡ plain_price l i
  unfolding level_price
  price_at-plain i h = ground (arith, span_le i h, v.max, v.bounded)

  to_index-mul : (i : ℕ) → to_index l (i * l.tick_size) ≡ ok i
  unfolding to_index
  to_index-mul i =
      ground (arith, mul-mod_left i l.tick_size, mul-div_cancel i {n = l.tick_size} v.tick_pos)

  index_of_offset :
      (raw offset : ℕ)
      → l.min_price ≤ raw
      → raw ≤ l.max_price
      → offset ≡ (if l.descending then l.max_price - raw else raw - l.min_price)
      → index_of l raw ≡ to_index l offset
  unfolding index_of
  index_of_offset raw offset low high e = ground arith

  -- On a well-formed price range, `indexOf` takes the price of each level back to the index of
  -- that level.
  pub index_of-price_at : (i : ℕ) → i < l.level_count → index_of l (price_at l i) ≡ ok i
  index_of-price_at i h = rw (price_at-plain i h) (
      index_of_offset (plain_price l i) (i * l.tick_size) (ground (arith, span_le i h, v.max))
        (ground (arith, span_le i h, v.max)) (ground (arith, span_le i h, v.max))
      ∙ to_index-mul i)

  -- for a price in the range
  in_range :
      (raw : ℕ)
      → l.min_price ≤ raw
      → raw ≤ l.max_price
      → let offset = if l.descending then l.max_price - raw else raw - l.min_price in
        ((offset % l.tick_size ≢ 0) × (index_of l raw ≡ throws invalid_argument))
        ⊎ ((offset / l.tick_size < l.level_count)
            × (price_at l (offset / l.tick_size) ≡ raw)
            × (index_of l raw ≡ ok (offset / l.tick_size)))
  unfolding to_index
  in_range raw low high =
      let offset = if l.descending then l.max_price - raw else raw - l.min_price in
      let run = index_of_offset raw offset low high refl in
      elim (Bool-cases (offset % l.tick_size == 0)) [
        | inr e ↦ inl (ne_of_test (offset % l.tick_size) 0 e, run ∙ (rw e refl))
        | inl e ↦
            let z = eq_of_test (offset % l.tick_size) 0 e in
            let whole : offset / l.tick_size * l.tick_size ≡ offset =
              omega (arith, div-add-mod' offset l.tick_size) in
            let fits : offset ≤ (l.level_count - 1) * l.tick_size = ground (arith, v.max) in
            let below : offset / l.tick_size < l.level_count = omega (
              arith,
              div-le_of_le-mul l.tick_size {m = offset} {n = l.level_count - 1}
                  (omega (arith, fits)),
              v.count_pos,
            ) in
            inr (below, price_at-plain _ below ∙ ground (arith, whole), run ∙ (rw e refl))
      ]

  out_of_range_lem :
      (raw : ℕ) → (raw < l.min_price) ⊎ (l.max_price < raw) → index_of l raw ≡ throws out_of_range
  unfolding index_of
  out_of_range_lem raw h = ground arith

  -- On a well-formed price range, every price falls in one of three classes: `indexOf` refuses it
  -- as out of the range that it is out of, refuses it as off the tick grid when no level has this
  -- price, or answers the index of a level that has exactly this price.
  pub index_of_cases :
      (raw : ℕ)
      → (((raw < l.min_price) ⊎ (l.max_price < raw)) × (index_of l raw ≡ throws out_of_range))
        ⊎ (((i : ℕ) → i < l.level_count → price_at l i ≢ raw)
            × (index_of l raw ≡ throws invalid_argument))
        ⊎ ((i : ℕ) × (i < l.level_count) × (price_at l i ≡ raw) × (index_of l raw ≡ ok i))
  index_of_cases raw = elim (dec_lt raw l.min_price) [
    | yes low ↦ inl (inl low, out_of_range_lem raw (inl low))
    | no low ↦ elim (dec_lt l.max_price raw) [
      | yes high ↦ inl (inr high, out_of_range_lem raw (inr high))
      | no high ↦ elim (in_range raw (omega arith) (omega arith)) [
        | inl (off, run) ↦
            inr (inl (λ i b q. cc (sym run ∙ ap (index_of l) (sym q) ∙ index_of-price_at i b), run))
        | inr (below, at, run) ↦ inr (inr (_, below, at, run))
      ]
    ]
  ]

  -- On a well-formed price range, the level at the lower of two indices has the better price: the
  -- higher on the bid side, the lower on the ask side.
  pub price_at_order :
      (i j : ℕ)
      → i < j
      → j < l.level_count
      → if l.descending then price_at l j < price_at l i else price_at l i < price_at l j
  price_at_order i j h k =
      let low : i < l.level_count = omega arith in
      rw (price_at-plain i low, price_at-plain j k)
        (ground (
          arith,
          span_le j k,
          mul-le-mul_right {m = suc i} {n = j} l.tick_size h,
          v.max,
          v.tick_pos,
        ))
