-- ===== src/Tests/Numbers.antt =====
-- Numbers that the generators hand out, and a time and a price as text.
use leka.Base.{
  ℕ, zero, suc, ◌+◌, ◌*◌, ◌/◌, ◌<◌, ◌≤◌, ◌≡◌, ◌∙◌, inl, inr, Bool-cases, eq_of_test, ◌==◌,
  if◌then◌else◌, List, [], ◌∷◌, ◌++◌, arith, length,
}
use leka.Order.Generated.{order_ids, sequence_numbers, numbers_behind, generators_lem}
use leka.Itch.{digit, append_clock, append_price}
use leka.Itch.RoundTrip.{
  value_from, value_from-append, IsDigits, IsDigits-snoc, append_clock-value_from,
  append_price-value_from,
}

-- The last two numbers, and one call more.
generators_example :
    (order_ids 3 (record { current_id = 18446744073709551613 })
      ≡ numbers_behind 18446744073709551613 3)
    × (sequence_numbers 3 (record { current_sequence = 18446744073709551613 })
        ≡ numbers_behind 18446744073709551613 3)
generators_example = generators_lem 3 18446744073709551613 (omega arith)

-- 09:30:00.000000123
append_clock_example :
    (hours minutes seconds nanos : List ℕ) × (append_clock [] 34200000000123
      ≡ (((((([] ++ hours) ++ 58 ∷ []) ++ minutes) ++ 58 ∷ []) ++ seconds) ++ 46 ∷ []) ++ nanos)
    × (length hours ≡ 2)
    × (length minutes ≡ 2)
    × (length seconds ≡ 2)
    × (length nanos ≡ 9)
    × IsDigits hours
    × IsDigits minutes
    × IsDigits seconds
    × IsDigits nanos
    × (value_from 0 minutes < 60)
    × (value_from 0 seconds < 60)
    × (((value_from 0 hours * 60 + value_from 0 minutes) * 60 + value_from 0 seconds) * 1000000000
          + value_from 0 nanos
        ≡ 34200000000123)
append_clock_example = append_clock-value_from [] 34200000000123 (omega arith)

-- The decimal digits of a number, none for a leading zero.
decimal : (fuel v : ℕ) → List ℕ
decimal zero v = digit v ∷ []
decimal (suc fuel) v =
    let rest = decimal fuel (v / 10) in if v / 10 == 0 then digit v ∷ [] else rest ++ digit v ∷ []

decimal_lem :
    (fuel v : ℕ) → v ≤ fuel → IsDigits (decimal fuel v) × (value_from 0 (decimal fuel v) ≡ v)
unfolding decimal
decimal_lem zero v small = ((omega arith, omega arith, tt), omega arith)
decimal_lem (suc fuel) v small = elim (Bool-cases (v / 10 == 0)) [
  | inl one ↦ rw one ((omega arith, omega arith, tt), omega (arith, eq_of_test (v / 10) 0 one))
  | inr more ↦
      let (digits, value) = decimal_lem fuel (v / 10) (omega arith) in
      rw more (
        IsDigits-snoc (decimal fuel (v / 10)) v digits,
        value_from-append 0 (decimal fuel (v / 10)) (digit v ∷ []) ∙ rw value (omega arith),
      )
]

abbrev to_chars : ℕ → List ℕ
to_chars v = decimal v v

-- 185.2500
append_price_example :
    (whole fraction : List ℕ) × (append_price to_chars [] 1852500 ≡ [] ++ whole ++ 46 ∷ fraction)
    × (length fraction ≡ 4)
    × IsDigits whole
    × IsDigits fraction
    × (value_from 0 whole * 10000 + value_from 0 fraction ≡ 1852500)
append_price_example =
    append_price-value_from to_chars [] 1852500 (λ v. decimal_lem v v (omega arith))
