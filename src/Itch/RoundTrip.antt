-- ===== src/Itch/RoundTrip.antt =====
-- The prices and times that itch_to_csv.cpp writes, read back.
use leka.Base.{
  ℕ, zero, suc, ◌+◌, ◌-◌, ◌*◌, ◌/◌, ◌%◌, ◌^◌, ◌<◌, ◌≤◌, ◌≡◌, refl, ◌∙◌, List, [], ◌∷◌, ◌++◌, arith,
  length, length-append,
}
use native.Mathlib.Nat.{pow-suc}
use leka.Itch.{digit, padded, append_padded, append_clock, append_price}

-- The number that digits stand for, behind the digits of `n`.
abbrev pub value_from : ℕ → List ℕ → ℕ
value_from n [] = n
value_from n (c ∷ cs) = value_from (n * 10 + (c - 48)) cs

-- Each character is one of the ten digits.
abbrev pub IsDigits : List ℕ → Type 0
IsDigits [] = Unit {0}
IsDigits (c ∷ cs) = (48 ≤ c) × (c ≤ 57) × IsDigits cs

pub IsDigits-snoc : (cs : List ℕ) (v : ℕ) → IsDigits cs → IsDigits (cs ++ digit v ∷ [])
IsDigits-snoc [] v w = (omega arith, omega arith, tt)
IsDigits-snoc (c ∷ cs) v w = (w.0, w.1, IsDigits-snoc cs v w.2)

padded-IsDigits : (v width : ℕ) → IsDigits (padded v width)
unfolding padded
padded-IsDigits v zero = tt
padded-IsDigits v (suc width) =
    IsDigits-snoc (padded (v / 10) width) v (padded-IsDigits (v / 10) width)

pub value_from-append :
    (n : ℕ) (xs ys : List ℕ) → value_from n (xs ++ ys) ≡ value_from (value_from n xs) ys
value_from-append n [] ys = refl
value_from-append n (x ∷ xs) ys = value_from-append (n * 10 + (x - 48)) xs ys

length-padded : (v width : ℕ) → length (padded v width) ≡ width
unfolding padded
length-padded v zero = refl
length-padded v (suc width) =
    omega
      (arith, length-append (padded (v / 10) width) (digit v ∷ []), length-padded (v / 10) width)

value_from-padded : (v width : ℕ) → v < 10 ^ width → value_from 0 (padded v width) ≡ v
unfolding padded
value_from-padded v zero h = omega arith
value_from-padded v (suc width) h =
    let rest = value_from-padded (v / 10) width (omega (arith, pow-suc 10 width)) in
    value_from-append 0 (padded (v / 10) width) (digit v ∷ []) ∙ rw rest (omega arith)

-- The time that `appendClock` writes for a 48-bit number of nanoseconds since midnight is two
-- digits of hours, two of minutes, two of seconds and nine of nanoseconds, all of them characters
-- from 0 to 9, between them two colons and a point; minutes and seconds are below 60, and read
-- back as hours, minutes, seconds and nanoseconds they make the number.
pub append_clock-value_from :
    (out : List ℕ) (n : ℕ)
    → n < 2 ^ 48
    → (hours minutes seconds nanos : List ℕ) × (append_clock out n
        ≡ (((((out ++ hours) ++ 58 ∷ []) ++ minutes) ++ 58 ∷ []) ++ seconds ++ 46 ∷ []) ++ nanos)
      × (length hours ≡ 2)
      × (length minutes ≡ 2)
      × (length seconds ≡ 2)
      × (length nanos ≡ 9)
      × IsDigits hours
      × IsDigits minutes
      × IsDigits seconds
      × IsDigits nanos
      × (value_from 0 minutes < 60)
      × (value_from 0 seconds < 60)
      × (((value_from 0 hours * 60 + value_from 0 minutes) * 60 + value_from 0 seconds) * 1000000000
            + value_from 0 nanos
          ≡ n)
unfolding append_clock append_padded
append_clock-value_from out n h =
    let s = n / 1000000000 in
    (
      padded (s / 3600) 2,
      padded (s / 60 % 60) 2,
      padded (s % 60) 2,
      padded (n % 1000000000) 9,
      refl,
      length-padded (s / 3600) 2,
      length-padded (s / 60 % 60) 2,
      length-padded (s % 60) 2,
      length-padded (n % 1000000000) 9,
      padded-IsDigits (s / 3600) 2,
      padded-IsDigits (s / 60 % 60) 2,
      padded-IsDigits (s % 60) 2,
      padded-IsDigits (n % 1000000000) 9,
      rw (value_from-padded (s / 60 % 60) 2 (omega arith)) (omega arith),
      rw (value_from-padded (s % 60) 2 (omega arith)) (omega arith),
      rw
          (
            value_from-padded (s / 3600) 2 (omega arith),
            value_from-padded (s / 60 % 60) 2 (omega arith),
            value_from-padded (s % 60) 2 (omega arith),
            value_from-padded (n % 1000000000) 9 (omega arith),
          )
          (omega arith),
    )

-- If the conversion of whole numbers writes decimal digits, characters from 0 to 9, that stand
-- for the number, the text that `appendPrice` writes is a whole part, a point and four more
-- characters, both of them decimal digits, and the whole part in units of 10000 and the four
-- digits make the raw price.
pub append_price-value_from :
    (to_chars : ℕ → List ℕ) (out : List ℕ) (raw : ℕ)
    → ((v : ℕ) → IsDigits (to_chars v) × (value_from 0 (to_chars v) ≡ v))
    → (whole fraction : List ℕ) × (append_price to_chars out raw ≡ out ++ whole ++ 46 ∷ fraction)
      × (length fraction ≡ 4)
      × IsDigits whole
      × IsDigits fraction
      × (value_from 0 whole * 10000 + value_from 0 fraction ≡ raw)
unfolding append_price
append_price-value_from to_chars out raw h = (
  to_chars (raw / 10000),
  _,
  refl,
  refl,
  (h (raw / 10000)).0,
  (
    omega arith,
    omega arith,
    (omega arith, omega arith, (omega arith, omega arith, (omega arith, omega arith, tt))),
  ),
  omega (arith, (h (raw / 10000)).1),
)
