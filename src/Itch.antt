-- ===== src/Itch.antt =====
-- tools/itch/itch_to_csv.cpp: how it writes prices and times. A character is its code, and a string
-- the list of its characters.
pub mod RoundTrip
use leka.Base.{ℕ, zero, suc, ◌+◌, ◌/◌, ◌%◌, List, [], ◌∷◌, ◌++◌}

-- `'0' + v % 10`
abbrev pub digit : ℕ → ℕ
digit v = 48 + v % 10

-- What `appendPadded` puts in its buffer, the last digit first to be found.
unfoldable pub padded : (v width : ℕ) → List ℕ
padded v zero = []
padded v (suc width) = padded (v / 10) width ++ digit v ∷ []

unfoldable pub append_padded : (out : List ℕ) (v width : ℕ) → List ℕ
append_padded out v width = out ++ padded v width

unfoldable pub append_clock : (out : List ℕ) (nanos_since_midnight : ℕ) → List ℕ
append_clock out nanos_since_midnight =
    let nanos = nanos_since_midnight % 1000000000 in
    let seconds = nanos_since_midnight / 1000000000 in
    let out = append_padded out (seconds / 3600) 2 ++ 58 ∷ [] in
    let out = append_padded out (seconds / 60 % 60) 2 ++ 58 ∷ [] in
    let out = append_padded out (seconds % 60) 2 ++ 46 ∷ [] in append_padded out nanos 9

-- `to_chars` stands for std::to_chars.
unfoldable pub append_price : (to_chars : ℕ → List ℕ) (out : List ℕ) (raw : ℕ) → List ℕ
append_price to_chars out raw =
    let frac = raw % 10000 in
    out
    ++ to_chars (raw / 10000)
    ++ 46 ∷ digit (frac / 1000) ∷ digit (frac / 100) ∷ digit (frac / 10) ∷ digit frac ∷ []
