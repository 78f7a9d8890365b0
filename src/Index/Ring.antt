-- ===== src/Index/Ring.antt =====
-- The way around a table of `n` slots: distances forward, and slots on the way to another.
use leka.Base.{ℕ, ◌+◌, ◌≤◌, ◌<◌, ◌≡◌, ◌≢◌, ◌⊎◌, arith, ◌==◌, if◌then◌else◌}
use leka.Index.Cyclic.{steps, steps-eq}

-- The slot behind a slot.
abbrev pub behind : (n j : ℕ) → ℕ
behind n j = if j + 1 == n then 0 else j + 1

pub behind-lt : (n j : ℕ) → j < n → behind n j < n
behind-lt n j h = ground arith

module _ (n h j : ℕ) (hh : h < n) (hj : j < n) where
  pub steps_self : steps n j j ≡ 0
  steps_self = ground (arith, steps-eq n j j hj hj)

  pub steps-lt : steps n h j < n
  steps-lt = ground (arith, steps-eq n h j hh hj)

  pub steps_zero : steps n h j ≡ 0 → h ≡ j
  steps_zero e = ground (arith, steps-eq n h j hh hj)

  pub steps-behind : steps n h j + 1 < n → steps n h (behind n j) ≡ steps n h j + 1
  steps-behind k =
      ground (arith, steps-eq n h j hh hj, steps-eq n h (behind n j) hh (behind-lt n j hj))

  pub behind-steps : j ≢ h → steps n (behind n j) h + 1 ≡ steps n j h
  behind-steps k =
      ground (arith, steps-eq n j h hj hh, steps-eq n (behind n j) h (behind-lt n j hj) hh)

module _ (n h i j : ℕ) (hh : h < n) (hi : i < n) (hj : j < n) where
  pub steps_injective : steps n h i ≡ steps n h j → i ≡ j
  steps_injective e = ground (arith, steps-eq n h i hh hi, steps-eq n h j hh hj)

  -- `h` lies behind `i`, up to `j`: then `i` is not on the way from `h` to `j`.
  pub off_way : 0 < steps n i h → steps n i h ≤ steps n i j → steps n h j ≤ steps n h i
  off_way a b = ground (
    arith,
    steps-eq n i h hi hh,
    steps-eq n i j hi hj,
    steps-eq n h j hh hj,
    steps-eq n h i hh hi,
  )

  -- Otherwise it is.
  pub on_way : i ≢ j → (steps n i h ≡ 0) ⊎ (steps n i j < steps n i h) → steps n h i < steps n h j
  on_way a b = ground (
    arith,
    steps-eq n i h hi hh,
    steps-eq n i j hi hj,
    steps-eq n h j hh hj,
    steps-eq n h i hh hi,
  )

-- With `v` on the way from `h` to `i`, and `j` on the way from `v` to `i`, `j` is on the first way.
pub on_way_trans :
    (n h v j i : ℕ)
    → h < n
    → v < n
    → j < n
    → i < n
    → steps n h v < steps n h i
    → steps n v j < steps n v i
    → steps n h j < steps n h i
on_way_trans n h v j i hh hv hj hi a b = ground (
  arith,
  steps-eq n h v hh hv,
  steps-eq n h i hh hi,
  steps-eq n v j hv hj,
  steps-eq n v i hv hi,
  steps-eq n h j hh hj,
)
