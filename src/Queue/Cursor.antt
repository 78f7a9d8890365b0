-- ===== src/Queue/Cursor.antt =====
-- Cursors of the ring: counters that only grow, kept modulo 2^64, and the slots they stand for.
use Prim.Native.Nat.{◌∣◌}
use leka.Base.{
  ℕ, zero, suc, ◌+◌, ◌-◌, ◌*◌, ◌/◌, ◌%◌, ◌^◌, ◌<◌, ◌≤◌, ◌≡◌, ◌≢◌, sym, ap, ◌∙◌, subst, arith,
  dec_lt,
}
use leka.Base.Masks.{bit_and-mask}
use native.Mathlib.Nat.{pow-suc, mod-mod_of_dvd, div-add-mod', mul-le-mul_right, dvd-mul_right}
use leka.Types.{u64_size, add_u64, sub_u64}
use leka.Queue.{slot}

pub cursor_next : (n : ℕ) → add_u64 (n % u64_size) 1 ≡ (n + 1) % u64_size
cursor_next n = omega arith

-- Cursors that are close tell their distance.
pub cursor_distance :
    (a b : ℕ) → a ≤ b → b < a + u64_size → sub_u64 (b % u64_size) (a % u64_size) ≡ b - a
cursor_distance a b le lt = omega arith

pub cursor_same : (a b : ℕ) → a ≤ b → b < a + u64_size → a % u64_size ≡ b % u64_size → a ≡ b
cursor_same a b le lt e = omega arith

pub two_pow_factor : (k d : ℕ) → (c : ℕ) × (2 ^ (d + k) ≡ 2 ^ k * c)
two_pow_factor k zero = (1, ap (λ x. 2 ^ x) {x = 0 + k} {y = k} (omega arith) ∙ omega arith)
two_pow_factor k (suc d) =
    let (c, e) = two_pow_factor k d in
    (
      c * 2,
      ap (λ x. 2 ^ x) {x = suc d + k} {y = suc (d + k)} (omega arith)
          ∙ pow-suc 2 (d + k)
          ∙ ap (λ x. x * 2) e
          ∙ grind arith,
    )

-- The slot of a cursor is that of its counter.
pub slot-cursor : (k n : ℕ) → k ≤ 64 → slot (2 ^ k) (n % u64_size) ≡ n % 2 ^ k
unfolding slot
slot-cursor k n h =
    let (c, e) = two_pow_factor k (64 - k) in
    let whole : u64_size ≡ 2 ^ k * c =
      ap (λ x. 2 ^ x) {x = 64} {y = 64 - k + k} (omega arith) ∙ e in
    bit_and-mask (n % u64_size) k
    ∙ mod-mod_of_dvd (2 ^ k) n (subst (λ x. 2 ^ k ∣ x) (sym whole) (dvd-mul_right (2 ^ k) c))

-- Different counters of one window have different slots.
pub slots_apart : (c i j : ℕ) → i < j → j < i + c → i % c ≢ j % c
slots_apart c i j lt near e =
    let a = div-add-mod' i c in
    let b = div-add-mod' j c in
    elim (dec_lt (i / c) (j / c)) [
      | yes more ↦
          omega (arith, mul-le-mul_right {m = suc (i / c)} {n = j / c} c more, grown (i / c) c)
      | no less ↦ omega (arith, mul-le-mul_right {m = j / c} {n = i / c} c (omega arith))
    ]
  where
    grown : (x c : ℕ) → suc x * c ≡ x * c + c
    grown x c = grind arith
