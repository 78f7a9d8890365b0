-- ===== src/Base/Masks.antt =====
-- A mask of ones keeps the lowest digits: `x & (2^k - 1)` is `x % 2^k`.
use Prim.Native.Nat.{
  ℕ, zero, suc, ◌+◌, ◌*◌, ◌-◌, ◌/◌, ◌%◌, ◌^◌, ◌≤◌, ◌<◌, min, bit_and, digits, bit_and-bitwise,
}
use mathlib.Core.Path.{◌≡◌, sym, ap, ◌∙◌}
use native.Mathlib.Omega.{arith}
use native.Mathlib.Nat.{pow-suc, mod-eq_of_lt, mod-lt, div-add-mod', mul-add-mod_self_right}

-- the lowest digit of a remainder by an even number
mod_double : (a p : ℕ) → 0 < p → a % (p * 2) ≡ a / 2 % p * 2 + a % 2
mod_double a p h =
    let q = a / 2 / p in
    let whole : a / 2 / p * p + a / 2 % p ≡ a / 2 = div-add-mod' (a / 2) p in
    let low = a / 2 % p * 2 + a % 2 in
    let below : low < p * 2 = omega (arith, mod-lt (a / 2) {m = p} h) in
    let split : a ≡ q * (p * 2) + low = grind arith in
    ap (λ n. n % (p * 2)) split ∙ mul-add-mod_self_right q (p * 2) low ∙ mod-eq_of_lt below

masked_digits :
    (n k a mask : ℕ) → a ≤ n → mask + 1 ≡ 2 ^ k → digits (λ _. 0) min n a mask ≡ a % 2 ^ k
masked_digits zero k zero mask h e = sym (mod-eq_of_lt (omega arith))
masked_digits zero k (suc a) mask h e = absurd (omega arith)
masked_digits (suc n) k zero mask h e = sym (mod-eq_of_lt (omega arith))
masked_digits (suc n) zero (suc a) mask h e =
    omega (arith, masked_digits n zero (suc a / 2) (mask / 2) (omega arith) (omega arith))
masked_digits (suc n) (suc k) (suc a) mask h e =
    let rest =
      masked_digits n k (suc a / 2) (mask / 2) (omega arith) (omega (arith, pow-suc 2 k)) in
    omega (
      arith,
      pow-suc 2 k,
      rest,
      mod_double (suc a) (2 ^ k) (omega (arith, pow-suc 2 k)),
      ap (λ m. suc a % m) (pow-suc 2 k),
    )

pub two_pow_pos : (k : ℕ) → 0 < 2 ^ k
two_pow_pos zero = omega arith
two_pow_pos (suc k) = omega (arith, pow-suc 2 k, two_pow_pos k)

pub bit_and-mask : (a k : ℕ) → bit_and a (2 ^ k - 1) ≡ a % 2 ^ k
bit_and-mask a k =
    bit_and-bitwise a (2 ^ k - 1)
    ∙ masked_digits a k a (2 ^ k - 1) (omega arith) (omega (arith, two_pow_pos k))
