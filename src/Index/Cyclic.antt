-- ===== src/Index/Cyclic.antt =====
-- The way around the table of order_index.cpp: masks, and the test of backward-shift deletion.
use leka.Base.{ℕ, ◌+◌, ◌-◌, ◌%◌, ◌<◌, ◌≡◌, ap, arith, ltb, leb, ◌&&◌, if◌then◌else◌, dec_le}
use leka.Base.{List, length, ◌==◌, ==_iff, test_of_ne, dec_lt, ◌^◌}
use leka.Base.Masks.{bit_and-mask, two_pow_pos}
use leka.Types.{OrderId}
use leka.Index.{Slot, in_cyclic_range, index_for, next_slot}
use native.Mathlib.Nat.{mod-eq_of_lt, mod-lt, mod_self, add-mod_right}

-- How many steps forward lead from slot `i` to slot `k`.
unfoldable pub steps : (capacity i k : ℕ) → ℕ
steps capacity i k = (k + (capacity - i)) % capacity

pub steps-eq :
    (capacity i k : ℕ)
    → i < capacity
    → k < capacity
    → steps capacity i k ≡ (if leb i k then k - i else k + (capacity - i))
unfolding steps
steps-eq capacity i k a b = elim (dec_le i k) [
  | yes le ↦
      let e : k + (capacity - i) ≡ (k - i) + capacity = omega arith in
      ground (
        arith,
        ap (λ n. n % capacity) e,
        add-mod_right (k - i) capacity,
        mod-eq_of_lt {n = k - i} {m = capacity} (omega arith),
      )
  | no gt ↦ ground (arith, mod-eq_of_lt {n = k + (capacity - i)} {m = capacity} (omega arith))
]

-- For three slots of a table, the test of the backward shift holds exactly if the way forward
-- from slot `i` to slot `k`, around the end of the table, has at least one step and no more than
-- the way from `i` to `j`.
pub in_cyclic_range-steps :
    (k i j capacity : ℕ)
    → k < capacity
    → i < capacity
    → j < capacity
    → in_cyclic_range k i j
      ≡ (ltb 0 (steps capacity i k) && leb (steps capacity i k) (steps capacity i j))
unfolding in_cyclic_range
in_cyclic_range-steps k i j capacity a b c =
    ground (arith, steps-eq capacity i k b a, steps-eq capacity i j b c)

-- In a table whose size is a power of two, the masks keep every probe inside: the natural slot of
-- each key is a slot of the table, and behind a slot comes the next one, or the first one behind
-- the last.
pub slots_in_table :
    (hash : ℕ → ℕ) (slots : List Slot) (k : ℕ) (id : OrderId) (i : ℕ)
    → length slots ≡ 2 ^ k
    → i < length slots
    → (index_for hash id (length slots) < length slots)
      × (next_slot slots i ≡ (if i + 1 == length slots then 0 else i + 1))
unfolding index_for next_slot
slots_in_table hash slots k id i e h = (
  rw (e, bit_and-mask (hash id) k) (mod-lt (hash id) (two_pow_pos k)),
  elim (dec_lt (i + 1) (2 ^ k)) [
    | yes lt ↦
        rw (e, bit_and-mask (i + 1) k, test_of_ne (i + 1) (2 ^ k) (omega arith)) (mod-eq_of_lt lt)
    | no ge ↦
        let last : i + 1 ≡ 2 ^ k = omega arith in
        rw (e, bit_and-mask (i + 1) k, (==_iff (i + 1) (2 ^ k)).1 last, last) (mod_self (2 ^ k))
  ],
)
