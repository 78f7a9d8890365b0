-- ===== src/Order/Generated.antt =====
-- What the two generators hand out, call after call.
use leka.Base.{
  ℕ, zero, suc, ◌+◌, ◌≤◌, ◌≡◌, refl, inl, inr, true, false, List, [], ◌∷◌, arith, ◌==◌, leb,
  if◌then◌else◌, Bool-cases, eq_of_test, ne_of_test,
}
use leka.Base.Outcome.{Outcome, ok, throws, overflow_error, ◌>>=◌}
use leka.Types.{OrderId, SequenceNumber, u64_max, add_u64}
use leka.Order.IdGenerator.{
  OrderIdGenerator, SequenceNumberGenerator, generate_order_id, generate_sequence_number,
}

unfoldable pub order_ids : ℕ → OrderIdGenerator → Outcome (List OrderId)
order_ids zero g = ok []
order_ids (suc n) g = do (id, g') ← generate_order_id g; ids ← order_ids n g'; ok (id ∷ ids)

unfoldable pub sequence_numbers : ℕ → SequenceNumberGenerator → Outcome (List SequenceNumber)
sequence_numbers zero g = ok []
sequence_numbers (suc n) g = do
  (number, g') ← generate_sequence_number g
  numbers ← sequence_numbers n g'
  ok (number ∷ numbers)

abbrev pub count_from : ℕ → ℕ → List ℕ
count_from start zero = []
count_from start (suc n) = start ∷ count_from (suc start) n

-- The numbers behind `last`, unless they run out.
abbrev pub numbers_behind : (last n : ℕ) → Outcome (List ℕ)
numbers_behind last n =
    if leb (last + n) u64_max then ok (count_from (suc last) n) else throws overflow_error

numbers_behind-suc :
    (last n : ℕ)
    → suc last ≤ u64_max
    → (do ids ← numbers_behind (suc last) n; ok (suc last ∷ ids)) ≡ numbers_behind last (suc n)
numbers_behind-suc last n h = elim (Bool-cases (leb (suc last + n) u64_max)) [
  | inl q ↦ rw (q, same q) refl
  | inr q ↦ rw (q, other q) refl
]
  where
    same : leb (suc last + n) u64_max ≡ true → leb (last + suc n) u64_max ≡ true
    same q = ground arith

    other : leb (suc last + n) u64_max ≡ false → leb (last + suc n) u64_max ≡ false
    other q = ground arith

past_end : (last n : ℕ) → last ≡ u64_max → leb (last + suc n) u64_max ≡ false
past_end last n e = ground arith

next_number : (last : ℕ) → suc last ≤ u64_max → add_u64 last 1 ≡ suc last
next_number last h = omega arith

order_ids_lem :
    (n last : ℕ)
    → last ≤ u64_max
    → order_ids n (record { current_id = last }) ≡ numbers_behind last n
unfolding order_ids generate_order_id
order_ids_lem zero last h = ground arith
order_ids_lem (suc n) last h = elim (Bool-cases (last == u64_max)) [
  | inl q ↦ rw (q, past_end last n (eq_of_test last u64_max q)) refl
  | inr q ↦
      let more : suc last ≤ u64_max = omega (arith, ne_of_test last u64_max q) in
      rw (q, next_number last more, order_ids_lem n (suc last) more)
        (numbers_behind-suc last n more)
]

sequence_numbers_lem :
    (n last : ℕ)
    → last ≤ u64_max
    → sequence_numbers n (record { current_sequence = last }) ≡ numbers_behind last n
unfolding sequence_numbers generate_sequence_number
sequence_numbers_lem zero last h = ground arith
sequence_numbers_lem (suc n) last h = elim (Bool-cases (last == u64_max)) [
  | inl q ↦ rw (q, past_end last n (eq_of_test last u64_max q)) refl
  | inr q ↦
      let more : suc last ≤ u64_max = omega (arith, ne_of_test last u64_max q) in
      rw (q, next_number last more, sequence_numbers_lem n (suc last) more)
        (numbers_behind-suc last n more)
]

-- If the last number that a generator of order ids or of sequence numbers has handed out is a
-- 64-bit number, then any number of further calls hands out the numbers that follow it, in order
-- and without a gap, or, where they would pass the largest 64-bit number, ends in overflow_error.
pub generators_lem :
    (n last : ℕ)
    → last ≤ u64_max
    → (order_ids n (record { current_id = last }) ≡ numbers_behind last n)
      × (sequence_numbers n (record { current_sequence = last }) ≡ numbers_behind last n)
generators_lem n last h = (order_ids_lem n last h, sequence_numbers_lem n last h)
