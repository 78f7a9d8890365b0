-- ===== src/Index/Growth.antt =====
-- `growIfNeeded` and `reserve`: the entries of a table move to a larger one.
use leka.Base.{
  ℕ, zero, suc, ◌<◌, ◌≡◌, ◌≢◌, refl, sym, ap, ◌∙◌, inl, inr, List, [], ◌∷◌, arith, ◌==◌,
  if◌then◌else◌, length, Bool-cases, eq_of_test, ne_of_test, ==_iff, test_of_ne,
}
use leka.Types.{OrderId}
use leka.Order.{Ptr, null}
use leka.Index.{Slot}
use leka.Index.Slots.{at, Taken}
use leka.Index.Table.{IsLaid}

-- What a list of slots has for a key.
unfoldable pub entry : OrderId → List Slot → Ptr
entry q [] = null
entry q (s ∷ rest) =
    if s.value == null then entry q rest else if s.key == q then s.value else entry q rest

-- No key stands twice.
abbrev pub HasKeysOnce : List Slot → Type 0
HasKeysOnce [] = Unit {0}
HasKeysOnce (s ∷ rest) = (s.value ≢ null → entry s.key rest ≡ null) × HasKeysOnce rest

entry_found :
    (q : OrderId) (slots : List Slot)
    → entry q slots ≢ null
    → (i : ℕ) × (i < length slots) × ((at slots i).key ≡ q) × ((at slots i).value ≡ entry q slots)
unfolding entry
entry_found q [] h = absurd (h refl)
entry_found q (s ∷ rest) h = elim (Bool-cases (s.value == null)) [
  | inl e ↦
      let (i, hi, key, value) = entry_found q rest (λ w. h (rw e w)) in
      (suc i, omega arith, key, rw e value)
  | inr e ↦ elim (Bool-cases (s.key == q)) [
    | inl f ↦ (0, omega arith, eq_of_test s.key q f, rw (e, f) refl)
    | inr f ↦
        let (i, hi, key, value) = entry_found q rest (λ w. h (rw (e, f) w)) in
        (suc i, omega arith, key, rw (e, f) value)
  ]
]

entry_taken :
    (slots : List Slot) (i : ℕ)
    → i < length slots
    → Taken slots i
    → entry (at slots i).key slots ≢ null
unfolding entry
entry_taken [] i h t = absurd (omega arith)
entry_taken (s ∷ rest) zero h t =
    ground (arith, test_of_ne s.value null t, (==_iff s.key s.key).1 refl)
entry_taken (s ∷ rest) (suc i) h t = ground (arith, entry_taken rest i (omega arith) t)

pub keys_once :
    (slots : List Slot)
    → ((i j : ℕ)
        → i < length slots
        → j < length slots
        → Taken slots i
        → Taken slots j
        → (at slots i).key ≡ (at slots j).key
        → i ≡ j)
    → HasKeysOnce slots
keys_once [] u = tt
keys_once (s ∷ rest) u = (
  λ t. elim (Bool-cases (entry s.key rest == null)) [
    | inl e ↦ eq_of_test (entry s.key rest) null e
    | inr e ↦
        let (j, hj, key, value) = entry_found s.key rest (ne_of_test (entry s.key rest) null e) in
        let tj : Taken rest j = λ q. ne_of_test (entry s.key rest) null e (sym value ∙ q) in
        let w : 0 ≡ suc j = u 0 (suc j) (omega arith) (omega arith) t tj (sym key) in
        absurd (omega arith)
  ],
  keys_once rest
      (λ i j hi hj ti tj e. omega (arith, u (suc i) (suc j) (omega arith) (omega arith) ti tj e)),
)

pub entry-eq :
    (hash : ℕ → ℕ) (slots : List Slot) (m : OrderId → Ptr)
    → IsLaid hash (length slots) slots m
    → (q : OrderId) → entry q slots ≡ m q
entry-eq hash slots m v q = elim (Bool-cases (entry q slots == null)) [
  | inl e ↦ elim (Bool-cases (m q == null)) [
    | inl f ↦ eq_of_test (entry q slots) null e ∙ sym (eq_of_test (m q) null f)
    | inr f ↦
        let ne = ne_of_test (m q) null f in
        let (i, hi, key, value) = v.found q ne in
        absurd (
          entry_taken slots i hi (λ w. ne (sym value ∙ w))
            (ap (λ x. entry x slots) key ∙ eq_of_test (entry q slots) null e))
  ]
  | inr e ↦
      let ne = ne_of_test (entry q slots) null e in
      let (i, hi, key, value) = entry_found q slots ne in
      sym value ∙ sym (v.stored i hi (λ w. ne (sym value ∙ w))) ∙ ap m key
]
