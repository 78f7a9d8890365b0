-- ===== src/Index/Slots.antt =====
-- The slots of a table, read by number: what a write changes, how many are taken, and a free one.
use leka.Base.{
  ℕ, zero, suc, ◌+◌, ◌<◌, ◌≡◌, ◌≢◌, refl, sym, inl, inr, List, [], ◌∷◌, some, arith, ◌==◌,
  if◌then◌else◌, length, get_elem?, get_or, set, replicate, Bool-cases, eq_of_test, ne_of_test,
  get_or-set_self, get_or-set_ne,
}
use leka.Base.Outcome.{ok}
use leka.Order.{null}
use leka.Index.{Slot, empty_slot, get_slot}

abbrev pub at : List Slot → ℕ → Slot
at slots i = get_or slots i empty_slot

-- The slot holds an entry.
abbrev pub Taken : List Slot → ℕ → Type 0
Taken slots i = (at slots i).value ≢ null

get_elem?-at :
    (slots : List Slot) (i : ℕ) → i < length slots → get_elem? slots i ≡ some (at slots i)
get_elem?-at [] i h = absurd (omega arith)
get_elem?-at (s ∷ slots) zero h = refl
get_elem?-at (s ∷ slots) (suc i) h = get_elem?-at slots i (omega arith)

pub get_slot-ok :
    (slots : List Slot) (i : ℕ) → i < length slots → get_slot slots i ≡ ok (at slots i)
unfolding get_slot
get_slot-ok slots i h = rw (get_elem?-at slots i h, get_slot) refl

pub at-set :
    (slots : List Slot) (i x : ℕ) (s : Slot)
    → i < length slots
    → at (set slots i s) x ≡ (if x == i then s else at slots x)
at-set slots i x s h = elim (Bool-cases (x == i)) [
  | inl e ↦ rw (e, eq_of_test x i e) (get_or-set_self slots i s empty_slot h)
  | inr e ↦ rw e (get_or-set_ne slots i x s empty_slot (λ q. ne_of_test x i e (sym q)))
]

-- How many slots are taken.
unfoldable pub taken : List Slot → ℕ
taken [] = 0
taken (s ∷ slots) = (if s.value == null then 0 else 1) + taken slots

pub taken-set :
    (slots : List Slot) (i : ℕ) (s : Slot)
    → i < length slots
    → taken (set slots i s) + (if (at slots i).value == null then 0 else 1)
      ≡ taken slots + (if s.value == null then 0 else 1)
unfolding taken
taken-set [] i s h = absurd (omega arith)
taken-set (x ∷ slots) zero s h = omega arith
taken-set (x ∷ slots) (suc i) s h = omega (arith, taken-set slots i s (omega arith))

-- A table that is not full has a free slot.
pub free_slot_lem :
    (slots : List Slot)
    → taken slots < length slots
    → (e : ℕ) × (e < length slots) × ((at slots e).value ≡ null)
unfolding taken
free_slot_lem [] h = absurd (omega arith)
free_slot_lem (s ∷ slots) h = elim (Bool-cases (s.value == null)) [
  | inl e ↦ (0, omega arith, eq_of_test s.value null e)
  | inr e ↦ let (i, lt, free) = free_slot_lem slots (ground arith) in (suc i, omega arith, free)
]

pub taken-replicate : (n : ℕ) → taken (replicate n empty_slot) ≡ 0
unfolding taken
taken-replicate zero = refl
taken-replicate (suc n) = omega (arith, taken-replicate n)

pub at-replicate : (n i : ℕ) → at (replicate n empty_slot) i ≡ empty_slot
at-replicate zero i = refl
at-replicate (suc n) zero = refl
at-replicate (suc n) (suc i) = at-replicate n i
