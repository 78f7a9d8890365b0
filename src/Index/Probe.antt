-- ===== src/Index/Probe.antt =====
-- The loops of order_index.cpp that walk from a slot to the first one that meets a test.
use leka.Base.{
  ℕ, zero, suc, ◌+◌, ◌<◌, ◌≤◌, ◌≡◌, ◌≢◌, ap, ◌∙◌, inl, inr, Bool, true, false, List, arith, ◌^◌,
  ◌==◌, ◌||◌, if◌then◌else◌, length, Bool-cases, eq_of_test, ne_of_test,
}
use leka.Base.Outcome.{ok, throws, logic_error}
use leka.Types.{OrderId}
use leka.Order.{null}
use leka.Index.{Slot, next_slot, probe, free_slot, insert_probe}
use leka.Index.Cyclic.{steps, slots_in_table}
use leka.Index.Ring.{behind, behind-lt, steps_self, steps-lt, steps-behind, steps_injective}
use leka.Index.Slots.{at, get_slot-ok}

-- The first slot from `h` on, around the table, at which the test holds.
pub record IsFirstSlot (n h : ℕ) (p : ℕ → Bool) (i : ℕ) : Type 0 where
  pub inside : i < n
  pub here : p i ≡ true
  pub before : (x : ℕ) → x < n → steps n h x < steps n h i → p x ≡ false

module _ (n h : ℕ) (p : ℕ → Bool) (hh : h < n) where
  -- One more slot at which the test fails.
  pass :
      (j : ℕ)
      → j < n
      → steps n h j + 1 < n
      → p j ≡ false
      → ((x : ℕ) → x < n → steps n h x < steps n h j → p x ≡ false)
      → (x : ℕ) → x < n
      → steps n h x < steps n h (behind n j)
      → p x ≡ false
  pass j hj room fails before x hx lt = elim (Bool-cases (x == j)) [
    | inl e ↦ ap p (eq_of_test x j e) ∙ fails
    | inr e ↦ before x hx (
        ground (
          arith,
          steps-behind n h j hh hj room,
          steps_injective n h x j hh hx hj,
          ne_of_test x j e,
        ))
  ]

  first_from :
      (fuel e j : ℕ)
      → e < n
      → p e ≡ true
      → j < n
      → steps n h j ≤ steps n h e
      → steps n h e < fuel + steps n h j
      → ((x : ℕ) → x < n → steps n h x < steps n h j → p x ≡ false)
      → (i : ℕ) × IsFirstSlot n h p i
  first_from zero e j he pe hj le lt before = absurd (omega arith)
  first_from (suc fuel) e j he pe hj le lt before = elim (Bool-cases (p j)) [
    | inl t ↦ (j, record { inside = hj; here = t; before = before })
    | inr f ↦
        let apart : steps n h j ≢ steps n h e =
          λ q. ground (arith, ap p (steps_injective n h j e hh hj he q)) in
        let room : steps n h j + 1 < n = omega (arith, steps-lt n h e hh he) in
        let next = steps-behind n h j hh hj room in
        first_from fuel e (behind n j) he pe (behind-lt n j hj) (omega arith) (omega arith)
          (pass j hj room f before)
  ]

  pub IsFirstSlot-of : (e : ℕ) → e < n → p e ≡ true → (i : ℕ) × IsFirstSlot n h p i
  IsFirstSlot-of e he pe =
      first_from (suc n) e h he pe hh (omega (arith, steps_self n h h hh hh))
        (omega (arith, steps-lt n h e hh he))
        (λ x hx lt. absurd (omega (arith, steps_self n h h hh hh)))

-- The tests of the three loops.
abbrev pub is_free : List Slot → ℕ → Bool
is_free slots i = (at slots i).value == null

abbrev pub stops : OrderId → List Slot → ℕ → Bool
stops id slots i = is_free slots i || (at slots i).key == id

module _ (hash : ℕ → ℕ) (k : ℕ) (slots : List Slot) (sized : length slots ≡ 2 ^ k) (h : ℕ)
    (hh : h < length slots) where
  next_lem : (j : ℕ) → j < length slots → next_slot slots j ≡ behind (length slots) j
  next_lem j hj = (slots_in_table hash slots k 0 j sized hj).1

  -- A step of a loop that goes on at `j` takes it closer to its end `i`.
  closer :
      (i j fuel : ℕ)
      → i < length slots
      → j < length slots
      → j ≢ i
      → steps (length slots) h j ≤ steps (length slots) h i
      → steps (length slots) h i < suc fuel + steps (length slots) h j
      → (steps (length slots) h (behind (length slots) j) ≤ steps (length slots) h i)
        × (steps (length slots) h i < fuel + steps (length slots) h (behind (length slots) j))
  closer i j fuel hi hj ne le lt =
      let apart : steps (length slots) h j ≢ steps (length slots) h i =
        λ q. ne (steps_injective (length slots) h j i hh hj hi q) in
      let room : steps (length slots) h j + 1 < length slots =
        omega (arith, steps-lt (length slots) h i hh hi) in
      omega (arith, steps-behind (length slots) h j hh hj room)

  before_of :
      (p : ℕ → Bool) (i j : ℕ)
      → IsFirstSlot (length slots) h p i
      → j < length slots
      → j ≢ i
      → steps (length slots) h j ≤ steps (length slots) h i
      → p j ≡ false
  before_of p i j f hj ne le =
      let apart : steps (length slots) h j ≢ steps (length slots) h i =
        λ q. ne (steps_injective (length slots) h j i hh hj f.inside q) in
      f.before j hj (omega arith)

  pub probe_runs :
      (id : OrderId) (i fuel j : ℕ)
      → IsFirstSlot (length slots) h (stops id slots) i
      → j < length slots
      → steps (length slots) h j ≤ steps (length slots) h i
      → steps (length slots) h i < fuel + steps (length slots) h j
      → probe hash fuel slots id j ≡ ok i
  unfolding probe
  probe_runs id i zero j f hj le lt = absurd (omega arith)
  probe_runs id i (suc fuel) j f hj le lt = elim (Bool-cases (j == i)) [
    | inl e ↦
        let q = eq_of_test j i e in
        ground (arith, get_slot-ok slots j hj, ap (stops id slots) q, f.here)
    | inr e ↦
        let ne = ne_of_test j i e in
        let (le', lt') = closer i j fuel f.inside hj ne le lt in
        ground (
          arith,
          get_slot-ok slots j hj,
          before_of (stops id slots) i j f hj ne le,
          next_lem j hj,
          probe_runs id i fuel (behind (length slots) j) f (behind-lt (length slots) j hj) le' lt',
        )
  ]

  pub free_slot_runs :
      (i fuel j : ℕ)
      → IsFirstSlot (length slots) h (is_free slots) i
      → j < length slots
      → steps (length slots) h j ≤ steps (length slots) h i
      → steps (length slots) h i < fuel + steps (length slots) h j
      → free_slot hash fuel slots j ≡ ok i
  unfolding free_slot
  free_slot_runs i zero j f hj le lt = absurd (omega arith)
  free_slot_runs i (suc fuel) j f hj le lt = elim (Bool-cases (j == i)) [
    | inl e ↦
        let q = eq_of_test j i e in
        ground (arith, get_slot-ok slots j hj, ap (is_free slots) q, f.here)
    | inr e ↦
        let ne = ne_of_test j i e in
        let (le', lt') = closer i j fuel f.inside hj ne le lt in
        ground (
          arith,
          get_slot-ok slots j hj,
          before_of (is_free slots) i j f hj ne le,
          next_lem j hj,
          free_slot_runs i fuel (behind (length slots) j) f (behind-lt (length slots) j hj) le' lt',
        )
  ]

  pub insert_probe_runs :
      (id : OrderId) (i fuel j : ℕ)
      → IsFirstSlot (length slots) h (stops id slots) i
      → j < length slots
      → steps (length slots) h j ≤ steps (length slots) h i
      → steps (length slots) h i < fuel + steps (length slots) h j
      → insert_probe hash fuel slots id j ≡ (if is_free slots i then ok i else throws logic_error)
  unfolding insert_probe
  insert_probe_runs id i zero j f hj le lt = absurd (omega arith)
  insert_probe_runs id i (suc fuel) j f hj le lt = elim (Bool-cases (j == i)) [
    | inl e ↦
        let q = eq_of_test j i e in
        ground (arith, get_slot-ok slots j hj, ap (stops id slots) q, ap (is_free slots) q, f.here)
    | inr e ↦
        let ne = ne_of_test j i e in
        let (le', lt') = closer i j fuel f.inside hj ne le lt in
        ground (
          arith,
          get_slot-ok slots j hj,
          before_of (stops id slots) i j f hj ne le,
          next_lem j hj,
          insert_probe_runs id i fuel (behind (length slots) j) f (behind-lt (length slots) j hj)
              le' lt',
        )
  ]
