-- ===== src/Pool/Slots.antt =====
-- The slots of one page of order_pool.cpp: its free list, and the flags of the taken slots.
use leka.Base.{
  ℕ, zero, suc, ◌+◌, ◌%◌, ◌<◌, ◌≡◌, ◌≢◌, refl, sym, ap, ◌∙◌, inl, inr, Bool, true, false, not, List,
  [], ◌∷◌, arith, ◌==◌, if◌then◌else◌, length, get_or, set, Bool-cases, eq_of_test, ne_of_test,
  ==_iff, get_or-set_self, get_or-set_ne, length-set, has, ◌∈◌, ◌∉◌, IsDistinct,
}
use leka.Types.{add_u64, sub_u64}
use leka.Pool.{page_size, slots_per_page}

-- The free list that starts at a slot; its end is the number of slots.
abbrev pub IsChain : (next_free : List ℕ) → ℕ → List ℕ → Type 0
IsChain next_free slot [] = slot ≡ slots_per_page
IsChain next_free slot (j ∷ js) = (slot ≡ j) × IsChain next_free (get_or next_free j 0) js

unfoldable pub taken_slots : List Bool → ℕ
taken_slots [] = 0
taken_slots (b ∷ flags) = (if b then 1 else 0) + taken_slots flags

-- What a page's members satisfy between calls, `free` being its free slots.
pub record IsSlots (next_free : List ℕ) (is_occupied : List Bool)
    (first_free free_count storage : ℕ) : Type 0 where
  pub free : List ℕ
  pub chain : IsChain next_free first_free free
  pub distinct : IsDistinct free
  pub inside : (j : ℕ) → j ∈ free → j < slots_per_page
  pub counted : free_count ≡ length free
  pub linked : length next_free ≡ slots_per_page
  pub flagged : length is_occupied ≡ slots_per_page
  pub flags : (j : ℕ) → j < slots_per_page → get_or is_occupied j true ≡ not (has j free)
  pub shared : length free + taken_slots is_occupied ≡ slots_per_page
  pub aligned : storage % page_size ≡ 0
  pub somewhere : 0 < storage

-- A write to a slot that is off the list.
pub IsChain-set :
    (next_free : List ℕ) (i j v : ℕ) (js : List ℕ)
    → j ∉ js
    → IsChain next_free i js
    → IsChain (set next_free j v) i js
IsChain-set next_free i j v [] out c = c
IsChain-set next_free i j v (k ∷ js) out (e, c) =
    let apart : j ≢ k = ne_of_test j k (ground arith) in
    (
      e,
      rw (get_or-set_ne next_free j k v 0 apart)
          (IsChain-set next_free (get_or next_free k 0) j v js (ground arith) c),
    )

taken_slots-set :
    (flags : List Bool) (j : ℕ) (b : Bool)
    → j < length flags
    → taken_slots (set flags j b) + (if get_or flags j true then 1 else 0)
      ≡ taken_slots flags + (if b then 1 else 0)
unfolding taken_slots
taken_slots-set [] j b h = absurd (omega arith)
taken_slots-set (f ∷ flags) zero b h = omega arith
taken_slots-set (f ∷ flags) (suc j) b h = omega (arith, taken_slots-set flags j b (omega arith))

module _ (next_free : List ℕ) (is_occupied : List Bool) (first_free free_count storage : ℕ)
    (v : IsSlots next_free is_occupied first_free free_count storage) where
  -- There is a free slot.
  pub first-free :
      free_count ≢ 0 → (first_free < slots_per_page) × (get_or is_occupied first_free true ≡ false)
  first-free some_free = go v.free v.chain v.inside v.flags (omega (arith, v.counted))
    where
      go :
          (free : List ℕ)
          → IsChain next_free first_free free
          → ((j : ℕ) → j ∈ free → j < slots_per_page)
          → ((j : ℕ) → j < slots_per_page → get_or is_occupied j true ≡ not (has j free))
          → length free ≢ 0
          → (first_free < slots_per_page) × (get_or is_occupied first_free true ≡ false)
      go [] c inside flags ne = absurd (ne refl)
      go (j ∷ js) (e, c) inside flags ne =
          let lt = inside first_free (rw ((==_iff first_free j).1 e) refl) in
          (lt, flags first_free lt ∙ rw ((==_iff first_free j).1 e) refl)

  pub take_slot-IsSlots :
      free_count ≢ 0
      → IsSlots next_free
          (set is_occupied first_free true)
          (get_or next_free first_free 0)
          (sub_u64 free_count 1)
          storage
  take_slot-IsSlots some_free = go v.free v.chain v.distinct v.inside v.counted v.flags v.shared
    where
      go :
          (free : List ℕ)
          → IsChain next_free first_free free
          → IsDistinct free
          → ((j : ℕ) → j ∈ free → j < slots_per_page)
          → free_count ≡ length free
          → ((j : ℕ) → j < slots_per_page → get_or is_occupied j true ≡ not (has j free))
          → length free + taken_slots is_occupied ≡ slots_per_page
          → IsSlots next_free
              (set is_occupied first_free true)
              (get_or next_free first_free 0)
              (sub_u64 free_count 1)
              storage
      go [] c distinct inside counted flags shared = absurd (some_free counted)
      go (j ∷ js) (e, c) (out, distinct) inside counted flags shared =
          let lt = inside j (rw ((==_iff j j).1 refl) refl) in
          let is_false : get_or is_occupied first_free true ≡ false = (first-free some_free).1 in
          let count = taken_slots-set is_occupied first_free true (omega (arith, v.flagged, lt)) in
          let count' : taken_slots (set is_occupied first_free true) + 0
              ≡ taken_slots is_occupied + 1 =
            rw is_false at count in
          record {
            free = js;
            chain = rw e c;
            distinct = distinct;
            inside = λ k m. inside k (ground arith);
            counted = omega (arith, shared);
            linked = v.linked;
            flagged = length-set is_occupied first_free true ∙ v.flagged;
            flags = λ k h. elim (Bool-cases (k == j)) [
              | inl q ↦
                  ap (λ x. get_or (set is_occupied first_free true) x true)
                    (eq_of_test k j q ∙ sym e)
                  ∙ get_or-set_self is_occupied first_free true true (omega (arith, v.flagged, lt))
                  ∙ sym (ap not (ap (λ x. has x js) (eq_of_test k j q) ∙ out))
              | inr q ↦
                  get_or-set_ne is_occupied first_free k true true
                    (λ w. ne_of_test k j q (sym w ∙ e))
                  ∙ flags k h
                  ∙ rw q refl
            ];
            shared = omega (arith, shared, count');
            aligned = v.aligned;
            somewhere = v.somewhere;
          }

  pub give_slot-IsSlots :
      (j : ℕ)
      → j < slots_per_page
      → get_or is_occupied j true ≡ true
      → (IsSlots
          (set next_free j first_free)
          (set is_occupied j false)
          j
          (add_u64 free_count 1)
          storage)
        × (free_count < slots_per_page)
  give_slot-IsSlots j lt taken =
      let out : j ∉ v.free = ground (arith, v.flags j lt) in
      let count = taken_slots-set is_occupied j false (omega (arith, v.flagged)) in
      let count' : taken_slots (set is_occupied j false) + 1 ≡ taken_slots is_occupied + 0 =
        rw taken at count in
      (
        record {
          free = j ∷ v.free;
          chain = (
            refl,
            rw (get_or-set_self next_free j first_free 0 (omega (arith, v.linked)))
                (IsChain-set next_free first_free j first_free v.free out v.chain),
          );
          distinct = (out, v.distinct);
          inside = λ k m. elim (Bool-cases (k == j)) [
            | inl q ↦ omega (arith, eq_of_test k j q)
            | inr q ↦ v.inside k (rw q at m)
          ];
          counted = omega (arith, v.counted, v.shared);
          linked = length-set next_free j first_free ∙ v.linked;
          flagged = length-set is_occupied j false ∙ v.flagged;
          flags = λ k h. elim (Bool-cases (k == j)) [
            | inl q ↦ rw q (
                ap (λ x. get_or (set is_occupied j false) x true) (eq_of_test k j q)
                ∙ get_or-set_self is_occupied j false true (omega (arith, v.flagged)))
            | inr q ↦ rw q (
                get_or-set_ne is_occupied j k false true (λ w. ne_of_test k j q (sym w))
                ∙ v.flags k h)
          ];
          shared = omega (arith, v.shared, count');
          aligned = v.aligned;
          somewhere = v.somewhere;
        },
        omega (arith, v.counted, v.shared, count'),
      )
