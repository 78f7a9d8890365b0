-- ===== src/Index/Table.antt =====
-- What the table of order_index.cpp satisfies between calls, and what its lookup answers then.
use leka.Base.{
  ℕ, ◌*◌, ◌<◌, ◌≤◌, ◌≡◌, ◌≢◌, refl, sym, ap, ◌∙◌, inl, inr, some, List, [], ◌∷◌, arith, ◌^◌, ◌==◌,
  length, Bool-cases, eq_of_test, ne_of_test, ==_iff, dec_lt, if◌then◌else◌,
}
use leka.Base.Masks.{two_pow_pos}
use leka.Base.Outcome.{ok, throws, logic_error, ◌>>=◌}
use leka.Types.{OrderId}
use leka.Order.{Ptr, null}
use leka.Index.{Slot, Index, index_for, probe, find_slot, find_order, insert_probe}
use leka.Index.Cyclic.{steps, slots_in_table}
use leka.Index.Ring.{steps_self, steps-lt, steps_injective}
use leka.Index.Slots.{at, Taken, get_slot-ok, taken, free_slot_lem}
use leka.Index.Probe.{IsFirstSlot, IsFirstSlot-of, is_free, stops, probe_runs, insert_probe_runs}

-- The natural slot of a key.
abbrev pub home : (hash : ℕ → ℕ) → List Slot → OrderId → ℕ
home hash slots q = index_for hash q (length slots)

-- The first `n` slots hold exactly the entries of the map `m`, in which null stands for no entry,
-- and no slot on the way from an entry's natural slot to the entry is free.
pub record IsLaid (hash : ℕ → ℕ) (n : ℕ) (slots : List Slot) (m : OrderId → Ptr) : Type 0 where
  pub reach :
      (i x : ℕ)
      → i < n
      → x < n
      → Taken slots i
      → steps n (index_for hash (at slots i).key n) x
        < steps n (index_for hash (at slots i).key n) i
      → Taken slots x
  pub stored : (i : ℕ) → i < n → Taken slots i → m (at slots i).key ≡ (at slots i).value
  pub found :
      (q : OrderId)
      → m q ≢ null
      → (i : ℕ) × (i < n) × ((at slots i).key ≡ q) × ((at slots i).value ≡ m q)
  pub unique :
      (i j : ℕ)
      → i < n
      → j < n
      → Taken slots i
      → Taken slots j
      → (at slots i).key ≡ (at slots j).key
      → i ≡ j

-- A table of 2^k slots that holds the entries of the map.
pub record IsPlaced (hash : ℕ → ℕ) (k : ℕ) (slots : List Slot) (m : OrderId → Ptr) : Type 0 where
  pub sized : length slots ≡ 2 ^ k
  pub laid : IsLaid hash (length slots) slots m
  pub open laid use *

module _ (hash : ℕ → ℕ) (k : ℕ) (slots : List Slot) (m : OrderId → Ptr)
    (v : IsPlaced hash k slots m) where
  pub filled : 0 < length slots
  filled = omega (arith, v.sized, two_pow_pos k)

  pub home-lt : (q : OrderId) → home hash slots q < length slots
  home-lt q = (slots_in_table hash slots k q 0 v.sized filled).0

  module _ (id : OrderId) (i : ℕ)
      (f : IsFirstSlot (length slots) (home hash slots id) (stops id slots) i) where
    -- A slot with the key is no further on the way than the first stop.
    no_later :
        (j : ℕ)
        → j < length slots
        → (at slots j).key ≡ id
        → steps (length slots) (home hash slots id) i ≤ steps (length slots) (home hash slots id) j
    no_later j hj key =
        elim (dec_lt (steps (length slots) (home hash slots id) j)
          (steps (length slots) (home hash slots id) i)) [
            | yes lt ↦ absurd (ground (arith, f.before j hj lt, (==_iff (at slots j).key id).1 key))
            | no ge ↦ omega arith
          ]

    absent : (at slots i).value ≡ null → m id ≡ null
    absent free = elim (Bool-cases (m id == null)) [
      | inl e ↦ eq_of_test (m id) null e
      | inr e ↦
          let (j, hj, key, value) = v.found id (ne_of_test (m id) null e) in
          let taken_j : Taken slots j = ground (arith, ne_of_test (m id) null e) in
          elim (Bool-cases (j == i)) [
            | inl q ↦ absurd (taken_j (ap (λ x. (at slots x).value) (eq_of_test j i q) ∙ free))
            | inr q ↦
                let apart : steps (length slots) (home hash slots id) j
                    ≢ steps (length slots) (home hash slots id) i =
                  λ w. ne_of_test j i q (
                    steps_injective (length slots) (home hash slots id) j i (home-lt id) hj f.inside
                      w) in
                absurd
                  (v.reach j i hj f.inside taken_j (rw key (omega (arith, no_later j hj key))) free)
          ]
    ]

    pub found_value : (at slots i).value ≡ m id
    found_value = elim (Bool-cases ((at slots i).value == null)) [
      | inl e ↦ let free = eq_of_test (at slots i).value null e in free ∙ sym (absent free)
      | inr e ↦
          let here : (at slots i).key ≡ id =
            eq_of_test (at slots i).key id (ground (arith, f.here)) in
          sym (v.stored i f.inside (ne_of_test (at slots i).value null e)) ∙ ap m here
    ]

  pub stop_lem :
      (id : OrderId)
      → taken slots < length slots
      → (i : ℕ) × IsFirstSlot (length slots) (home hash slots id) (stops id slots) i
  stop_lem id room =
      let (e, he, free) = free_slot_lem slots room in
      IsFirstSlot-of (length slots) (home hash slots id) (stops id slots) (home-lt id) e he
        (ground (arith, (==_iff (at slots e).value null).1 free))

  -- The whole probe of a key.
  pub probe_lem :
      (id : OrderId) (i : ℕ)
      → IsFirstSlot (length slots) (home hash slots id) (stops id slots) i
      → probe hash (length slots) slots id (home hash slots id) ≡ ok i
  probe_lem id i f =
      probe_runs hash k slots v.sized (home hash slots id) (home-lt id) id i (length slots)
        (home hash slots id) f (home-lt id)
        (omega (
          arith,
          steps_self (length slots) (home hash slots id) (home hash slots id) (home-lt id)
              (home-lt id),
        ))
        (omega (arith, steps-lt (length slots) (home hash slots id) i (home-lt id) f.inside))

  pub insert_probe_lem :
      (id : OrderId) (i : ℕ)
      → IsFirstSlot (length slots) (home hash slots id) (stops id slots) i
      → insert_probe hash (length slots) slots id (home hash slots id)
        ≡ (if is_free slots i then ok i else throws logic_error)
  insert_probe_lem id i f =
      insert_probe_runs hash k slots v.sized (home hash slots id) (home-lt id) id i (length slots)
        (home hash slots id) f (home-lt id)
        (omega (
          arith,
          steps_self (length slots) (home hash slots id) (home hash slots id) (home-lt id)
              (home-lt id),
        ))
        (omega (arith, steps-lt (length slots) (home hash slots id) i (home-lt id) f.inside))

-- `findSlot` on a table with slots is the probe.
find_slot-probe :
    (hash : ℕ → ℕ) (id : OrderId) (slots : List Slot)
    → 0 < length slots
    → find_slot hash id slots
      ≡ (do index ← probe hash (length slots) slots id (home hash slots id); ok (some index))
unfolding find_slot
find_slot-probe hash id [] h = absurd (omega arith)
find_slot-probe hash id (s ∷ slots) h = refl

-- A table between calls: it has no slots yet, or no more than half of its 2^k slots are taken.
pub data Represents (hash : ℕ → ℕ) (t : Index) (m : OrderId → Ptr) : Type 0 where
  no_slots : t.slots ≡ [] → t.count ≡ 0 → ((q : OrderId) → m q ≡ null) → Represents hash t m
  with_slots :
      (k : ℕ)
      → IsPlaced hash k t.slots m
      → t.count ≡ taken t.slots
      → t.count * 2 ≤ length t.slots
      → Represents hash t m

pub find_slot_lem :
    (hash : ℕ → ℕ) (k : ℕ) (slots : List Slot) (m : OrderId → Ptr) (id : OrderId)
    → IsPlaced hash k slots m
    → taken slots < length slots
    → (i : ℕ) × (i < length slots)
      × (find_slot hash id slots ≡ ok (some i))
      × ((at slots i).value ≡ m id)
      × (m id ≢ null → (at slots i).key ≡ id)
find_slot_lem hash k slots m id v room =
    let (i, f) = stop_lem hash k slots m v id room in
    (
      i,
      f.inside,
      rw
          (
            find_slot-probe hash id slots (filled hash k slots m v),
            probe_lem hash k slots m v id i f,
          )
          refl,
      found_value hash k slots m v id i f,
      λ ne. ground (arith, f.here, found_value hash k slots m v id i f),
    )

-- On a table that represents a map, the lookup of any identifier ends within as many rounds as
-- there are slots, and answers what the map holds for it.
pub find_order_lem :
    (hash : ℕ → ℕ) (t : Index) (m : OrderId → Ptr) (id : OrderId)
    → Represents hash t m
    → find_order hash id t ≡ ok (m id)
unfolding find_order find_slot
find_order_lem hash t m id (no_slots e c empty) = rw (e, empty id) refl
find_order_lem hash t m id (with_slots k v c half) =
    let (i, hi, run, value, _) =
      find_slot_lem hash k t.slots m id v (omega (arith, filled hash k t.slots m v)) in
    rw (run, get_slot-ok t.slots i hi, value) refl
