-- ===== src/Index/Removal.antt =====
-- `OrderIndex::removeOrder` against the map that the table stands for.
use leka.Base.{
  ℕ, zero, suc, ◌+◌, ◌<◌, ◌≤◌, ◌≡◌, ◌≢◌, ◌⊎◌, refl, sym, ap, subst, ◌∙◌, inl, inr, false, List,
  some, arith, ◌^◌, ◌==◌, ltb, leb, ◌&&◌, length, set, length-set, Bool-cases, eq_of_test,
  ne_of_test, ==_iff, test_of_ne,
}
use native.Mathlib.Nat.{mod-lt}
use leka.Base.Masks.{bit_and-mask, two_pow_pos}
use leka.Base.Outcome.{ok, throws, logic_error}
use leka.Types.{OrderId, u64_max, sub_u64}
use leka.Order.{Ptr, Order, null}
use leka.Memory.{Heap, load-ok}
use leka.Index.{
  Slot, Index, empty_slot, in_cyclic_range, index_for, shift_back, next_slot, find_slot,
  remove_order,
}
use leka.Index.Cyclic.{steps, in_cyclic_range-steps, slots_in_table}
use leka.Index.Ring.{behind, behind-lt, steps_self, steps-lt, steps_zero, steps-behind}
use leka.Index.Slots.{at, Taken, at-set, get_slot-ok, taken, taken-set, free_slot_lem}
use leka.Index.Table.{IsLaid, IsPlaced, Represents, no_slots, with_slots, find_slot_lem, filled}
use leka.Index.Insertion.{update_map}
use leka.Index.Shift.{
  IsShifting, settled, closer, keep-IsShifting, move-IsShifting, moved, taken-moved,
}

home_bound : (hash : ℕ → ℕ) (k n : ℕ) → n ≡ 2 ^ k → (q : OrderId) → index_for hash q n < n
unfolding index_for
home_bound hash k n e q = rw (e, bit_and-mask (hash q) k) (mod-lt (hash q) (two_pow_pos k))

not_between : (a b : ℕ) → (ltb 0 a && leb a b) ≡ false → (a ≡ 0) ⊎ (b < a)
not_between a b h = elim (Bool-cases (a == 0)) [
  | inl z ↦ inl (eq_of_test a 0 z)
  | inr z ↦ inr (ground arith)
]

-- What the loop leaves.
record Closed (hash : ℕ → ℕ) (n : ℕ) (slots : List Slot) (m : OrderId → Ptr) (r : List Slot)
    : Type 0 where
  len : length r ≡ n
  laid : IsLaid hash n r m
  same : taken r ≡ taken slots

module _ (hash : ℕ → ℕ) (k n : ℕ) (pow : n ≡ 2 ^ k) (m : OrderId → Ptr) (e : ℕ) where
  shift_back-Closed :
      (fuel : ℕ) (slots : List Slot) (v j : ℕ)
      → IsShifting hash n slots m v j e
      → steps n j e < fuel
      → (r : List Slot) × (shift_back hash fuel slots v j ≡ ok r) × Closed hash n slots m r
  unfolding shift_back
  shift_back-Closed zero slots v j s lt = absurd (omega arith)
  shift_back-Closed (suc fuel) slots v j s lt =
      let hb = home_bound hash k n pow in
      let in_j : j < length slots = omega (arith, s.len, s.scan_in) in
      let next : next_slot slots j ≡ behind n j =
        (slots_in_table hash slots k 0 j (s.len ∙ pow) in_j).1 ∙ ap (λ x. behind x j) s.len in
      let key = index_for hash (at slots j).key n in
      let range = in_cyclic_range-steps key v j n (hb (at slots j).key) s.hole_in s.scan_in in
      elim (Bool-cases ((at slots j).value == null)) [
        | inl f ↦ (
          slots,
          rw (shift_back, get_slot-ok slots j in_j, f) refl,
          record {
            len = s.len;
            laid = settled hash n hb slots m v j e s (eq_of_test (at slots j).value null f);
            same = refl;
          },
        )
        | inr f ↦
            let here = ne_of_test (at slots j).value null f in
            let near = closer hash n hb slots m v j e s here in
            elim (Bool-cases (in_cyclic_range key v j)) [
              | inl c ↦
                  let (r, run, closed) =
                    shift_back-Closed fuel slots v (behind n j)
                      (keep-IsShifting hash n hb slots m v j e s here (ground (arith, range))
                        (ground (arith, range)))
                      (omega (arith, near)) in
                  (r, rw (shift_back, get_slot-ok slots j in_j, f, s.len, c, next) run, closed)
              | inr c ↦
                  let (r, run, closed) =
                    shift_back-Closed fuel (moved hash n hb slots m v j e s here) j (behind n j)
                      (move-IsShifting hash n hb slots m v j e s here
                        (not_between (steps n v key) (steps n v j) (sym range ∙ c)))
                      (omega (arith, near)) in
                  (
                    r,
                    rw (shift_back, get_slot-ok slots j in_j, f, s.len, c, next) run,
                    record {
                      len = closed.len;
                      laid = closed.laid;
                      same = closed.same ∙ taken-moved hash n hb slots m v j e s here;
                    },
                  )
            ]
      ]

-- The table in which the slot of a key has just been emptied.
module _ (hash : ℕ → ℕ) (k : ℕ) (slots : List Slot) (m : OrderId → Ptr) (id : OrderId) (i e : ℕ)
    (v : IsPlaced hash k slots m) (hi : i < length slots) (key : (at slots i).key ≡ id)
    (there : Taken slots i) (he : e < length slots) (gap : (at slots e).value ≡ null) where
  abbrev emptied : List Slot
  emptied = set slots i empty_slot

  at_hole : at emptied i ≡ empty_slot
  at_hole = at-set slots i i empty_slot hi ∙ rw ((==_iff i i).1 refl) refl

  at_rest : (x : ℕ) → x ≢ i → at emptied x ≡ at slots x
  at_rest x ne = at-set slots i x empty_slot hi ∙ rw (test_of_ne x i ne) refl

  rest : (x : ℕ) → Taken emptied x → (x ≢ i) × (at emptied x ≡ at slots x) × Taken slots x
  rest x t =
      let ne : x ≢ i = λ w. t (ap (λ y. (at emptied y).value) w ∙ ap (λ y. y.value) at_hole) in
      (ne, at_rest x ne, λ w. t (ap (λ y. y.value) (at_rest x ne) ∙ w))

  e_ne : e ≢ i
  e_ne w = there (ap (λ y. (at slots y).value) (sym w) ∙ gap)

  one : steps (length slots) i (behind (length slots) i) ≡ 1
  one =
      let z = steps_self (length slots) i i hi hi in
      let two : steps (length slots) i i + 1 < length slots = omega (arith, z, e_ne) in
      omega (arith, steps-behind (length slots) i i hi hi two, z)

  start-IsShifting :
      IsShifting hash (length slots) emptied (update_map m id null) i (behind (length slots) i) e
  start-IsShifting =
      let apart : steps (length slots) i e ≢ 0 =
        λ w. e_ne (sym (steps_zero (length slots) i e hi he w)) in
      record {
        len = length-set slots i empty_slot;
        hole_in = hi;
        scan_in = behind-lt (length slots) i hi;
        gap_in = he;
        hole = ap (λ y. y.value) at_hole;
        gap = ap (λ y. y.value) (at_rest e e_ne) ∙ gap;
        ahead = omega (arith, one);
        gap_ahead = omega (arith, one);
        reach = λ a x ha hx t lt ne w.
            let (na, same, ta) = rest a t in
            v.reach a x ha hx ta (rw same at lt) (ap (λ y. y.value) (sym (at_rest x ne)) ∙ w);
        passed = λ a ha t lt.
            absurd ((rest a t).0 (sym (steps_zero (length slots) i a hi ha (omega (arith, one)))));
        stored = λ a ha t.
            let (na, same, ta) = rest a t in
            let other : (at slots a).key ≢ id =
              λ w. na (v.unique a i ha hi ta there (w ∙ sym key)) in
            rw (same, test_of_ne (at slots a).key id other) (v.stored a ha ta);
        found = λ q h. elim (Bool-cases (q == id)) [
          | inl w ↦ absurd (h (rw w refl))
          | inr w ↦
              let (a, ha, kq, value) = v.found q (λ z. h (rw w z)) in
              let na : a ≢ i =
                λ z. ne_of_test q id w (sym kq ∙ ap (λ y. (at slots y).key) z ∙ key) in
              (
                a,
                ha,
                ap (λ y. y.key) (at_rest a na) ∙ kq,
                rw w (ap (λ y. y.value) (at_rest a na) ∙ value),
              )
        ];
        unique = λ a b ha hb ta tb w.
            let (na, sa, ta') = rest a ta in
            let (nb, sb, tb') = rest b tb in
            v.unique a b ha hb ta' tb' (ap (λ y. y.key) (sym sa) ∙ w ∙ ap (λ y. y.key) sb);
      }

  taken-emptied : taken emptied + 1 ≡ taken slots
  taken-emptied =
      ground (arith, taken-set slots i empty_slot hi, test_of_ne (at slots i).value null there)

  -- The table without the entry.
  pub removed :
      (r : List Slot) × (shift_back hash (length emptied) emptied i (next_slot emptied i) ≡ ok r)
      × IsPlaced hash k r (update_map m id null)
      × (taken r + 1 ≡ taken slots)
      × (length r ≡ length slots)
  removed =
      let len = length-set slots i empty_slot in
      let next : next_slot emptied i ≡ behind (length slots) i =
        (slots_in_table hash emptied k 0 i (len ∙ v.sized) (omega (arith, len))).1
        ∙ ap (λ x. behind x i) len in
      let (r, run, closed) =
        shift_back-Closed hash k (length slots) v.sized (update_map m id null) e (length slots)
          emptied i (behind (length slots) i) start-IsShifting
          (steps-lt (length slots) (behind (length slots) i) e (behind-lt (length slots) i hi)
            he) in
      (
        r,
        rw (next, len) run,
        record {
          sized = closed.len ∙ v.sized;
          laid = subst (λ n. IsLaid hash n r (update_map m id null)) (sym closed.len) closed.laid;
        },
        omega (arith, closed.same, taken-emptied),
        closed.len,
      )

module _ (hash : ℕ → ℕ) (t : Index) (m : OrderId → Ptr) (p : Ptr) (h : Heap) (o : Order) where
  -- If a table represents a map that has an order's pointer, other than null, under the order's
  -- identifier, and its count is a 64-bit number, then the removal of the order succeeds,
  -- backward shift included: the table represents the map without the entry and counts one less.
  pub remove_order-Represents :
      Represents hash t m
      → h p ≡ some o
      → p ≢ null
      → m o.order_id ≡ p
      → t.count ≤ u64_max
      → (t' : Index) × (remove_order hash p h t ≡ ok t')
        × Represents hash t' (update_map m o.order_id null)
        × (t'.count + 1 ≡ t.count)
  unfolding remove_order
  remove_order-Represents (no_slots e c none_there) at_p ne mapped small =
      absurd (ne (sym mapped ∙ none_there o.order_id))
  remove_order-Represents (with_slots k v c half) at_p ne mapped small =
      let room : taken t.slots < length t.slots = omega (arith, filled hash k t.slots m v) in
      let (i, hi, run, value, key) = find_slot_lem hash k t.slots m o.order_id v room in
      let (e, he, gap) = free_slot_lem t.slots room in
      let there : Taken t.slots i = λ w. ne (sym mapped ∙ sym value ∙ w) in
      let (r, shifted, placed, fewer, len) =
        removed hash k t.slots m o.order_id i e v hi (key (λ w. ne (sym mapped ∙ w))) there he
          gap in
      let less : sub_u64 t.count 1 + 1 ≡ t.count = omega (arith, fewer) in
      (
        record { slots = r; count = sub_u64 t.count 1 },
        rw
            (
              test_of_ne p null ne,
              load-ok h p at_p,
              run,
              get_slot-ok t.slots i hi,
              value,
              mapped,
              test_of_ne p null ne,
              (==_iff p p).1 refl,
              shifted,
            )
            refl,
        with_slots k placed (omega (arith, fewer, less)) (omega (arith, less, len)),
        less,
      )

  -- On a table that represents a map, the removal of an order whose pointer, other than null, is
  -- not the one under its identifier, be there another one or none, throws logic_error.
  pub remove_order-throws :
      Represents hash t m
      → h p ≡ some o
      → p ≢ null
      → m o.order_id ≢ p
      → remove_order hash p h t ≡ throws logic_error
  unfolding remove_order find_slot
  remove_order-throws (no_slots e c none_there) at_p ne other =
      rw (test_of_ne p null ne, load-ok h p at_p, e) refl
  remove_order-throws (with_slots k v c half) at_p ne other =
      let room : taken t.slots < length t.slots = omega (arith, filled hash k t.slots m v) in
      let (i, hi, run, value, key) = find_slot_lem hash k t.slots m o.order_id v room in
      elim (Bool-cases (m o.order_id == null)) [
        | inl z ↦
            rw (test_of_ne p null ne, load-ok h p at_p, run, get_slot-ok t.slots i hi, value, z)
              refl
        | inr z ↦
            rw
              (
                test_of_ne p null ne,
                load-ok h p at_p,
                run,
                get_slot-ok t.slots i hi,
                value,
                z,
                test_of_ne (m o.order_id) p other,
              )
              refl
      ]
