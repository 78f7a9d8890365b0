-- ===== src/Index/Shift.antt =====
-- The loop of backward-shift deletion: what holds of the table while a hole moves through it.
use leka.Base.{
  ℕ, ◌+◌, ◌<◌, ◌≤◌, ◌≡◌, ◌≢◌, ◌⊎◌, refl, sym, ap, subst, dec_lt, ◌∙◌, inl, inr, List, arith, ◌==◌,
  if◌then◌else◌, length, set, length-set, Bool-cases, eq_of_test, ne_of_test, ==_iff, test_of_ne,
}
use leka.Types.{OrderId}
use leka.Order.{Ptr, null}
use leka.Index.{Slot, empty_slot, index_for}
use leka.Index.Cyclic.{steps}
use leka.Index.Ring.{
  behind, behind-lt, steps_self, steps-lt, steps_zero, steps-behind, behind-steps, steps_injective,
  off_way, on_way, on_way_trans,
}
use leka.Index.Slots.{at, Taken, at-set, taken, taken-set}
use leka.Index.Table.{IsLaid}

-- The slot `v` is the hole, and the loop looks at slot `j`. Only the hole may be free on the way to
-- an entry, and it is not on the way to one that the loop has passed. `e` is a free slot ahead.
pub record IsShifting (hash : ℕ → ℕ) (n : ℕ) (slots : List Slot) (m : OrderId → Ptr) (v j e : ℕ)
    : Type 0 where
  pub len : length slots ≡ n
  pub hole_in : v < n
  pub scan_in : j < n
  pub gap_in : e < n
  pub hole : (at slots v).value ≡ null
  pub gap : (at slots e).value ≡ null
  pub ahead : 0 < steps n v j
  pub gap_ahead : steps n v j ≤ steps n v e
  pub reach :
      (i x : ℕ)
      → i < n
      → x < n
      → Taken slots i
      → steps n (index_for hash (at slots i).key n) x
        < steps n (index_for hash (at slots i).key n) i
      → x ≢ v
      → Taken slots x
  pub passed :
      (i : ℕ)
      → i < n
      → Taken slots i
      → steps n v i < steps n v j
      → steps n (index_for hash (at slots i).key n) i
        ≤ steps n (index_for hash (at slots i).key n) v
  pub stored : (i : ℕ) → i < n → Taken slots i → m (at slots i).key ≡ (at slots i).value
  pub found :
      (q : OrderId)
      → m q ≢ null
      → (i : ℕ) × (i < n) × ((at slots i).key ≡ q) × ((at slots i).value ≡ m q)
  pub unique :
      (a b : ℕ)
      → a < n
      → b < n
      → Taken slots a
      → Taken slots b
      → (at slots a).key ≡ (at slots b).key
      → a ≡ b

module _ (hash : ℕ → ℕ) (n : ℕ) (home-lt : (q : OrderId) → index_for hash q n < n)
    (slots : List Slot) (m : OrderId → Ptr) (v j e : ℕ) (s : IsShifting hash n slots m v j e) where
  abbrev pub home_of : ℕ → ℕ
  home_of i = index_for hash (at slots i).key n

  v_ne : v ≢ j
  v_ne q = ground (arith, s.ahead, ap (steps n v) q, steps_self n v v s.hole_in s.hole_in)

  -- At a free slot the loop is done.
  pub settled : (at slots j).value ≡ null → IsLaid hash n slots m
  settled free = record {
    reach = λ i x hi hx t lt. elim (Bool-cases (x == v)) [
      | inr q ↦ s.reach i x hi hx t lt (ne_of_test x v q)
      | inl q ↦
          let h = home_of i in
          let through : steps n h v < steps n h i = rw (eq_of_test x v q) at lt in
          let apart : steps n v j ≢ steps n v i = λ w. t (
            ap (λ y. (at slots y).value) (sym (steps_injective n v j i s.hole_in s.scan_in hi w))
            ∙ free) in
          let later : steps n v j ≤ steps n v i = elim (dec_lt (steps n v i) (steps n v j)) [
            | yes near ↦ absurd (omega (arith, through, s.passed i hi t near))
            | no far ↦ omega arith
          ] in
          absurd (
            s.reach i j hi s.scan_in t
              (on_way_trans n h v j i (home-lt (at slots i).key) s.hole_in s.scan_in hi through
                (omega arith))
              (λ w. v_ne (sym w)) free)
    ];
    stored = s.stored;
    found = s.found;
    unique = s.unique;
  }

  module _ (here : Taken slots j) where
    before_gap : j ≢ e
    before_gap q = here (ap (λ y. (at slots y).value) q ∙ s.gap)

    strictly : steps n v j < steps n v e
    strictly =
        let apart : steps n v j ≢ steps n v e =
          λ w. before_gap (steps_injective n v j e s.hole_in s.scan_in s.gap_in w) in
        omega (arith, s.gap_ahead)

    next_eq : steps n v (behind n j) ≡ steps n v j + 1
    next_eq =
        steps-behind n v j s.hole_in s.scan_in
          (omega (arith, strictly, steps-lt n v e s.hole_in s.gap_in))

    -- The gap comes closer.
    pub closer : steps n (behind n j) e + 1 ≡ steps n j e
    closer = behind-steps n e j s.gap_in s.scan_in before_gap

    -- An entry that the hole would cut off from its natural slot stays.
    pub keep-IsShifting :
        0 < steps n v (home_of j)
        → steps n v (home_of j) ≤ steps n v j
        → IsShifting hash n slots m v (behind n j) e
    keep-IsShifting a b = record {
      len = s.len;
      hole_in = s.hole_in;
      scan_in = behind-lt n j s.scan_in;
      gap_in = s.gap_in;
      hole = s.hole;
      gap = s.gap;
      ahead = omega (arith, next_eq);
      gap_ahead = omega (arith, next_eq, strictly);
      reach = s.reach;
      passed = λ i hi t lt. elim (Bool-cases (i == j)) [
        | inl q ↦
            subst (λ y. steps n (home_of y) y ≤ steps n (home_of y) v) (sym (eq_of_test i j q))
              (off_way n (home_of j) v j (home-lt (at slots j).key) s.hole_in s.scan_in a b)
        | inr q ↦
            let apart : steps n v i ≢ steps n v j =
              λ w. ne_of_test i j q (steps_injective n v i j s.hole_in hi s.scan_in w) in
            s.passed i hi t (omega (arith, next_eq))
      ];
      stored = s.stored;
      found = s.found;
      unique = s.unique;
    }

    abbrev pub moved : List Slot
    moved = set (set slots v (at slots j)) j empty_slot

    in_v : v < length slots
    in_v = omega (arith, s.len, s.hole_in)

    in_j : j < length (set slots v (at slots j))
    in_j = omega (arith, s.len, s.scan_in, length-set slots v (at slots j))

    at-moved :
        (x : ℕ)
        → at moved x ≡ (if x == j then empty_slot else if x == v then at slots j else at slots x)
    at-moved x =
        at-set (set slots v (at slots j)) j x empty_slot in_j
        ∙ ap (λ y. if x == j then empty_slot else y) (at-set slots v x (at slots j) in_v)

    at_v : at moved v ≡ at slots j
    at_v = at-moved v ∙ rw (test_of_ne v j v_ne, (==_iff v v).1 refl) refl

    at_j : at moved j ≡ empty_slot
    at_j = at-moved j ∙ rw ((==_iff j j).1 refl) refl

    at_else : (x : ℕ) → x ≢ j → x ≢ v → at moved x ≡ at slots x
    at_else x a b = at-moved x ∙ rw (test_of_ne x j a, test_of_ne x v b) refl

    -- Where the entry of a slot came from.
    origin :
        (x : ℕ)
        → Taken moved x
        → ((x ≡ v) × (at moved x ≡ at slots j))
          ⊎ ((x ≢ v) × (x ≢ j) × (at moved x ≡ at slots x) × Taken slots x)
    origin x t = elim (Bool-cases (x == v)) [
      | inl q ↦ inl (eq_of_test x v q, ap (at moved) (eq_of_test x v q) ∙ at_v)
      | inr q ↦
          let a = ne_of_test x v q in
          let b : x ≢ j = λ w. t (ap (λ y. (at moved y).value) w ∙ ap (λ y. y.value) at_j) in
          let same = at_else x b a in inr (a, b, same, λ w. t (ap (λ y. y.value) same ∙ w))
    ]

    -- A slot that was taken still is, but for the new hole.
    still : (x : ℕ) → x ≢ j → Taken slots x → Taken moved x
    still x a t w = elim (Bool-cases (x == v)) [
      | inl q ↦
          here (
            ap (λ y. y.value) (sym at_v)
            ∙ ap (λ y. (at moved y).value) (sym (eq_of_test x v q))
            ∙ w)
      | inr q ↦ t (ap (λ y. y.value) (sym (at_else x a (ne_of_test x v q))) ∙ w)
    ]

    still_v : Taken moved v
    still_v w = here (ap (λ y. y.value) (sym at_v) ∙ w)

    moved_found :
        (q : OrderId)
        → m q ≢ null
        → (i : ℕ) × (i < n) × ((at moved i).key ≡ q) × ((at moved i).value ≡ m q)
    moved_found q h =
        let (i, hi, key, value) = s.found q h in
        elim (Bool-cases (i == j)) [
          | inl w ↦
              let same = ap (at slots) (eq_of_test i j w) in
              (
                v,
                s.hole_in,
                ap (λ y. y.key) at_v ∙ ap (λ y. y.key) (sym same) ∙ key,
                ap (λ y. y.value) at_v ∙ ap (λ y. y.value) (sym same) ∙ value,
              )
          | inr w ↦
              let off : i ≢ v = λ z. h (sym value ∙ ap (λ y. (at slots y).value) z ∙ s.hole) in
              let same = at_else i (ne_of_test i j w) off in
              (i, hi, ap (λ y. y.key) same ∙ key, ap (λ y. y.value) same ∙ value)
        ]

    moved_unique :
        (a b : ℕ)
        → a < n
        → b < n
        → Taken moved a
        → Taken moved b
        → (at moved a).key ≡ (at moved b).key
        → a ≡ b
    moved_unique a b ha hb ta tb e = elim (origin a ta) [
      | inl (qa, ea) ↦ elim (origin b tb) [
        | inl (qb, eb) ↦ qa ∙ sym qb
        | inr (nv, nj, eb, tb') ↦ absurd (
            nj (
              sym (
                s.unique j b s.scan_in hb here tb'
                  (ap (λ y. y.key) (sym ea) ∙ e ∙ ap (λ y. y.key) eb))))
      ]
      | inr (nv, nj, ea, ta') ↦ elim (origin b tb) [
        | inl (qb, eb) ↦ absurd (
            nj (
              s.unique a j ha s.scan_in ta' here
                (ap (λ y. y.key) (sym ea) ∙ e ∙ ap (λ y. y.key) eb)))
        | inr (mv, mj, eb, tb') ↦
            s.unique a b ha hb ta' tb' (ap (λ y. y.key) (sym ea) ∙ e ∙ ap (λ y. y.key) eb)
      ]
    ]

    moved_stored : (i : ℕ) → i < n → Taken moved i → m (at moved i).key ≡ (at moved i).value
    moved_stored i hi t = elim (origin i t) [
      | inl (q, same) ↦ rw same (s.stored j s.scan_in here)
      | inr (nv, nj, same, t') ↦ rw same (s.stored i hi t')
    ]

    module _ (cut : (steps n v (home_of j) ≡ 0) ⊎ (steps n v j < steps n v (home_of j))) where
      moved_reach :
          (i x : ℕ)
          → i < n
          → x < n
          → Taken moved i
          → steps n (index_for hash (at moved i).key n) x
            < steps n (index_for hash (at moved i).key n) i
          → x ≢ j
          → Taken moved x
      moved_reach i x hi hx t lt ne = elim (origin i t) [
        | inl (q, same) ↦
            let near : steps n (home_of j) x < steps n (home_of j) v = rw q at (rw same at lt) in
            let far : steps n (home_of j) v < steps n (home_of j) j =
              on_way n (home_of j) v j (home-lt (at slots j).key) s.hole_in s.scan_in v_ne cut in
            still x ne (
              s.reach j x s.scan_in hx here (omega (arith, near, far))
                (λ w. omega (arith, ap (steps n (home_of j)) w, near)))
        | inr (nv, nj, same, t') ↦ elim (Bool-cases (x == v)) [
          | inl w ↦ subst (Taken moved) (sym (eq_of_test x v w)) still_v
          | inr w ↦ still x ne (s.reach i x hi hx t' (rw same at lt) (ne_of_test x v w))
        ]
      ]

      pub move-IsShifting : IsShifting hash n moved m j (behind n j) e
      move-IsShifting =
          let two : steps n j j + 1 < n = omega (
            arith,
            steps_self n j j s.scan_in s.scan_in,
            s.ahead,
            steps-lt n v j s.hole_in s.scan_in,
          ) in
          let one : steps n j (behind n j) ≡ 1 = omega (
            arith,
            steps-behind n j j s.scan_in s.scan_in two,
            steps_self n j j s.scan_in s.scan_in,
          ) in
          let off : e ≢ v =
            λ w. omega (arith, ap (steps n v) w, strictly, steps_self n v v s.hole_in s.hole_in) in
          let apart : steps n j e ≢ 0 = λ w. before_gap (steps_zero n j e s.scan_in s.gap_in w) in
          let nonzero : 0 < steps n j e = omega arith in
          record {
            len =
                length-set (set slots v (at slots j)) j empty_slot
                ∙ length-set slots v (at slots j)
                ∙ s.len;
            hole_in = s.scan_in;
            scan_in = behind-lt n j s.scan_in;
            gap_in = s.gap_in;
            hole = ap (λ y. y.value) at_j;
            gap = ap (λ y. y.value) (at_else e (λ w. before_gap (sym w)) off) ∙ s.gap;
            ahead = omega (arith, one);
            gap_ahead = omega (arith, one, nonzero);
            reach = moved_reach;
            passed = λ i hi t lt.
                let z : steps n j i ≡ 0 = omega (arith, one) in
                absurd (
                  t (
                    ap (λ y. (at moved y).value) (sym (steps_zero n j i s.scan_in hi z))
                    ∙ ap (λ y. y.value) at_j));
            stored = moved_stored;
            found = moved_found;
            unique = moved_unique;
          }

    pub taken-moved : taken moved ≡ taken slots
    taken-moved =
        let kept : at (set slots v (at slots j)) j ≡ at slots j =
          at-set slots v j (at slots j) in_v ∙ rw (test_of_ne j v (λ w. v_ne (sym w))) refl in
        ground (
          arith,
          taken-set slots v (at slots j) in_v,
          taken-set (set slots v (at slots j)) j empty_slot in_j,
          ap (λ y. y.value) kept,
          test_of_ne (at slots j).value null here,
          (==_iff (at slots v).value null).1 s.hole,
        )
