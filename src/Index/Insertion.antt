-- ===== src/Index/Insertion.antt =====
-- `OrderIndex::addOrder` behind the growth of the table: one entry more.
use leka.Base.{
  ℕ, ◌<◌, ◌≡◌, ◌≢◌, ◌⊎◌, refl, sym, ap, ◌∙◌, List, arith, inl, inr, ◌==◌, if◌then◌else◌, length,
  set, Bool-cases, eq_of_test, ne_of_test, ==_iff, test_of_ne,
}
use leka.Types.{OrderId}
use leka.Order.{Ptr, null}
use leka.Index.{Slot, index_for}
use leka.Index.Cyclic.{steps}
use leka.Index.Slots.{at, Taken, at-set}
use leka.Index.Table.{IsLaid}

-- The map with one entry more, or without one if `p` is null.
abbrev pub update_map : (OrderId → Ptr) → OrderId → Ptr → OrderId → Ptr
update_map m key p q = if q == key then p else m q

module _ (hash : ℕ → ℕ) (n : ℕ) (slots : List Slot) (m : OrderId → Ptr) (s : Slot) (i : ℕ)
    (len : length slots ≡ n) (v : IsLaid hash n slots m) (hi : i < n) (some_entry : s.value ≢ null)
    (fresh : m s.key ≡ null) (free : (at slots i).value ≡ null)
    (on_the_way : (x : ℕ)
      → x < n
      → steps n (index_for hash s.key n) x < steps n (index_for hash s.key n) i
      → Taken slots x) where
  at_lem : (x : ℕ) → at (set slots i s) x ≡ (if x == i then s else at slots x)
  at_lem x = at-set slots i x s (omega (arith, len))

  at_i : at (set slots i s) i ≡ s
  at_i = at_lem i ∙ rw ((==_iff i i).1 refl) refl

  off_i : (x : ℕ) → x ≢ i → at (set slots i s) x ≡ at slots x
  off_i x ne = at_lem x ∙ rw (test_of_ne x i ne) refl

  -- Nothing that was taken is lost.
  still : (x : ℕ) → Taken slots x → Taken (set slots i s) x
  still x t = elim (Bool-cases (x == i)) [
    | inl e ↦ λ q. t (ap (λ y. (at slots y).value) (eq_of_test x i e) ∙ free)
    | inr e ↦ λ q. t (ap (λ y. y.value) (sym (off_i x (ne_of_test x i e))) ∙ q)
  ]

  -- An entry of the new table is the new one or an old one.
  entry_cases :
      (x : ℕ)
      → Taken (set slots i s) x
      → ((x ≡ i) × (at (set slots i s) x ≡ s))
        ⊎ ((x ≢ i) × (at (set slots i s) x ≡ at slots x) × Taken slots x)
  entry_cases x t = elim (Bool-cases (x == i)) [
    | inl e ↦ inl (eq_of_test x i e, ap (at (set slots i s)) (eq_of_test x i e) ∙ at_i)
    | inr e ↦
        let ne = ne_of_test x i e in
        inr (ne, off_i x ne, λ q. t (ap (λ y. y.value) (off_i x ne) ∙ q))
  ]

  -- No old entry has the new key.
  other_key : (x : ℕ) → x < n → Taken slots x → (at slots x).key ≢ s.key
  other_key x hx t q = t (sym (v.stored x hx t) ∙ ap m q ∙ fresh)

  pub set-IsLaid : IsLaid hash n (set slots i s) (update_map m s.key s.value)
  set-IsLaid = record {
    reach = λ a x ha hx t lt. elim (entry_cases a t) [
      | inl (q, e) ↦ still x (on_the_way x hx (rw q at (rw e at lt)))
      | inr (ne, e, t') ↦ still x (v.reach a x ha hx t' (rw e at lt))
    ];
    stored = λ a ha t. elim (entry_cases a t) [
      | inl (q, e) ↦ rw (e, (==_iff s.key s.key).1 refl) refl
      | inr (ne, e, t') ↦
          rw (e, test_of_ne (at slots a).key s.key (other_key a ha t')) (v.stored a ha t')
    ];
    found = λ q h. elim (Bool-cases (q == s.key)) [
      | inl e ↦ (i, hi, ap (λ y. y.key) at_i ∙ sym (eq_of_test q s.key e), rw (at_i, e) refl)
      | inr e ↦
          let (j, hj, key, value) = v.found q (λ w. h (rw e w)) in
          let ne : j ≢ i = λ w. h (rw e (sym value ∙ ap (λ x. (at slots x).value) w ∙ free)) in
          (j, hj, ap (λ y. y.key) (off_i j ne) ∙ key, rw e (ap (λ y. y.value) (off_i j ne) ∙ value))
    ];
    unique = λ a b ha hb ta tb e. elim (entry_cases a ta) [
      | inl (qa, ea) ↦ elim (entry_cases b tb) [
        | inl (qb, eb) ↦ qa ∙ sym qb
        | inr (nb, eb, tb') ↦
            absurd (other_key b hb tb' (ap (λ y. y.key) (sym eb) ∙ sym e ∙ ap (λ y. y.key) ea))
      ]
      | inr (na, ea, ta') ↦ elim (entry_cases b tb) [
        | inl (qb, eb) ↦
            absurd (other_key a ha ta' (ap (λ y. y.key) (sym ea) ∙ e ∙ ap (λ y. y.key) eb))
        | inr (nb, eb, tb') ↦
            v.unique a b ha hb ta' tb' (ap (λ y. y.key) (sym ea) ∙ e ∙ ap (λ y. y.key) eb)
      ]
    ];
  }
