-- ===== src/Index/Rehash.antt =====
-- `growIfNeeded` and `reserve`: the entries of a table move to a larger one.
use leka.Base.{
  ℕ, ◌+◌, ◌<◌, ◌≡◌, ◌≢◌, refl, sym, ap, ◌∙◌, inl, inr, List, [], ◌∷◌, arith, ◌^◌, ◌==◌,
  if◌then◌else◌, length, replicate, length-replicate, set, Bool-cases, eq_of_test, ne_of_test,
  ==_iff,
}
use leka.Base.Outcome.{ok}
use leka.Types.{OrderId}
use leka.Order.{Ptr, null}
use leka.Index.{Slot, empty_slot, free_slot, rehash}
use leka.Index.Ring.{steps_self, steps-lt}
use leka.Index.Slots.{at, taken, free_slot_lem, at-replicate}
use leka.Index.Probe.{IsFirstSlot-of, is_free, free_slot_runs}
use leka.Index.Table.{home, IsPlaced, home-lt}
use leka.Index.Insertion.{update_map}
use leka.Index.Insert.{Grown, set-Grown}
use leka.Index.Growth.{entry, HasKeysOnce}

-- Only the values of the map matter.
pub IsPlaced-congr :
    (hash : ℕ → ℕ) (k : ℕ) (slots : List Slot) (m m' : OrderId → Ptr)
    → IsPlaced hash k slots m
    → ((q : OrderId) → m q ≡ m' q)
    → IsPlaced hash k slots m'
IsPlaced-congr hash k slots m m' v same = record {
  sized = v.sized;
  laid = record {
    reach = v.reach;
    stored = λ i hi t. sym (same (at slots i).key) ∙ v.stored i hi t;
    found = λ q h.
        let (i, hi, key, value) = v.found q (λ w. h (sym (same q) ∙ w)) in
        (i, hi, key, value ∙ same q);
    unique = v.unique;
  };
}

-- A table with no entries.
pub replicate-IsPlaced :
    (hash : ℕ → ℕ) (k : ℕ) → IsPlaced hash k (replicate (2 ^ k) empty_slot) (λ _. null)
replicate-IsPlaced hash k = record {
  sized = length-replicate (2 ^ k) empty_slot;
  laid = record {
    reach = λ i x hi hx t lt. absurd (t (ap (λ s. s.value) (at-replicate (2 ^ k) i)));
    stored = λ i hi t. absurd (t (ap (λ s. s.value) (at-replicate (2 ^ k) i)));
    found = λ q h. absurd (h refl);
    unique = λ i j hi hj t u e. absurd (t (ap (λ s. s.value) (at-replicate (2 ^ k) i)));
  };
}

-- The map of a new table with what is left of the old one.
abbrev merged : (OrderId → Ptr) → List Slot → OrderId → Ptr
merged m rest q = if m q == null then entry q rest else m q

module _ (hash : ℕ → ℕ) (k : ℕ) where
  -- One entry more finds a slot.
  settle :
      (s : Slot) (grown : List Slot) (m : OrderId → Ptr)
      → IsPlaced hash k grown m
      → taken grown < length grown
      → s.value ≢ null
      → m s.key ≡ null
      → (i : ℕ) × (free_slot hash (length grown) grown (home hash grown s.key) ≡ ok i)
        × Grown hash k grown (update_map m s.key s.value) (set grown i s)
  settle s grown m v room ne fresh =
      let h = home hash grown s.key in
      let hh = home-lt hash k grown m v s.key in
      let (e, he, free) = free_slot_lem grown room in
      let (i, f) =
        IsFirstSlot-of (length grown) h (is_free grown) hh e he
          ((==_iff (at grown e).value null).1 free) in
      (
        i,
        free_slot_runs hash k grown v.sized h hh i (length grown) h f hh
            (omega (arith, steps_self (length grown) h h hh hh))
            (omega (arith, steps-lt (length grown) h i hh f.inside)),
        set-Grown hash k grown m s i v f.inside ne fresh (eq_of_test (at grown i).value null f.here)
            (λ x hx lt. ne_of_test (at grown x).value null (f.before x hx lt)),
      )

  -- What a move of the slots `rest` into a table leaves.
  pub record Moved (rest grown : List Slot) (m : OrderId → Ptr) (r : List Slot) : Type 0 where
    pub placed : IsPlaced hash k r (merged m rest)
    pub sum : taken r ≡ taken grown + taken rest
    pub same : length r ≡ length grown

  pub rehash-Moved :
      (rest grown : List Slot) (m : OrderId → Ptr)
      → IsPlaced hash k grown m
      → HasKeysOnce rest
      → ((q : OrderId) → entry q rest ≢ null → m q ≡ null)
      → taken grown + taken rest < length grown
      → (r : List Slot) × (rehash hash rest grown ≡ ok r) × Moved rest grown m r
  unfolding rehash entry taken
  rehash-Moved [] grown m v once apart room = (
    grown,
    refl,
    record {
      placed = IsPlaced-congr hash k grown m (merged m []) v (λ q. ground arith);
      sum = omega arith;
      same = refl;
    },
  )
  rehash-Moved (s ∷ rest) grown m v once apart room = elim (Bool-cases (s.value == null)) [
    | inl e ↦
        let (r, run, moved) =
          rehash-Moved rest grown m v once.1 (λ q h. apart q (rw e h)) (ground arith) in
        (
          r,
          rw (e, rehash) run,
          record {
            placed =
                IsPlaced-congr hash k r (merged m rest) (merged m (s ∷ rest)) moved.placed
                  (λ q. ground arith);
            sum = ground (arith, moved.sum);
            same = moved.same;
          },
        )
    | inr e ↦
        let ne = ne_of_test s.value null e in
        let fresh : m s.key ≡ null =
          apart s.key (λ w. ne (ground (arith, (==_iff s.key s.key).1 refl))) in
        let (i, found, g) = settle s grown m v (ground arith) ne fresh in
        let (r, run, moved) =
          rehash-Moved rest (set grown i s) (update_map m s.key s.value) g.placed once.1
            (λ q h. elim (Bool-cases (q == s.key)) [
              | inl f ↦ absurd (h (ap (λ x. entry x rest) (eq_of_test q s.key f) ∙ once.0 ne))
              | inr f ↦ rw f (apart q (λ w. h (ground (arith, ne_of_test q s.key f))))
            ])
            (ground (arith, g.more, g.same)) in
        (
          r,
          rw (e, rehash) (rw found run),
          record {
            placed =
                IsPlaced-congr hash k r (merged (update_map m s.key s.value) rest)
                  (merged m (s ∷ rest)) moved.placed
                  (λ q. elim (Bool-cases (q == s.key)) [
                    | inl f ↦
                        ground (arith, eq_of_test q s.key f, ap m (eq_of_test q s.key f), fresh)
                    | inr f ↦ ground (arith, ne_of_test q s.key f)
                  ]);
            sum = ground (arith, moved.sum, g.more);
            same = moved.same ∙ g.same;
          },
        )
  ]
