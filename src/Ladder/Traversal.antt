-- ===== src/Ladder/Traversal.antt =====
-- `forEachOccupied` against the list of all occupied levels, which says nothing of words and bits.
use leka.Base.{
  ℕ, zero, suc, ◌+◌, ◌-◌, ◌≤◌, ◌<◌, ◌≡◌, refl, sym, ap, subst, ◌∙◌, inl, inr, Bool, true, false,
  some, List, [], ◌∷◌, map, arith, if◌then◌else◌, length, get_elem?, get_or, take, ==_iff,
  test_of_ne, dec_lt,
}
use leka.Base.Outcome.{ok}
use leka.Level.{Level, make_level}
use leka.Ladder.{Ladder, npos, get_level, for_each_occupied}
use leka.Ladder.Words.{bit, IsFirst, next_set_bit-IsFirst}
use leka.Ladder.Occupancy.{IsMarked}

-- The numbers that satisfy a test, of `n` numbers from `from` on, in increasing order.
unfoldable pub all_set : (ℕ → Bool) → (from n : ℕ) → List ℕ
all_set p from zero = []
all_set p from (suc n) = let rest = all_set p (suc from) n in if p from then from ∷ rest else rest

all_set-none :
    (p : ℕ → Bool) (from n : ℕ)
    → ((i : ℕ) → from ≤ i → i < from + n → p i ≡ false)
    → all_set p from n ≡ []
unfolding all_set
all_set-none p from zero f = refl
all_set-none p from (suc n) f =
    rw (f from (omega arith) (omega arith))
      (all_set-none p (suc from) n (λ i a b. f i (omega arith) (omega arith)))

-- The first of them, and the others behind it.
all_set-first :
    (p : ℕ → Bool) (from n r : ℕ)
    → from ≤ r
    → r < from + n
    → p r ≡ true
    → ((i : ℕ) → from ≤ i → i < r → p i ≡ false)
    → all_set p from n ≡ r ∷ all_set p (suc r) (from + n - suc r)
unfolding all_set
all_set-first p from zero r a b t f = absurd (omega arith)
all_set-first p from (suc n) r a b t f = elim (dec_lt from r) [
  | yes lt ↦
      let e : suc from + n - suc r ≡ from + suc n - suc r = omega arith in
      rw (f from (omega arith) lt) (
        all_set-first p (suc from) n r (omega arith) (omega arith) t (λ i c d. f i (omega arith) d)
        ∙ ap (λ k. r ∷ all_set p (suc r) k) e)
  | no ge ↦
      let e : r ≡ from = omega arith in
      let k : n ≡ from + suc n - suc from = omega arith in
      subst (λ q. all_set p from (suc n) ≡ q ∷ all_set p (suc q) (from + suc n - suc q)) (sym e)
        (rw (sym (ap p e) ∙ t) (ap (λ m. from ∷ all_set p (suc from) m) k))
]

-- The level at an index, where there is one.
abbrev pub level_of : Ladder → ℕ → Level
level_of l i = get_or l.levels i (make_level 0)

pub get_elem?-get_or :
    {A : Type 0} (xs : List A) (i : ℕ) (d : A)
    → i < length xs
    → get_elem? xs i ≡ some (get_or xs i d)
get_elem?-get_or [] i d h = absurd (omega arith)
get_elem?-get_or (x ∷ xs) zero d h = refl
get_elem?-get_or (x ∷ xs) (suc i) d h = get_elem?-get_or xs i d (omega arith)

get_level-ok : (l : Ladder) (i : ℕ) → i < length l.levels → get_level l i ≡ ok (level_of l i)
unfolding get_level
get_level-ok l i h = rw (get_elem?-get_or l.levels i (make_level 0) h, get_level) refl

-- The best levels of a ladder, `depth` of them at most, best first.
abbrev pub best_levels : Ladder → (depth : ℕ) → List Level
best_levels l depth = map (level_of l) (take depth (all_set (bit l.words) 0 l.level_count))

module _ (l : Ladder) (v : IsMarked l) (sized : length l.levels ≡ l.level_count) where
  visits_from :
      (depth from n r : ℕ)
      → from + n ≡ l.level_count
      → IsFirst (bit l.words) from l.level_count r
      → for_each_occupied l depth r
        ≡ ok (map (level_of l) (take depth (all_set (bit l.words) from n)))
  unfolding for_each_occupied
  visits_from zero from n r e f = refl
  visits_from (suc depth) from n r e (inl (q, clear)) =
      rw
        (
          (==_iff r npos).1 q,
          all_set-none (bit l.words) from n (λ i a b. clear i a (omega arith)),
          for_each_occupied,
        )
        refl
  visits_from (suc depth) from n r e (inr (low, high, here, before)) =
      let (r', run, next) = next_set_bit-IsFirst l (r + 1) v.full v.room v.clear in
      rw
        (
          test_of_ne r npos (omega (arith, v.machine)),
          get_level-ok l r (omega (arith, sized)),
          run,
          visits_from depth (suc r) (from + n - suc r) r' (omega arith)
              (subst (λ k. IsFirst (bit l.words) k l.level_count r') (omega arith) next),
          all_set-first (bit l.words) from n r low (omega arith) here before,
          for_each_occupied,
        )
        refl

  -- On a ladder with exact marks and a level for each price, `forEachOccupied` from the best
  -- index visits the occupied levels in the order of their indices, best first: all of them, or
  -- as many as it was asked for.
  pub for_each_occupied-best_levels :
      (depth : ℕ) → for_each_occupied l depth l.best_index ≡ ok (best_levels l depth)
  for_each_occupied-best_levels depth =
      visits_from depth 0 l.level_count l.best_index (omega arith) v.first
