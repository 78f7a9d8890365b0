-- ===== src/Ladder/Occupancy.antt =====
-- The occupancy of a ladder: `occupied` counts the set bits and `bestIndex` is the lowest one; what
-- becomes of both when one bit changes.
use leka.Base.{
  ℕ, zero, suc, ◌+◌, ◌*◌, ◌/◌, ◌%◌, ◌≤◌, ◌<◌, ◌≡◌, ◌≢◌, refl, sym, ap, ◌∙◌, inl, inr, Bool, true,
  false, List, [], ◌∷◌, arith, ◌==◌, ltb, if◌then◌else◌, length, get_or, set, length-set,
  get_or-set_self, get_or-set_ne, Bool-cases, eq_of_test, ne_of_test, test_of_ne, ◌||◌, dec_lt,
}
use leka.Base.Outcome.{ok}
use leka.Types.{u64_max}
use leka.Ladder.{Word, Ladder, put_bit}
use leka.Ladder.Words.{bit, IsFirst, AllWords, length-get_word, get_word-ok}

-- How many numbers below `n` satisfy a test.
unfoldable pub count_true : (ℕ → Bool) → ℕ → ℕ
count_true p zero = 0
count_true p (suc n) = (if p n then 1 else 0) + count_true p n

pub count_true-le : (p : ℕ → Bool) (n : ℕ) → count_true p n ≤ n
unfolding count_true
count_true-le p zero = omega arith
count_true-le p (suc n) = ground (arith, count_true-le p n)

pub count_true-zero : (p : ℕ → Bool) (n i : ℕ) → count_true p n ≡ 0 → i < n → p i ≡ false
unfolding count_true
count_true-zero p zero i e h = absurd (omega arith)
count_true-zero p (suc n) i e h = elim (Bool-cases (i == n)) [
  | inl q ↦ ground (arith, ap p (eq_of_test i n q))
  | inr q ↦ count_true-zero p n i (ground arith) (omega (arith, ne_of_test i n q))
]

pub none_true : (p : ℕ → Bool) (n : ℕ) → ((i : ℕ) → i < n → p i ≡ false) → count_true p n ≡ 0
unfolding count_true
none_true p zero f = refl
none_true p (suc n) f = ground (arith, f n, none_true p n (λ i h. f i (omega arith)))

pub count_congr :
    (p q : ℕ → Bool) (n : ℕ) → ((i : ℕ) → i < n → q i ≡ p i) → count_true q n ≡ count_true p n
unfolding count_true
count_congr p q zero f = refl
count_congr p q (suc n) f = ground (arith, f n, count_congr p q n (λ i h. f i (omega arith)))

pub count_set :
    (p q : ℕ → Bool) (n i : ℕ)
    → i < n
    → p i ≡ false
    → q i ≡ true
    → ((k : ℕ) → k ≢ i → q k ≡ p k)
    → count_true q n ≡ suc (count_true p n)
unfolding count_true
count_set p q zero i h a b f = absurd (omega arith)
count_set p q (suc n) i h a b f = elim (Bool-cases (i == n)) [
  | inl e ↦
      let e' = eq_of_test i n e in
      ground
        (arith, sym (ap p e') ∙ a, sym (ap q e') ∙ b, count_congr p q n (λ k l. f k (omega arith)))
  | inr e ↦
      let ne = ne_of_test i n e in
      ground (arith, f n (λ x. ne (sym x)), count_set p q n i (omega arith) a b f)
]

-- The bitset and its two summaries.
pub record IsMarked (l : Ladder) : Type 0 where
  pub full : AllWords l.words
  pub room : l.level_count ≤ length l.words * 64
  pub clear : (i : ℕ) → l.level_count ≤ i → bit l.words i ≡ false
  pub counted : l.occupied ≡ count_true (bit l.words) l.level_count
  pub first : IsFirst (bit l.words) 0 l.level_count l.best_index
  pub machine : l.level_count ≤ u64_max

-- All of a ladder but its occupancy.
pub record SameLevels (l l' : Ladder) : Type 0 where
  pub min : l'.min_price ≡ l.min_price
  pub tick : l'.tick_size ≡ l.tick_size
  pub max : l'.max_price ≡ l.max_price
  pub count : l'.level_count ≡ l.level_count
  pub direction : l'.descending ≡ l.descending
  pub levels : l'.levels ≡ l.levels

-- The one bit that differs.
abbrev pub Flipped : ℕ → Bool → Ladder → Ladder → Type 0
Flipped i b l l' = (k : ℕ) → bit l'.words k ≡ (if k == i then b else bit l.words k)

pub AllWords-set :
    (ws : List Word) (j : ℕ) (w : Word) → AllWords ws → length w ≡ 64 → AllWords (set ws j w)
AllWords-set [] j w a e = tt
AllWords-set (v ∷ ws) zero w a e = (e, a.1)
AllWords-set (v ∷ ws) (suc j) w a e = (a.0, AllWords-set ws j w a.1 e)

module _ (ws : List Word) (i : ℕ) (b : Bool) (a : AllWords ws) (h : i / 64 < length ws) where
  abbrev pub old_word : Word
  old_word = get_or ws (i / 64) []

  abbrev pub new_words : List Word
  new_words = set ws (i / 64) (set old_word (i % 64) b)

  pub new_words-AllWords : AllWords new_words
  new_words-AllWords =
      AllWords-set ws (i / 64) _ a
        (length-set old_word (i % 64) b ∙ length-get_word ws (i / 64) a h)

  -- within the word that is written
  same_word :
      (m : ℕ)
      → get_or (get_or new_words (i / 64) []) m false ≡ get_or (set old_word (i % 64) b) m false
  same_word m = ap (λ (w : Word). get_or w m false) (get_or-set_self ws (i / 64) _ [] h)

  bit-new_words_self : bit new_words i ≡ b
  bit-new_words_self =
      same_word (i % 64)
      ∙ get_or-set_self old_word (i % 64) b false (omega (arith, length-get_word ws (i / 64) a h))

  bit-new_words_ne : (k : ℕ) → k ≢ i → bit new_words k ≡ bit ws k
  bit-new_words_ne k ne = elim (Bool-cases (k / 64 == i / 64)) [
    | inr e ↦
        ap (λ (w : Word). get_or w (k % 64) false)
          (get_or-set_ne ws (i / 64) (k / 64) _ [] (λ q. ne_of_test (k / 64) (i / 64) e (sym q)))
    | inl e ↦
        let j = eq_of_test (k / 64) (i / 64) e in
        let word = λ (ws : List Word). ap (λ (n : ℕ). get_or (get_or ws n []) (k % 64) false) j in
        word new_words
        ∙ same_word (k % 64)
        ∙ get_or-set_ne old_word (i % 64) (k % 64) b false (omega arith)
        ∙ sym (word ws)
  ]

-- The lowest set bit after one has been set.
pub IsFirst-set :
    (p q : ℕ → Bool) (n i best : ℕ)
    → i < n
    → n ≤ u64_max
    → p i ≡ false
    → q i ≡ true
    → ((k : ℕ) → k ≢ i → q k ≡ p k)
    → IsFirst p 0 n best
    → IsFirst q 0 n (if (count_true p n == 0) || ltb i best then i else best)
IsFirst-set p q n i best h small a b f (inl (e, none)) =
    rw (none_true p n (λ k l. none k (omega arith) l))
      (inr (omega arith, h, b, λ k _ l. f k (omega arith) ∙ none k (omega arith) (omega arith)))
IsFirst-set p q n i best h small a b f (inr (low, lt, t, before)) =
    let some_true : (count_true p n == 0) ≡ false =
      test_of_ne (count_true p n) 0 (λ z. ground (arith, t, count_true-zero p n best z lt)) in
    elim (Bool-cases (ltb i best)) [
      | inl e ↦
          rw (some_true, e)
            (inr (
              omega arith,
              h,
              b,
              λ k _ l. f k (omega arith) ∙ before k (omega arith) (ground arith),
            ))
      | inr e ↦
          let ne : best ≢ i = λ z. ground (arith, t, a, ap p z) in
          rw (some_true, e)
            (inr (
              omega arith,
              lt,
              f best ne ∙ t,
              λ k _ l. f k (ground arith) ∙ before k (omega arith) l,
            ))
    ]

-- The lowest set bit after one has been cleared, where that was not the lowest.
pub IsFirst-cleared :
    (p q : ℕ → Bool) (n i best : ℕ)
    → i < n
    → p i ≡ true
    → q i ≡ false
    → ((k : ℕ) → k ≢ i → q k ≡ p k)
    → i ≢ best
    → IsFirst p 0 n best
    → IsFirst q 0 n best
IsFirst-cleared p q n i best h a b f ne (inl (e, none)) = absurd (ground (arith, none i))
IsFirst-cleared p q n i best h a b f ne (inr (low, lt, t, before)) = inr (
  omega arith,
  lt,
  f best (λ e. ne (sym e)) ∙ t,
  λ k _ l. elim (Bool-cases (k == i)) [
    | inl e ↦ ap q (eq_of_test k i e) ∙ b
    | inr e ↦ f k (ne_of_test k i e) ∙ before k (omega arith) l
  ],
)

-- Where it was the lowest, the search goes on behind it.
settle :
    (q : ℕ → Bool) (n i r : ℕ)
    → ((k : ℕ) → k ≤ i → q k ≡ false)
    → IsFirst q (i + 1) n r
    → IsFirst q 0 n r
settle q n i r z (inl (e, f)) =
    inl (e, λ k _ l. elim (dec_lt i k) [ yes h ↦ f k (omega arith) l | no h ↦ z k (omega arith) ])
settle q n i r z (inr (low, lt, t, f)) = inr (
  omega arith,
  lt,
  t,
  λ k _ l. elim (dec_lt i k) [ yes h ↦ f k (omega arith) l | no h ↦ z k (omega arith) ],
)

pub IsFirst-behind :
    (p q : ℕ → Bool) (n i r : ℕ)
    → i < n
    → p i ≡ true
    → q i ≡ false
    → ((k : ℕ) → k ≢ i → q k ≡ p k)
    → IsFirst p 0 n i
    → IsFirst q (i + 1) n r
    → IsFirst q 0 n r
IsFirst-behind p q n i r h a b f (inl (e, none)) s = absurd (ground (arith, none i))
IsFirst-behind p q n i r h a b f (inr (low, lt, t, before)) s =
    settle q n i r
      (λ k l. elim (Bool-cases (k == i)) [
        | inl e ↦ ap q (eq_of_test k i e) ∙ b
        | inr e ↦ let ne = ne_of_test k i e in f k ne ∙ before k (omega arith) (omega (arith, ne))
      ])
      s

module _ (l : Ladder) (i : ℕ) (b : Bool) (v : IsMarked l) (h : i < l.level_count) where
  abbrev pub flip : Ladder
  flip = record l { words = set l.words (i / 64) (set (get_or l.words (i / 64) []) (i % 64) b) }

  abbrev pub InWords : Type 0
  InWords = i / 64 < length l.words

  pub put_bit-ok : InWords → put_bit l i b ≡ ok flip
  unfolding put_bit
  put_bit-ok w = rw (get_word-ok l.words (i / 64) w) refl

  pub Flipped_lem : (w : InWords) → Flipped i b l flip
  Flipped_lem w k = elim (Bool-cases (k == i)) [
    | inl e ↦
        rw e (ap (bit flip.words) (eq_of_test k i e) ∙ bit-new_words_self l.words i b v.full w)
    | inr e ↦ rw e (bit-new_words_ne l.words i b v.full w k (ne_of_test k i e))
  ]
