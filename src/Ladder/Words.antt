-- ===== src/Ladder/Words.antt =====
-- The search of the occupancy bitset: `nextSetBit` of price_ladder.cpp, word by word.
use leka.Base.{
  ℕ, zero, suc, ◌+◌, ◌-◌, ◌*◌, ◌/◌, ◌%◌, ◌≤◌, ◌<◌, ◌≡◌, refl, ap, ◌⊎◌, inl, inr, Bool, true, false,
  List, [], ◌∷◌, arith, ltb, if◌then◌else◌, length, length-drop, dec_lt, ap₂, get_or, drop,
  get_or-drop, Bool-cases, ◌∙◌, sym,
}
use leka.Base.Outcome.{ok}
use leka.Ladder.{Word, Ladder, npos, is_nonzero, countr_zero, scan_words, get_word, next_set_bit}

-- Bit `q` of word `j`; a bit that is not there is clear.
abbrev pub bit_at : List Word → ℕ → ℕ → Bool
bit_at ws j q = get_or (get_or ws j []) q false

-- Whether level `i` is marked occupied.
abbrev pub bit : List Word → ℕ → Bool
bit ws i = bit_at ws (i / 64) (i % 64)

-- The first number from `from` on, below `bound`, at which `p` holds, or `npos`.
abbrev pub IsFirst : (ℕ → Bool) → (from bound : ℕ) → ℕ → Type 0
IsFirst p from bound r =
    ((r ≡ npos) × ((i : ℕ) → from ≤ i → i < bound → p i ≡ false))
    ⊎ ((from ≤ r) × (r < bound) × (p r ≡ true) × ((i : ℕ) → from ≤ i → i < r → p i ≡ false))

pub zero_word : (w : Word) → is_nonzero w ≡ false → (q : ℕ) → get_or w q false ≡ false
unfolding is_nonzero
zero_word [] h q = refl
zero_word (b ∷ w) h zero = ground arith
zero_word (b ∷ w) h (suc q) = zero_word w (ground arith) q

pub countr_zero-lt : (w : Word) → is_nonzero w ≡ true → countr_zero w < length w
unfolding is_nonzero countr_zero
countr_zero-lt [] h = cc
countr_zero-lt (true ∷ w) h = omega arith
countr_zero-lt (false ∷ w) h = omega (arith, countr_zero-lt w h)

pub countr_zero_set : (w : Word) → is_nonzero w ≡ true → get_or w (countr_zero w) false ≡ true
unfolding is_nonzero countr_zero
countr_zero_set [] h = h
countr_zero_set (true ∷ w) h = refl
countr_zero_set (false ∷ w) h = countr_zero_set w h

pub countr_zero_below : (w : Word) (q : ℕ) → q < countr_zero w → get_or w q false ≡ false
unfolding countr_zero
countr_zero_below [] q h = refl
countr_zero_below (true ∷ w) q h = absurd (omega arith)
countr_zero_below (false ∷ w) zero h = refl
countr_zero_below (false ∷ w) (suc q) h = countr_zero_below w q (omega arith)

abbrev pub AllWords : List Word → Type 0
AllWords [] = Unit {0}
AllWords (w ∷ ws) = (length w ≡ 64) × AllWords ws

-- What the loop over words `k`, `k + 1`, … finds, by word and bit.
abbrev Scanned : List Word → ℕ → ℕ → ℕ → Type 0
Scanned ws k n r =
    ((r ≡ npos) × ((j q : ℕ) → q < 64 → (k + j) * 64 + q < n → bit_at ws j q ≡ false))
    ⊎ ((j q : ℕ) × (q < 64)
        × (r ≡ (k + j) * 64 + q)
        × (r < n)
        × (bit_at ws j q ≡ true)
        × ((j' q' : ℕ) → q' < 64 → (k + j') * 64 + q' < r → bit_at ws j' q' ≡ false))

first_below :
    (w : Word) (ws : List Word) (k j q : ℕ)
    → length w ≡ 64
    → is_nonzero w ≡ true
    → (k + j) * 64 + q < k * 64 + countr_zero w
    → bit_at (w ∷ ws) j q ≡ false
first_below w ws k zero q len h lt = countr_zero_below w q (omega arith)
first_below w ws k (suc j) q len h lt = absurd (omega (arith, countr_zero-lt w h))

-- Clear bits behind an empty word are clear bits from that word on.
later_below :
    (w : Word) (ws : List Word) (k n j q : ℕ)
    → is_nonzero w ≡ false
    → ((j q : ℕ) → q < 64 → (suc k + j) * 64 + q < n → bit_at ws j q ≡ false)
    → q < 64
    → (k + j) * 64 + q < n
    → bit_at (w ∷ ws) j q ≡ false
later_below w ws k n zero q h rest lt below = zero_word w h q
later_below w ws k n (suc j) q h rest lt below = rest j q lt (omega arith)

Scanned-cons :
    (w : Word) (ws : List Word) (k n r : ℕ)
    → is_nonzero w ≡ false
    → Scanned ws (suc k) n r
    → Scanned (w ∷ ws) k n r
Scanned-cons w ws k n r h (inl (e, f)) =
    inl (e, λ j q lt below. later_below w ws k n j q h f lt below)
Scanned-cons w ws k n r h (inr (j, q, lt, e, below, t, f)) =
    inr (suc j, q, lt, omega arith, below, t, λ j' q' lt' b. later_below w ws k r j' q' h f lt' b)

scan_words-Scanned :
    (n : ℕ) (ws : List Word) (k : ℕ) → AllWords ws → Scanned ws k n (scan_words n ws k)
unfolding scan_words
scan_words-Scanned n [] k a = inl (refl, λ j q _ _. refl)
scan_words-Scanned n (w ∷ ws) k (len, a) = elim (Bool-cases (is_nonzero w)) [
  | inr h ↦ rw h (Scanned-cons w ws k n _ h (scan_words-Scanned n ws (suc k) a))
  | inl h ↦ elim (Bool-cases (ltb (k * 64 + countr_zero w) n)) [
    | inl below ↦
        rw (h, below)
          (inr (
            zero,
            countr_zero w,
            omega (arith, countr_zero-lt w h),
            omega arith,
            ground arith,
            countr_zero_set w h,
            λ j q _ b. first_below w ws k j q len h b,
          ))
    | inr above ↦ rw (h, above) (inl (refl, λ j q _ b. first_below w ws k j q len h (ground arith)))
  ]
]

AllWords-drop : (n : ℕ) (ws : List Word) → AllWords ws → AllWords (drop n ws)
AllWords-drop zero ws a = a
AllWords-drop (suc n) [] a = tt
AllWords-drop (suc n) (w ∷ ws) (len, a) = AllWords-drop n ws a

pub length-get_word :
    (ws : List Word) (j : ℕ) → AllWords ws → j < length ws → length (get_or ws j []) ≡ 64
length-get_word [] j a h = absurd (omega arith)
length-get_word (w ∷ ws) zero a h = a.0
length-get_word (w ∷ ws) (suc j) a h = length-get_word ws j a.1 (omega arith)

pub get_word-ok : (ws : List Word) (j : ℕ) → j < length ws → get_word ws j ≡ ok (get_or ws j [])
unfolding get_word
get_word-ok [] j h = absurd (omega arith)
get_word-ok (w ∷ ws) zero h = refl
get_word-ok (w ∷ ws) (suc j) h = get_word-ok ws j (omega arith)

-- The same, by level numbers: from word `s` on.
by_level :
    (ws : List Word) (s n : ℕ)
    → ((j q : ℕ) → q < 64 → (s + j) * 64 + q < n → bit_at (drop s ws) j q ≡ false)
    → (i : ℕ) → s * 64 ≤ i
    → i < n
    → bit ws i ≡ false
by_level ws s n f i low high =
    let j = i / 64 - s in
    let e : s + j ≡ i / 64 = omega arith in
    let g = f j (i % 64) (omega arith) (omega arith) in
    ap (λ k. get_or (get_or ws k []) (i % 64) false) (sym e)
    ∙ ap (λ (w : Word). get_or w (i % 64) false) (sym (get_or-drop s j ws []))
    ∙ g

-- The bits of one word, from bit `m` on, as bits of the set.
in_word :
    (ws : List Word) (from i q : ℕ)
    → i ≡ from + q
    → from % 64 + q < 64
    → bit ws i ≡ get_or (drop (from % 64) (get_or ws (from / 64) [])) q false
in_word ws from i q e h =
    let j : i / 64 ≡ from / 64 = omega arith in
    let m : i % 64 ≡ from % 64 + q = omega arith in
    ap₂ (λ a b. bit_at ws a b) j m
    ∙ sym (get_or-drop (from % 64) q (get_or ws (from / 64) []) false)

module _ (l : Ladder) (from : ℕ) (a : AllWords l.words) where
  abbrev first_word : Word
  first_word = drop (from % 64) (get_or l.words (from / 64) [])

  next_set_bit-eq :
      from < l.level_count
      → from / 64 < length l.words
      → next_set_bit l from
        ≡ ok (
            if is_nonzero first_word
            then from + countr_zero first_word
            else scan_words l.level_count (drop (suc (from / 64)) l.words) (suc (from / 64)))
  unfolding next_set_bit
  next_set_bit-eq h b = ground (arith, get_word-ok l.words (from / 64) b)

  found_here :
      (b : from / 64 < length l.words)
      → is_nonzero first_word ≡ true
      → ((i : ℕ) → l.level_count ≤ i → bit l.words i ≡ false)
      → IsFirst (bit l.words) from l.level_count (from + countr_zero first_word)
  found_here b h clear =
      let z : countr_zero first_word < 64 - from % 64 = omega (
        arith,
        countr_zero-lt first_word h,
        length-drop (from % 64) (get_or l.words (from / 64) []),
        length-get_word l.words (from / 64) a b,
      ) in
      let hit : bit l.words (from + countr_zero first_word) ≡ true =
        in_word l.words from _ (countr_zero first_word) refl (omega arith)
        ∙ countr_zero_set first_word h in
      inr (
        omega arith,
        elim (dec_lt (from + countr_zero first_word) l.level_count) [
          | yes lt ↦ lt
          | no ge ↦ absurd (ground (arith, hit, clear (from + countr_zero first_word)))
        ],
        hit,
        λ i low high.
            in_word l.words from i (i - from) (omega arith) (omega arith)
            ∙ countr_zero_below first_word (i - from) (omega arith),
      )

  here_clear :
      is_nonzero first_word ≡ false
      → (i : ℕ) → from ≤ i
      → i < suc (from / 64) * 64
      → bit l.words i ≡ false
  here_clear h i low high =
      in_word l.words from i (i - from) (omega arith) (omega arith)
      ∙ zero_word first_word h (i - from)

  found_later :
      (r : ℕ)
      → is_nonzero first_word ≡ false
      → Scanned (drop (suc (from / 64)) l.words) (suc (from / 64)) l.level_count r
      → IsFirst (bit l.words) from l.level_count r
  found_later r h (inl (e, f)) = inl (
    e,
    λ i low high. elim (dec_lt i (suc (from / 64) * 64)) [
      | yes lt ↦ here_clear h i low lt
      | no ge ↦ by_level l.words (suc (from / 64)) l.level_count f i (omega arith) high
    ],
  )
  found_later r h (inr (j, q, lt, e, below, t, f)) = inr (
    omega arith,
    below,
    ap₂ (λ a b. bit_at l.words a b) {x = r / 64} {y = suc (from / 64) + j} {u = r % 64} {v = q}
          (omega arith) (omega arith)
        ∙ ap (λ (w : Word). get_or w q false) (sym (get_or-drop (suc (from / 64)) j l.words []))
        ∙ t,
    λ i low high. elim (dec_lt i (suc (from / 64) * 64)) [
      | yes lt' ↦ here_clear h i low lt'
      | no ge ↦ by_level l.words (suc (from / 64)) r f i (omega arith) high
    ],
  )

-- On full 64-bit words that have room for all levels and no bit set beyond them, `nextSetBit`
-- returns the first set bit from `from` on, and `npos` where there is none.
pub next_set_bit-IsFirst :
    (l : Ladder) (from : ℕ)
    → AllWords l.words
    → l.level_count ≤ length l.words * 64
    → ((i : ℕ) → l.level_count ≤ i → bit l.words i ≡ false)
    → (r : ℕ) × (next_set_bit l from ≡ ok r) × IsFirst (bit l.words) from l.level_count r
unfolding next_set_bit
next_set_bit-IsFirst l from a room clear = elim (dec_lt from l.level_count) [
  | no ge ↦ (npos, ground arith, inl (refl, λ i low high. absurd (omega arith)))
  | yes lt ↦
      let b : from / 64 < length l.words = omega arith in
      elim (Bool-cases (is_nonzero (first_word l from a))) [
        | inl h ↦ (_, next_set_bit-eq l from a lt b ∙ (rw h refl), found_here l from a b h clear)
        | inr h ↦ (
          scan_words l.level_count (drop (suc (from / 64)) l.words) (suc (from / 64)),
          next_set_bit-eq l from a lt b ∙ (rw h refl),
          found_later l from a _ h (
              scan_words-Scanned l.level_count (drop (suc (from / 64)) l.words) (suc (from / 64))
                (AllWords-drop (suc (from / 64)) l.words a)),
        )
      ]
]
