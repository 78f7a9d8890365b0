-- ===== src/Ladder/Construct.antt =====
-- The constructor of a ladder in price_ladder.cpp: the ranges it takes, and the levels it makes.
use leka.Base.{
  if◌then◌else◌, ℕ, zero, suc, ◌+◌, ◌-◌, ◌*◌, ◌/◌, ◌%◌, ◌≤◌, ◌<◌, ◌≡◌, refl, sym, ap, ◌∙◌, inl, inr,
  Bool, false, arith, ◌==◌, ltb, length, length-replicate, get_elem?, get_or, some, replicate,
  test_of_ne, Bool-cases,
}
use leka.Base.Outcome.{ok, throws, invalid_argument}
use leka.Types.{Price, u64_max, add_u64, sub_u64}
use leka.Order.{null}
use leka.Level.{Level, make_level}
use leka.Ladder.{Ladder, mul_u64, level_price, make_levels, empty_ladder, make_ladder}
use leka.Ladder.Words.{bit_at, AllWords}
use leka.Ladder.Occupancy.{IsMarked, none_true}
use leka.Ladder.Prices.{IsRanged, price_at, price_at-plain}
use native.Mathlib.Nat.{le-div_iff_mul-le}

module _ (price : ℕ → Price) where
  length-make_levels : (index n : ℕ) → length (make_levels price index n) ≡ n
  unfolding make_levels
  length-make_levels index zero = refl
  length-make_levels index (suc n) = ap suc (length-make_levels (suc index) n)

  get_elem?-make_levels :
      (index n i : ℕ)
      → i < n
      → get_elem? (make_levels price index n) i ≡ some (make_level (price (index + i)))
  unfolding make_levels
  get_elem?-make_levels index zero i h = absurd (omega arith)
  get_elem?-make_levels index (suc n) zero h = ap (λ k. some (make_level (price k))) (omega arith)
  get_elem?-make_levels index (suc n) (suc i) h =
      get_elem?-make_levels (suc index) n i (omega arith)
      ∙ ap (λ k. some (make_level (price k))) (omega arith)

pub clear_words : (n j q : ℕ) → bit_at (replicate n (replicate 64 false)) j q ≡ false
clear_words zero j q = refl
clear_words (suc n) zero q = clear_bits 64 q
  where
    clear_bits : (m q : ℕ) → get_or (replicate m false) q false ≡ false
    clear_bits zero q = refl
    clear_bits (suc m) zero = refl
    clear_bits (suc m) (suc q) = clear_bits m q
clear_words (suc n) (suc j) q = clear_words n j q

AllWords-replicate : (n : ℕ) → AllWords (replicate n (replicate 64 false))
AllWords-replicate zero = tt
AllWords-replicate (suc n) = (refl, AllWords-replicate n)

-- A range of prices that the constructor accepts.
pub record IsRange (min tick count : ℕ) : Type 0 where
  pub min_pos : 0 < min
  pub tick_pos : 0 < tick
  pub count_pos : 0 < count
  pub machine : count ≤ u64_max
  pub fits : min + (count - 1) * tick ≤ u64_max

module _ (min tick count : ℕ) (d : Bool) where
  -- What the constructor leaves.
  pub record Constructed (l : Ladder) : Type 0 where
    pub ranged : IsRanged l
    pub marked : IsMarked l
    pub counts : l.level_count ≡ count
    pub starts : l.min_price ≡ min
    pub ticks : l.tick_size ≡ tick
    pub levels :
        (i : ℕ)
        → i < count
        → (level : Level) × (get_elem? l.levels i ≡ some level)
          × (level.price ≡ (if d then min + (count - 1) * tick - i * tick else min + i * tick))
          × (level.head_order ≡ null)
          × (level.tail_order ≡ null)
          × (level.count ≡ 0)
          × (level.total_quantity ≡ 0)
    pub directed : l.descending ≡ d
    pub unoccupied : l.occupied ≡ 0
    pub empty : (i : ℕ) → i < count → get_elem? l.levels i ≡ some (make_level (price_at l i))

  max_lem :
      IsRange min tick count
      → add_u64 min (mul_u64 (sub_u64 count 1) tick) ≡ min + (count - 1) * tick
  max_lem r =
      let e : sub_u64 count 1 ≡ count - 1 = omega (arith, r.machine, r.count_pos) in
      rw e (omega (arith, r.fits))

  fits_test : IsRange min tick count → ltb ((u64_max - min) / tick) (sub_u64 count 1) ≡ false
  fits_test r = ground (
    arith,
    (le-div_iff_mul-le {k = tick} {x = count - 1} {y = u64_max - min} r.tick_pos).1
        (omega (arith, r.fits)),
    r.machine,
    r.count_pos,
  )

  make_ladder-eq :
      IsRange min tick count
      → make_ladder min tick count d ≡ ok (empty_ladder min tick (min + (count - 1) * tick) count d)
  unfolding make_ladder
  make_ladder-eq r =
      rw
        (
          test_of_ne min 0 (omega (arith, r.min_pos)),
          test_of_ne tick 0 (omega (arith, r.tick_pos)),
          test_of_ne count 0 (omega (arith, r.count_pos)),
          fits_test r,
          max_lem r,
        )
        refl

  empty_ladder-IsRanged :
      IsRange min tick count → IsRanged (empty_ladder min tick (min + (count - 1) * tick) count d)
  unfolding empty_ladder
  empty_ladder-IsRanged r = record {
    min_pos = r.min_pos;
    tick_pos = r.tick_pos;
    count_pos = r.count_pos;
    max = refl;
    bounded = r.fits;
    sized = length-make_levels _ 0 count;
  }

  empty_ladder-level :
      IsRange min tick count
      → (i : ℕ) → i < count
      → get_elem? (empty_ladder min tick (min + (count - 1) * tick) count d).levels i
        ≡ some (make_level (level_price min tick (min + (count - 1) * tick) d i))
  unfolding empty_ladder
  empty_ladder-level r i h =
      get_elem?-make_levels _ 0 count i h
      ∙ ap (λ k. some (make_level (level_price min tick (min + (count - 1) * tick) d k)))
          {x = 0 + i} {y = i} (omega arith)

  pub empty_ladder-Constructed :
      IsRange min tick count
      → Constructed (empty_ladder min tick (min + (count - 1) * tick) count d)
  unfolding empty_ladder
  empty_ladder-Constructed r = record {
    ranged = empty_ladder-IsRanged r;
    marked = record {
      full = AllWords-replicate ((count + 63) / 64);
      room = omega (arith, length-replicate ((count + 63) / 64) (replicate 64 false));
      clear = λ i _. clear_words ((count + 63) / 64) (i / 64) (i % 64);
      counted = sym (none_true _ count (λ i _. clear_words ((count + 63) / 64) (i / 64) (i % 64)));
      first = inl (refl, λ i _ _. clear_words ((count + 63) / 64) (i / 64) (i % 64));
      machine = r.machine;
    };
    counts = refl;
    starts = refl;
    ticks = refl;
    levels = λ i h. (
      make_level (level_price min tick (min + (count - 1) * tick) d i),
      empty_ladder-level r i h,
      price_at-plain (empty_ladder min tick (min + (count - 1) * tick) count d)
          (empty_ladder-IsRanged r) i h,
      refl,
      refl,
      refl,
      refl,
    );
    directed = refl;
    unoccupied = refl;
    empty = empty_ladder-level r;
  }

  -- The constructor accepts a nonzero start, tick and number of levels whose last price fits in
  -- 64 bits, and makes a ladder that starts at that price, has that tick and that number of
  -- levels and runs the way asked for: the level at an index is empty and has the price that is
  -- so many ticks above the start or, for bids, below the last price. The range is well-formed,
  -- nothing is occupied, and the marks are exact.
  pub make_ladder-ok :
      IsRange min tick count → (l : Ladder) × (make_ladder min tick count d ≡ ok l) × Constructed l
  make_ladder-ok r = (_, make_ladder-eq r, empty_ladder-Constructed r)

  IsRange-of :
      min ≤ u64_max
      → count ≤ u64_max
      → (min == 0) ≡ false
      → (tick == 0) ≡ false
      → (count == 0) ≡ false
      → ltb ((u64_max - min) / tick) (sub_u64 count 1) ≡ false
      → IsRange min tick count
  IsRange-of small machine m t c e =
      let pos : 0 < tick = ground arith in
      let span : count - 1 ≤ (u64_max - min) / tick = ground arith in
      record {
        min_pos = ground arith;
        tick_pos = pos;
        count_pos = ground arith;
        machine = machine;
        fits =
            omega (
              arith,
              (le-div_iff_mul-le {k = tick} {x = count - 1} {y = u64_max - min} pos).0 span,
            );
      }

  -- For a start and a number of levels that are 64-bit numbers, the constructor refuses every
  -- range that has a zero among start, tick and number of levels, or whose last price does not
  -- fit in 64 bits.
  pub make_ladder-throws :
      min ≤ u64_max
      → count ≤ u64_max
      → ¬ (IsRange min tick count)
      → make_ladder min tick count d ≡ throws invalid_argument
  unfolding make_ladder
  make_ladder-throws small machine bad = elim (Bool-cases (min == 0)) [
    | inl e ↦ rw e refl
    | inr m ↦ elim (Bool-cases (tick == 0)) [
      | inl e ↦ rw (m, e) refl
      | inr t ↦ elim (Bool-cases (count == 0)) [
        | inl e ↦ rw (m, t, e) refl
        | inr c ↦ elim (Bool-cases (ltb ((u64_max - min) / tick) (sub_u64 count 1))) [
          | inl e ↦ rw (m, t, c, e) refl
          | inr e ↦ absurd (bad (IsRange-of small machine m t c e))
        ]
      ]
    ]
  ]
