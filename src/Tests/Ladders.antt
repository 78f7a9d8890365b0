-- ===== src/Tests/Ladders.antt =====
-- A ladder of 130 ask prices from 100 in ticks of 5, and what becomes of its occupancy.
use leka.Base.{
  ℕ, zero, suc, ◌≤◌, ◌<◌, ◌≡◌, ◌≢◌, refl, ap, ◌∙◌, ◌-◌, ◌/◌, ◌%◌, ◌⊎◌, inr, true, false, List, [],
  ◌∷◌, arith, replicate, set, length,
}
use leka.Base.Outcome.{ok, throws, invalid_argument, out_of_range}
use leka.Ladder.{
  Ladder, Word, empty_ladder, make_ladder, index_of, to_index, next_set_bit, mark_occupied,
  mark_empty, for_each_occupied,
}
use leka.Ladder.Words.{bit, bit_at, IsFirst, next_set_bit-IsFirst}
use leka.Ladder.Occupancy.{IsMarked, count_true, Flipped, SameLevels}
use leka.Ladder.Prices.{IsRanged, price_at, index_of_cases}
use leka.Ladder.Construct.{
  IsRange, Constructed, clear_words, empty_ladder-Constructed, make_ladder-ok, make_ladder-throws,
}
use leka.Ladder.Traversal.{best_levels, for_each_occupied-best_levels}
use leka.Ladder.Best.{mark_occupied-IsMarked, mark_empty-IsMarked}

range : IsRange 100 5 130
range = omega arith

make_ladder-ok_example :
    (l : Ladder) × (make_ladder 100 5 130 false ≡ ok l) × Constructed 100 5 130 false l
make_ladder-ok_example = make_ladder-ok 100 5 130 false range

make_ladder-throws_example : make_ladder 100 0 130 false ≡ throws invalid_argument
make_ladder-throws_example =
    make_ladder-throws 100 0 130 false (omega arith) (omega arith) (λ r. omega (arith, r.tick_pos))

abbrev asks : Ladder
asks = empty_ladder 100 5 745 130 false

asks-IsRanged : IsRanged asks
asks-IsRanged = (empty_ladder-Constructed 100 5 130 false range).ranged

asks-IsMarked : IsMarked asks
asks-IsMarked = (empty_ladder-Constructed 100 5 130 false range).marked

index_of_cases_example :
    (((112 < asks.min_price) ⊎ (asks.max_price < 112)) × (index_of asks 112 ≡ throws out_of_range))
    ⊎ (((i : ℕ) → i < asks.level_count → price_at asks i ≢ 112)
        × (index_of asks 112 ≡ throws invalid_argument))
    ⊎ ((i : ℕ) × (i < asks.level_count) × (price_at asks i ≡ 112) × (index_of asks 112 ≡ ok i))
index_of_cases_example = index_of_cases asks asks-IsRanged 112

-- level 2, at 110, is marked
mark_occupied-IsMarked_example :
    (l : Ladder) × (mark_occupied 110 asks ≡ ok l)
    × IsMarked l
    × Flipped 2 true asks l
    × SameLevels asks l
unfolding empty_ladder index_of to_index
mark_occupied-IsMarked_example =
    mark_occupied-IsMarked asks 110 2 asks-IsMarked (omega arith) refl refl

-- levels 2 and 70 are occupied
abbrev words : List Word
words = set (replicate 64 false) 2 true ∷ set (replicate 64 false) 6 true ∷ replicate 64 false ∷ []

abbrev two : Ladder
two = record {
  min_price = 100;
  tick_size = 5;
  max_price = 745;
  level_count = 130;
  descending = false;
  levels = asks.levels;
  words = words;
  best_index = 2;
  occupied = 2;
}

below_two : (k : ℕ) → k < 2 → bit words k ≡ false
below_two zero h = refl
below_two (suc zero) h = refl
below_two (suc (suc k)) h = absurd (omega arith)

clear_above : (i : ℕ) → 130 ≤ i → bit words i ≡ false
clear_above i h =
    ap (λ k. bit_at words k (i % 64)) {x = i / 64} {y = suc (suc (i / 64 - 2))} (omega arith)
    ∙ clear_words 1 (i / 64 - 2) (i % 64)

two-IsMarked : IsMarked two
unfolding count_true
two-IsMarked = record {
  full = (refl, (refl, (refl, tt)));
  room = omega arith;
  clear = clear_above;
  counted = refl;
  first = inr (omega arith, omega arith, refl, λ k _ h. below_two k h);
  machine = omega arith;
}

-- the search skips a word
next_set_bit-IsFirst_example : (r : ℕ) × (next_set_bit two 3 ≡ ok r) × IsFirst (bit words) 3 130 r
next_set_bit-IsFirst_example =
    next_set_bit-IsFirst two 3 two-IsMarked.full two-IsMarked.room two-IsMarked.clear

-- the best level is emptied
mark_empty-IsMarked_example :
    (l : Ladder) × (mark_empty 110 two ≡ ok l)
    × IsMarked l
    × Flipped 2 false two l
    × SameLevels two l
unfolding index_of to_index
mark_empty-IsMarked_example = mark_empty-IsMarked two 110 2 two-IsMarked (omega arith) refl refl

two-sized : length two.levels ≡ two.level_count
unfolding empty_ladder
two-sized = (empty_ladder-Constructed 100 5 130 false range).ranged.sized

-- both occupied levels are visited, though three are asked for
for_each_occupied-best_levels_example : for_each_occupied two 3 2 ≡ ok (best_levels two 3)
for_each_occupied-best_levels_example = for_each_occupied-best_levels two two-IsMarked two-sized 3
