-- ===== src/Ladder.antt =====
-- src/book/price_ladder.cpp and include/lob/book/price_ladder.hpp: one side of the book, an array
-- of price levels over a fixed range of prices, with a bitset of the occupied ones. A 64-bit word
-- of the bitset is the list of its bits, lowest first; `npos` is the greatest size_t.
pub mod Words
pub mod Prices
pub mod Construct
pub mod Occupancy
pub mod Best
pub mod Traversal
use leka.Base.{
  ℕ, zero, suc, ◌+◌, ◌-◌, ◌*◌, ◌/◌, ◌%◌, Bool, true, false, not, ◌&&◌, ◌||◌, Option, none, some,
  List, [], ◌∷◌, ◌==◌, ltb, leb, if◌then◌else◌, get_elem?, set, drop, replicate,
}
use leka.Base.Outcome.{Outcome, ok, fault, invalid_argument, out_of_range, ◌>>=◌, ◌>>◌, throw_if}
use leka.Types.{Price, Quantity, u64_max, u64_size, add_u64, sub_u64}
use leka.Level.{Level, make_level}

abbrev pub npos : ℕ
npos = u64_max

abbrev pub Word : Type 0
Word = List Bool

-- uint64_t multiplication.
abbrev pub mul_u64 : ℕ → ℕ → ℕ
mul_u64 a b = a * b % u64_size

pub record Ladder : Type 0 where
  pub min_price : Price
  pub tick_size : Price
  pub max_price : Price
  pub level_count : ℕ
  pub descending : Bool
  pub levels : List Level
  pub words : List Word
  pub best_index : ℕ
  pub occupied : ℕ

-- The price that the constructor gives the level at an index.
unfoldable pub level_price : (min tick max : Price) (descending : Bool) → ℕ → Price
level_price min tick max descending index =
    if descending then sub_u64 max (mul_u64 index tick) else add_u64 min (mul_u64 index tick)

-- The constructor's loop: the levels from `index` on, `n` of them.
unfoldable pub make_levels : (ℕ → Price) → ℕ → ℕ → List Level
make_levels price index zero = []
make_levels price index (suc n) = make_level (price index) ∷ make_levels price (suc index) n

-- The members as the constructor leaves them, every level made and none occupied.
unfoldable pub empty_ladder : (min tick max : Price) (count : ℕ) (descending : Bool) → Ladder
empty_ladder min tick max count descending = record {
  min_price = min;
  tick_size = tick;
  max_price = max;
  level_count = count;
  descending = descending;
  levels = make_levels (level_price min tick max descending) 0 count;
  words = replicate ((count + 63) / 64) (replicate 64 false);
  best_index = npos;
  occupied = 0;
}

unfoldable pub make_ladder : Price → Price → ℕ → Bool → Outcome Ladder
make_ladder min tick count descending = do
  throw_if (min == 0) invalid_argument
  throw_if (tick == 0) invalid_argument
  throw_if (count == 0) invalid_argument
  let span = sub_u64 count 1
  throw_if (not (tick == 0) && ltb ((u64_max - min) / tick) span) invalid_argument
  ok (empty_ladder min tick (add_u64 min (mul_u64 span tick)) count descending)

-- The end of `indexOf`: the check of the tick boundary, and the index.
unfoldable pub to_index : Ladder → ℕ → Outcome ℕ
to_index l offset = do
  throw_if (not (offset % l.tick_size == 0)) invalid_argument
  ok (offset / l.tick_size)

unfoldable pub index_of : Ladder → Price → Outcome ℕ
index_of l raw =
    if l.descending
    then (do
      throw_if (ltb l.max_price raw || ltb raw l.min_price) out_of_range
      to_index l (l.max_price - raw))
    else (do
      throw_if (ltb raw l.min_price || ltb l.max_price raw) out_of_range
      to_index l (raw - l.min_price))

-- `levels[index]`
unfoldable pub get_level : Ladder → ℕ → Outcome Level
get_level l index = elim (get_elem? l.levels index) [ none ↦ fault | some level ↦ ok level ]

-- A write to `levels[index]`.
unfoldable pub put_level : Ladder → ℕ → Level → Ladder
put_level l index level = record l { levels = set l.levels index level }

-- `levelAt` returns a reference: here the index, which names the level, and what it holds.
unfoldable pub level_at : Ladder → Price → Outcome (ℕ × Level)
level_at l price = do index ← index_of l price; level ← get_level l index; ok (index, level)

-- `word != 0`
unfoldable pub is_nonzero : Word → Bool
is_nonzero [] = false
is_nonzero (b ∷ w) = b || is_nonzero w

-- `std::countr_zero`: the zeros below the lowest one.
unfoldable pub countr_zero : Word → ℕ
countr_zero [] = 0
countr_zero (b ∷ w) = if b then 0 else suc (countr_zero w)

-- `words[index]`
unfoldable pub get_word : List Word → ℕ → Outcome Word
get_word ws index = elim (get_elem? ws index) [ none ↦ fault | some w ↦ ok w ]

-- The loop over the words behind the first, the next of which is number `word`.
unfoldable pub scan_words : (level_count : ℕ) → List Word → (word : ℕ) → ℕ
scan_words n [] word = npos
scan_words n (w ∷ ws) word =
    let rest = scan_words n ws (suc word) in
    let index = word * 64 + countr_zero w in
    if is_nonzero w then (if ltb index n then index else npos) else rest

-- The zeros that `>>` shifts in are left out of the first word.
unfoldable pub next_set_bit : Ladder → ℕ → Outcome ℕ
next_set_bit l from = if leb l.level_count from then ok npos else (do
  w ← get_word l.words (from / 64)
  let first_word = drop (from % 64) w
  ok (
      if is_nonzero first_word
      then from + countr_zero first_word
      else scan_words l.level_count (drop (suc (from / 64)) l.words) (suc (from / 64))))

-- `words[index / 64]` with bit `index % 64` set to `b`.
unfoldable pub put_bit : Ladder → ℕ → Bool → Outcome Ladder
put_bit l index b = do
  w ← get_word l.words (index / 64)
  ok (record l { words = set l.words (index / 64) (set w (index % 64) b) })

unfoldable pub mark_occupied : Price → Ladder → Outcome Ladder
mark_occupied price l = do
  index ← index_of l price
  l ← put_bit l index true
  let best = if l.occupied == 0 || ltb index l.best_index then index else l.best_index
  ok (record l { best_index = best; occupied = add_u64 l.occupied 1 })

unfoldable pub mark_empty : Price → Ladder → Outcome Ladder
mark_empty price l = do
  index ← index_of l price
  l ← put_bit l index false
  let occupied = sub_u64 l.occupied 1
  best ←
      (if index == l.best_index
        then (if occupied == 0 then ok npos else next_set_bit l (index + 1))
        else ok l.best_index)
  ok (record l { best_index = best; occupied = occupied })

-- `best()`: the index of the best level, or nullptr.
unfoldable pub best : Ladder → Outcome (Option (ℕ × Level))
best l =
    if l.best_index == npos
    then ok none
    else (do level ← get_level l l.best_index; ok (some (l.best_index, level)))

-- `forEachOccupied`: the levels that the callback sees, in order.
unfoldable pub for_each_occupied : Ladder → (max_levels : ℕ) → (index : ℕ) → Outcome (List Level)
for_each_occupied l zero index = ok []
for_each_occupied l (suc n) index = elim (index == npos) [
  | true ↦ ok []
  | false ↦ (do
    level ← get_level l index
    next ← next_set_bit l (index + 1)
    rest ← for_each_occupied l n next
    ok (level ∷ rest))
]
