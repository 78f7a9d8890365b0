-- ===== src/Ladder/Best.antt =====
-- The occupancy count and the best index of price_ladder.cpp under `markOccupied` and `markEmpty`.
use leka.Base.{
  ℕ, suc, ◌+◌, ◌/◌, ◌<◌, ◌≡◌, refl, sym, ◌∙◌, inl, inr, Bool, true, false, arith, ◌==◌, ltb, [],
  get_or, set, subst, ◌%◌, if◌then◌else◌, length, length-set, Bool-cases, eq_of_test, ne_of_test,
  test_of_ne, ◌||◌, ==_iff, ◌≢◌,
}
use leka.Base.Outcome.{ok}
use leka.Types.{Price, add_u64, sub_u64}
use leka.Ladder.{Ladder, npos, index_of, next_set_bit, mark_occupied, mark_empty}
use leka.Ladder.Words.{bit, IsFirst, next_set_bit-IsFirst}
use leka.Ladder.Occupancy.{
  IsMarked, SameLevels, Flipped, flip, put_bit-ok, Flipped_lem, new_words-AllWords, count_true,
  count_true-le, count_true-zero, count_set, IsFirst-set, IsFirst-cleared, IsFirst-behind,
}

module _ (l : Ladder) (i : ℕ) (b : Bool) (v : IsMarked l) (h : i < l.level_count) where
  in_words : i / 64 < length l.words
  in_words = omega (arith, v.room)

  pub flip-Flipped : Flipped i b l (flip l i b v h)
  flip-Flipped = Flipped_lem l i b v h in_words

  at_i : bit (flip l i b v h).words i ≡ b
  at_i = flip-Flipped i ∙ rw ((==_iff i i).1 refl) refl

  off_i : (k : ℕ) → k ≢ i → bit (flip l i b v h).words k ≡ bit l.words k
  off_i k ne = flip-Flipped k ∙ rw (test_of_ne k i ne) refl

  -- What a change of the two summaries must meet.
  flip-IsMarked :
      (best occupied : ℕ)
      → occupied ≡ count_true (bit (flip l i b v h).words) l.level_count
      → IsFirst (bit (flip l i b v h).words) 0 l.level_count best
      → IsMarked (record (flip l i b v h) { best_index = best; occupied = occupied })
  flip-IsMarked best occupied c f = record {
    full = new_words-AllWords l.words i b v.full in_words;
    room = omega (arith, v.room, length-set l.words (i / 64) _);
    clear = λ k low. off_i k (omega arith) ∙ v.clear k low;
    counted = c;
    first = f;
    machine = v.machine;
  }

module _ (l : Ladder) (price : Price) (i : ℕ) (v : IsMarked l) (h : i < l.level_count)
    (e : index_of l price ≡ ok i) where
  -- On a ladder whose occupancy count and best index are exact, marking the level of a price that
  -- has an unmarked level succeeds, sets that level's bit and no other, keeps the count and the
  -- best index exact, and changes no price and no level.
  pub mark_occupied-IsMarked :
      bit l.words i ≡ false
      → (l' : Ladder) × (mark_occupied price l ≡ ok l')
        × IsMarked l'
        × Flipped i true l l'
        × SameLevels l l'
  unfolding mark_occupied
  mark_occupied-IsMarked unset =
      let p = bit l.words in
      let q = bit (flip l i true v h).words in
      let counted : count_true q l.level_count ≡ suc (count_true p l.level_count) =
        count_set p q l.level_count i h unset (at_i l i true v h) (off_i l i true v h) in
      let best = if l.occupied == 0 || ltb i l.best_index then i else l.best_index in
      (
        record (flip l i true v h) { best_index = best; occupied = add_u64 l.occupied 1 },
        rw (e, put_bit-ok l i true v h (in_words l i true v h)) refl,
        flip-IsMarked l i true v h best (add_u64 l.occupied 1)
            (omega (arith, counted, v.counted, v.machine, count_true-le q l.level_count))
            (rw v.counted (
              IsFirst-set p q l.level_count i l.best_index h v.machine unset (at_i l i true v h)
                (off_i l i true v h) v.first)),
        flip-Flipped l i true v h,
        record {
          min = refl;
          tick = refl;
          max = refl;
          count = refl;
          direction = refl;
          levels = refl;
        },
      )

  module _ (was : bit l.words i ≡ true) where
    abbrev cleared : Ladder
    cleared = flip l i false v h

    abbrev left : ℕ → Bool
    left = bit cleared.words

    counted_left : sub_u64 l.occupied 1 ≡ count_true left l.level_count
    counted_left = omega (
      arith,
      count_set left (bit l.words) l.level_count i h (at_i l i false v h) was
          (λ k ne. sym (off_i l i false v h k ne)),
      v.counted,
      v.machine,
      count_true-le (bit l.words) l.level_count,
    )

    -- What the call leaves, whichever way it finds the best index.
    emptied :
        (best : ℕ)
        → (if i == l.best_index
            then (if sub_u64 l.occupied 1 == 0 then ok npos else next_set_bit cleared (i + 1))
            else ok l.best_index)
          ≡ ok best
        → IsFirst left 0 l.level_count best
        → (l' : Ladder) × (mark_empty price l ≡ ok l')
          × IsMarked l'
          × Flipped i false l l'
          × SameLevels l l'
    unfolding mark_empty
    emptied best run first = (
      record cleared { best_index = best; occupied = sub_u64 l.occupied 1 },
      rw (e, put_bit-ok l i false v h (in_words l i false v h), run) refl,
      flip-IsMarked l i false v h best (sub_u64 l.occupied 1) counted_left first,
      flip-Flipped l i false v h,
      record { min = refl; tick = refl; max = refl; count = refl; direction = refl; levels = refl },
    )

    emptied_best :
        i ≡ l.best_index
        → (l' : Ladder) × (mark_empty price l ≡ ok l')
          × IsMarked l'
          × Flipped i false l l'
          × SameLevels l l'
    emptied_best at_best = elim (Bool-cases (sub_u64 l.occupied 1 == 0)) [
      | inl z ↦ emptied npos (rw ((==_iff i l.best_index).1 at_best, z) refl) (
          inl (
            refl,
            λ k _ lt.
                count_true-zero left l.level_count k
                  (sym counted_left ∙ eq_of_test (sub_u64 l.occupied 1) 0 z) lt,
          ))
      | inr nz ↦
          let (r, run, first) =
            next_set_bit-IsFirst cleared (i + 1)
              (new_words-AllWords l.words i false v.full (in_words l i false v h))
              (omega (
                arith,
                v.room,
                length-set l.words (i / 64) (set (get_or l.words (i / 64) []) (i % 64) false),
              ))
              (λ k low. off_i l i false v h k (omega arith) ∙ v.clear k low) in
          emptied r (rw ((==_iff i l.best_index).1 at_best, nz) run) (
            IsFirst-behind (bit l.words) left l.level_count i r h was (at_i l i false v h)
              (off_i l i false v h)
              (subst (IsFirst (bit l.words) 0 l.level_count) (sym at_best) v.first) first)
    ]

    -- On a ladder whose occupancy count and best index are exact, emptying the level of a price
    -- that has a marked level succeeds, clears that level's bit and no other, keeps the count and
    -- the best index exact, and changes no price and no level.
    pub mark_empty-IsMarked :
        (l' : Ladder) × (mark_empty price l ≡ ok l')
        × IsMarked l'
        × Flipped i false l l'
        × SameLevels l l'
    mark_empty-IsMarked = elim (Bool-cases (i == l.best_index)) [
      | inl z ↦ emptied_best (eq_of_test i l.best_index z)
      | inr z ↦ emptied l.best_index (rw z refl) (
          IsFirst-cleared (bit l.words) left l.level_count i l.best_index h was (at_i l i false v h)
            (off_i l i false v h) (ne_of_test i l.best_index z) v.first)
    ]
