-- ===== src/Book/Unlinking.antt =====
-- An order leaves its level: the queue, and the bit of a level that it leaves empty.
use leka.Base.{
  ℕ, ◌<◌, ◌≡◌, refl, sym, ap, ◌∙◌, inl, inr, Bool, true, false, some, List, [], ◌∷◌, ◌++◌, arith,
  ◌==◌, if◌then◌else◌, length, get_elem?, get_elem?-set_self, Bool-cases, test_of_ne, ==_iff,
}
use leka.Base.Outcome.{Outcome, ok}
use leka.Types.{OrderSide, buy, sell, Price}
use leka.Order.{Ptr, Order}
use leka.Memory.{Heap}
use leka.Level
use leka.Level.{Level, is_empty}
use leka.Level.Invariant.{IsQueue}
use leka.Level.Remove.{Removed, remove_order-Removed}
use leka.Ladder.{Ladder, get_level, put_level, to_index, index_of, mark_empty}
use leka.Ladder.Words.{bit}
use leka.Ladder.Occupancy.{IsMarked, SameLevels, Flipped}
use leka.Ladder.Prices.{IsRanged, price_at, index_of-price_at}
use leka.Ladder.Best.{mark_empty-IsMarked}
use leka.Book.{
  Book, heap_of, ladder_of, put_ladder, put_heap, read_level, write_level, on_level, on_ladder,
  unlink_order,
}
use leka.Book.Invariant.{Relevelled, level_ref, some_order}

pub ladder_of-put :
    (side : OrderSide) (l : Ladder) (b : Book) → ladder_of side (put_ladder side l b) ≡ l
ladder_of-put buy l b = refl
ladder_of-put sell l b = refl

-- The second of two ladders put on a side is the one that stays.
pub put_ladder_again :
    (side : OrderSide) (l l' : Ladder) (b : Book)
    → put_ladder side l' (put_ladder side l b) ≡ put_ladder side l' b
put_ladder_again buy l l' b = refl
put_ladder_again sell l l' b = refl

pub get_level-ok :
    (l : Ladder) (i : ℕ) {level : Level}
    → get_elem? l.levels i ≡ some level
    → get_level l i ≡ ok level
unfolding get_level
get_level-ok l i e = rw (get_level, e) refl

pub on_level-ok :
    (b : Book) (side : OrderSide) (i : ℕ) (f : Level → Heap → Outcome (Level × Heap))
    {level level' : Level} {h : Heap}
    → get_elem? (ladder_of side b).levels i ≡ some level
    → f level (heap_of b) ≡ ok (level', h)
    → on_level (level_ref side i) f b
      ≡ (ok tt, put_heap h (put_ladder side (put_level (ladder_of side b) i level') b))
unfolding on_level read_level write_level
on_level-ok b side i f at run = rw (get_level-ok (ladder_of side b) i at, run) refl

pub on_ladder-ok :
    (b : Book) (side : OrderSide) (f : Ladder → Outcome Ladder) {l : Ladder}
    → f (ladder_of side b) ≡ ok l
    → on_ladder side f b ≡ (ok tt, put_ladder side l b)
unfolding on_ladder
on_ladder-ok b side f run = rw run refl

-- The bits know nothing of the levels.
pub IsMarked-put_level :
    (l : Ladder) (i : ℕ) (level : Level) → IsMarked l → IsMarked (put_level l i level)
unfolding put_level
IsMarked-put_level l i level v = record {
  full = v.full;
  room = v.room;
  clear = v.clear;
  counted = v.counted;
  first = v.first;
  machine = v.machine;
}

pub put_level-Relevelled :
    (l : Ladder) (i : ℕ) (level : Level) → IsMarked l → Relevelled l (put_level l i level) i level
unfolding put_level
put_level-Relevelled l i level v = record {
  min = refl;
  tick = refl;
  max = refl;
  count = refl;
  direction = refl;
  levels = refl;
  bits = λ k ne. refl;
  marked = IsMarked-put_level l i level v;
}

-- A new level, and a change of its bit.
pub Flipped-Relevelled :
    (l l' : Ladder) (i : ℕ) (level : Level) (b : Bool)
    → IsMarked l'
    → Flipped i b (put_level l i level) l'
    → SameLevels (put_level l i level) l'
    → Relevelled l l' i level × (bit l'.words i ≡ b)
unfolding put_level
Flipped-Relevelled l l' i level b v flip same = (
  record {
    min = same.min;
    tick = same.tick;
    max = same.max;
    count = same.count;
    direction = same.direction;
    levels = same.levels;
    bits = λ k ne. flip k ∙ rw (test_of_ne k i ne) refl;
    marked = v;
  },
  flip i ∙ rw ((==_iff i i).1 refl) refl,
)

pub index_of-put_level :
    (l : Ladder) (i : ℕ) (level : Level) (price : Price)
    → index_of (put_level l i level) price ≡ index_of l price
unfolding index_of put_level to_index
index_of-put_level l i level price = refl

pub some_order-length : (xs : List Ptr) → some_order xs ≡ (if length xs == 0 then false else true)
some_order-length [] = refl
some_order-length (x ∷ xs) = rw (test_of_ne (length (x ∷ xs)) 0 (omega arith)) refl

module _ (b : Book) (side : OrderSide) (i : ℕ) (level : Level) (p : Ptr) (o : Order)
    (xs ys : List Ptr) (ranged : IsRanged (ladder_of side b)) (marked : IsMarked (ladder_of side b))
    (lt : i < (ladder_of side b).level_count)
    (at : get_elem? (ladder_of side b).levels i ≡ some level)
    (priced : level.price ≡ price_at (ladder_of side b) i)
    (queue : IsQueue (level_ref side i) (heap_of b) level (xs ++ p ∷ ys))
    (stored : heap_of b p ≡ some o) (linked : o.price_level ≡ some (level_ref side i))
    (shown : bit (ladder_of side b).words i ≡ true) (price : Price)
    (same_price : price ≡ level.price) where
  -- What the call leaves.
  pub record Unlinked (level' : Level) (h : Heap) (l : Ladder) : Type 0 where
    pub run :
        unlink_order p (level_ref side i) side price b ≡ (ok tt, put_heap h (put_ladder side l b))
    pub removed : Removed (level_ref side i) (heap_of b) level p o xs ys (level', h)
    pub relevelled : Relevelled (ladder_of side b) l i level'
    pub shows : bit l.words i ≡ some_order (xs ++ ys)

  inside : i < length (ladder_of side b).levels
  inside = omega (arith, ranged.sized)

  priced_at : index_of (ladder_of side b) price ≡ ok i
  priced_at =
      ap (index_of (ladder_of side b)) (same_price ∙ priced)
      ∙ index_of-price_at (ladder_of side b) ranged i lt

  pub unlink_order-Unlinked : (level' : Level) × (h : Heap) × (l : Ladder) × Unlinked level' h l
  unfolding unlink_order read_level put_level
  unlink_order-Unlinked =
      let ((level', h), run, removed) =
        remove_order-Removed (level_ref side i) (heap_of b) level p o xs ys queue stored linked in
      let l1 = put_level (ladder_of side b) i level' in
      let first =
        on_level-ok b side i (λ l h. Level.remove_order (level_ref side i) l p h) at run in
      let again = ladder_of-put side l1 b in
      let read : get_level l1 i ≡ ok level' =
        get_level-ok l1 i (get_elem?-set_self (ladder_of side b).levels i level' inside) in
      let left_lem : (e : Bool)
          → is_empty level' ≡ e
          → some_order (xs ++ ys) ≡ (if e then false else true) =
        λ e q.
          some_order-length (xs ++ ys)
          ∙ ap (λ n. if n == 0 then false else true) (sym removed.queue.counted)
          ∙ ap (λ c. if c then false else true) q in
      elim (Bool-cases (is_empty level')) [
        | inr more ↦ (
          level',
          h,
          l1,
          record {
            run = rw (first, again, read, more) refl;
            removed = removed;
            relevelled = put_level-Relevelled (ladder_of side b) i level' marked;
            shows = shown ∙ sym (left_lem false more);
          },
        )
        | inl empty ↦
            let (l2, mark, marked', flip, same) =
              mark_empty-IsMarked l1 price i (IsMarked-put_level (ladder_of side b) i level' marked)
                lt (index_of-put_level (ladder_of side b) i level' price ∙ priced_at) shown in
            let (r, cleared) =
              Flipped-Relevelled (ladder_of side b) l2 i level' false marked' flip same in
            (
              level',
              h,
              l2,
              record {
                run =
                    rw (first, again, read, empty)
                      (on_ladder-ok (put_heap h (put_ladder side l1 b)) side (mark_empty price)
                          (ap (mark_empty price) again ∙ mark)
                        ∙ ap (λ x. (ok tt, put_heap h x)) (put_ladder_again side l1 l2 b));
                removed = removed;
                relevelled = r;
                shows = cleared ∙ sym (left_lem true empty);
              },
            )
      ]
