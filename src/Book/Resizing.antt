-- ===== src/Book/Resizing.antt =====
-- An order keeps its place and has less left: what it does to its queue and to the depth of the level.
use leka.Base.{
  ◌+◌, ◌-◌, ◌<◌, ◌≤◌, ◌≡◌, ◌≢◌, refl, sym, ap, ◌∙◌, subst, inl, inr, some, List, ◌∷◌, arith, ◌==◌,
  Bool-cases, eq_of_test, ne_of_test, ◌∈◌, ne_of_mem, IsDistinct-middle, IsDistinct,
}
use mathlib.Core.Option.{some-injective}
use leka.Types.{Quantity}
use leka.Order.{Ptr, LevelRef, Order}
use leka.Memory.{Heap, update, update_self, update_ne}
use leka.Level.{Level}
use leka.Level.Segment.{Segment-update}
use leka.Level.Invariant.{
  contents, view, view-some, view_congr, view_self, Rests, IsQueue, IsFunded, depth, depth-cons,
  depth-append, depth_congr, remaining_at, remaining_at-some, remaining_at_congr,
}
use leka.Book.Places.{split_mem}

-- The order with `target` left.
abbrev pub resized : Quantity → Order → Order
resized target o = record o { remaining_quantity = target }

-- The level with another aggregate.
abbrev pub retotalled : Quantity → Level → Level
retotalled total level = record level { total_quantity = total }

module _ (this : LevelRef) (h : Heap) (level : Level) (p : Ptr) (o : Order) (xs : List Ptr)
    (target : Quantity) (v : IsQueue this h level xs) (stored : h p ≡ some o) (mem : p ∈ xs) where
  abbrev pub resized_heap : Heap
  resized_heap = update h p (some (resized target o))

  off_p : (a : Ptr) → a ≢ p → view resized_heap a ≡ view h a
  off_p a ne = view_congr h resized_heap a (update_ne h p a _ ne)

  pub resized-IsQueue : (total : Quantity) → IsQueue this resized_heap (retotalled total level) xs
  resized-IsQueue total =
      let old = v.owned p mem in
      let same : old.order ≡ contents o =
        some-injective old.order (contents o) (sym old.holds ∙ view-some h p stored) in
      record {
        chain = Segment-update p (resized target o) v.chain stored refl refl;
        distinct = v.distinct;
        no_null = v.no_null;
        counted = v.counted;
        machine = v.machine;
        owned = λ a i. elim (Bool-cases (a == p)) [
          | inl at ↦ record {
            order = contents (resized target o);
            holds = ap (view resized_heap) (eq_of_test a p at) ∙ view_self h p (resized target o);
            level = ap (λ r. r.price_level) (sym same) ∙ old.level;
            at_price = ap (λ r. r.price) (sym same) ∙ old.at_price;
          }
          | inr ne ↦
              subst (Rests this level.price) (sym (off_p a (ne_of_test a p ne))) (v.owned a i)
        ];
      }

  pub depth-resized : depth resized_heap xs + o.remaining_quantity ≡ depth h xs + target
  depth-resized =
      let (front, back, s) = split_mem p xs mem in
      let (px, py, _) = IsDistinct-middle p front back (subst IsDistinct s v.distinct) in
      rw s (
        omega (
          arith,
          depth-append resized_heap front (p ∷ back),
          depth-append h front (p ∷ back),
          depth-cons resized_heap p back,
          depth-cons h p back,
          remaining_at-some h p stored,
          remaining_at-some resized_heap p (update_self h p (some (resized target o))),
          depth_congr h resized_heap front (λ a i. off_p a (ne_of_mem front i px)),
          depth_congr h resized_heap back (λ a i. off_p a (ne_of_mem back i py)),
        ))

  pub covers : IsFunded h level xs → o.remaining_quantity ≤ level.total_quantity
  covers f =
      let (front, back, s) = split_mem p xs mem in
      omega (
        arith,
        f.covered,
        ap (depth h) s,
        depth-append h front (p ∷ back),
        depth-cons h p back,
        remaining_at-some h p stored,
      )

  pub resized-IsFunded :
      IsFunded h level xs
      → 0 < target
      → target ≤ o.remaining_quantity
      → IsFunded resized_heap
          (retotalled (level.total_quantity - (o.remaining_quantity - target)) level)
          xs
  resized-IsFunded f pos small = record {
    positive = λ a i. elim (Bool-cases (a == p)) [
      | inl at ↦ omega (
        arith,
        ap (remaining_at resized_heap) (eq_of_test a p at),
        remaining_at-some resized_heap p (update_self h p (some (resized target o))),
      )
      | inr ne ↦
          omega (
            arith,
            remaining_at_congr h resized_heap a (off_p a (ne_of_test a p ne)),
            f.positive a i,
          )
    ];
    covered = omega (arith, depth-resized, f.covered, covers f);
    bounded = omega (arith, f.bounded);
  }
