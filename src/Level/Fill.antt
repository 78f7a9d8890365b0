-- ===== src/Level/Fill.antt =====
-- What a full fill does to a level: the engine reduces the order to nothing and then has it removed.
use leka.Base.{
  ◌+◌, ◌≤◌, ◌≡◌, refl, sym, ap, ◌∙◌, some, List, [], ◌∷◌, arith, ◌∈◌, ne_of_mem, Bool-cases,
  eq_of_test, ne_of_test, ◌==◌, inl, inr, subst,
}
use mathlib.Core.Option.{some-injective}
use leka.Base.Outcome.{ok}
use leka.Types.{u64_max}
use leka.Order.{Ptr, LevelRef, Order}
use leka.Memory.{Heap, update, update_self, update_ne}
use leka.Level.{Level, remove_order}
use leka.Level.Segment.{Segment-update}
use leka.Level.Invariant.{
  contents, view, view-some, view_congr, view_self, Rests, IsQueue, depth, depth-cons, depth_congr,
  remaining_at-some,
}
use leka.Level.Remove.{remove_order-Removed}

-- The order with nothing left.
abbrev pub filled : Order → Order
filled o = record o { remaining_quantity = 0 }

p_inside : (p : Ptr) (ys : List Ptr) → p ∈ (p ∷ ys)
p_inside p ys = ground arith

view_order : (r o : Order) → some r ≡ some (contents o) → r ≡ contents o
view_order r o e = some-injective r (contents o) e

module _ (this : LevelRef) (h : Heap) (level : Level) (p : Ptr) (o : Order) (ys : List Ptr) where
  abbrev pub filled_heap : Heap
  filled_heap = update h p (some (filled o))

  -- A change of the head's quantity leaves the queue a queue.
  pub filled-IsQueue :
      IsQueue this h level (p ∷ ys) → h p ≡ some o → IsQueue this filled_heap level (p ∷ ys)
  filled-IsQueue v e =
      let old = v.owned p (p_inside p ys) in
      let same = view_order old.order o (sym old.holds ∙ view-some h p e) in
      record {
        chain = Segment-update p (filled o) v.chain e refl refl;
        distinct = v.distinct;
        no_null = v.no_null;
        counted = v.counted;
        machine = v.machine;
        owned = λ a i. elim (Bool-cases (a == p)) [
          | inl at ↦ record {
            order = contents (filled o);
            holds = ap (view filled_heap) (eq_of_test a p at) ∙ view_self h p (filled o);
            level = ap (λ r. r.price_level) (sym same) ∙ old.level;
            at_price = ap (λ r. r.price) (sym same) ∙ old.at_price;
          }
          | inr ne ↦
              subst (Rests this level.price)
                (sym (view_congr h filled_heap a (update_ne h p a _ (ne_of_test a p ne))))
                (v.owned a i)
        ];
      }

  -- If the head of a queue is reduced to nothing and then removed, the removal succeeds and
  -- leaves the aggregate of the level as it was, though the orders that still rest there have
  -- less together, by all that the head had. The aggregate is a 64-bit number before.
  pub total_after_fill :
      IsQueue this h level (p ∷ ys)
      → h p ≡ some o
      → level.total_quantity ≤ u64_max
      → (r : Level × Heap) × (remove_order this level p filled_heap ≡ ok r)
        × (r.0.total_quantity ≡ level.total_quantity)
        × (depth r.1 ys + o.remaining_quantity ≡ depth h (p ∷ ys))
  total_after_fill v e small =
      let old = v.owned p (p_inside p ys) in
      let same = view_order old.order o (sym old.holds ∙ view-some h p e) in
      let (r, run, removed) =
        remove_order-Removed this filled_heap level p (filled o) [] ys (filled-IsQueue v e)
          (update_self h p _) (ap (λ k. k.price_level) (sym same) ∙ old.level) in
      (
        r,
        run,
        removed.total ∙ omega arith,
        omega (
          arith,
          depth-cons h p ys,
          remaining_at-some h p e,
          depth_congr h r.1 ys (λ a i.
              let ne = ne_of_mem ys i v.distinct.0 in
              removed.others a ne ∙ view_congr h filled_heap a (update_ne h p a _ ne)),
        ),
      )
