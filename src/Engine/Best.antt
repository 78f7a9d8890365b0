-- ===== src/Engine/Best.antt =====
-- `getBestAsk` and `getBestBid` on a book whose parts agree, as the matching loop uses them.
use leka.Base.{
  ℕ, ◌<◌, ◌≡◌, ◌⊎◌, refl, sym, ◌∙◌, subst, inl, inr, true, false, none, some, List, [], ◌∷◌, arith,
  test_of_ne, ==_iff,
}
use leka.Base.Outcome.{ok}
use leka.Types.{OrderId, OrderSide}
use leka.Order.{Ptr}
use leka.Level.Segment.{Segment, cons}
use leka.Ladder.{Ladder, npos, best}
use leka.Ladder.Words.{bit}
use leka.Memory.{Heap}
use leka.Book.{Book, heap_of, ladder_of}
use leka.Book.Invariant.{Queues, queues_of, level_ref, some_order, IsAt, IsBook}
use leka.Book.Unlinking.{get_level-ok}
use leka.Engine.{opposite, best_opposing}

some_order-none : (xs : List Ptr) → some_order xs ≡ false → xs ≡ []
some_order-none [] e = refl
some_order-none (x ∷ xs) e = absurd (ground arith)

some_order-some :
    (xs : List Ptr) → some_order xs ≡ true → (x : Ptr) × (ys : List Ptr) × (xs ≡ x ∷ ys)
some_order-some [] e = absurd (ground arith)
some_order-some (x ∷ xs) e = (x, xs, refl)

Segment-head :
    {h : Heap} {last next prev cur x : Ptr} {xs : List Ptr}
    → Segment h last next prev cur (x ∷ xs)
    → cur ≡ x
Segment-head (cons o e c b s) = c

-- The best level of a side: its first queue that has an order.
pub record IsBest (b : Book) (q : Queues) (side : OrderSide) (i : ℕ) (p : Ptr) (ps : List Ptr)
    : Type 0 where
  pub inside : i < (ladder_of side b).level_count
  pub queue : queues_of side q i ≡ p ∷ ps
  pub at : IsAt (heap_of b) side (ladder_of side b) i (p ∷ ps)
  pub before : (k : ℕ) → k < i → queues_of side q k ≡ []
  pub head : at.level.head_order ≡ p

module _ (hash : ℕ → ℕ) (b : Book) (q : Queues) (m : OrderId → Ptr) (v : IsBook hash b q m)
    (side : OrderSide) where
  abbrev l : Ladder
  l = ladder_of (opposite side) b

  empty_at :
      (k : ℕ) → k < l.level_count → bit l.words k ≡ false → queues_of (opposite side) q k ≡ []
  empty_at k lt e =
      some_order-none (queues_of (opposite side) q k)
        (sym ((v.sides (opposite side)).levels k lt).shown ∙ e)

  pub best_opposing_cases :
      (((k : ℕ) → k < l.level_count → queues_of (opposite side) q k ≡ [])
        × (best_opposing side b ≡ (ok none, b)))
      ⊎ ((i : ℕ) × (p : Ptr) × (ps : List Ptr) × (best : IsBest b q (opposite side) i p ps)
          × (best_opposing side b ≡ (ok (some (level_ref (opposite side) i, best.at.level)), b)))
  unfolding best_opposing best
  best_opposing_cases =
      let s = v.sides (opposite side) in
      elim s.marked.first [
        | inl (is_npos, empty) ↦ inl (
          λ k lt. empty_at k lt (empty k (omega arith) lt),
          rw ((==_iff l.best_index npos).1 is_npos) refl,
        )
        | inr (_, lt, set, before) ↦
            let here = s.levels l.best_index lt in
            let (p, ps, e) =
              some_order-some (queues_of (opposite side) q l.best_index) (sym here.shown ∙ set) in
            let at = subst (IsAt (heap_of b) (opposite side) l l.best_index) e here in
            inr (
              l.best_index,
              p,
              ps,
              record {
                inside = lt;
                queue = e;
                at = at;
                before = λ k low. empty_at k (omega (arith, lt)) (before k (omega arith) low);
                head = Segment-head at.queue.chain;
              },
              rw
                  (
                    test_of_ne l.best_index npos (omega (arith, lt, s.marked.machine)),
                    get_level-ok l l.best_index at.at,
                  )
                  refl,
            )
      ]
