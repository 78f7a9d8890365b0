-- ===== src/Book/Rollback.antt =====
-- The handler of `addOrderWithQuantities` behind `addedToLevel`: the new order leaves its level again,
-- and the slot is given back.
use leka.Base.{
  ℕ, ◌<◌, ◌≡◌, ◌≢◌, refl, sym, ap, ◌∙◌, subst, inl, inr, true, none, some, List, [], ◌∷◌, ◌++◌,
  arith, ◌==◌, Bool-cases, eq_of_test, ne_of_test, ◌∈◌, has, has-append, get_elem?,
  get_elem?-set_self, length,
}
use mathlib.Core.List.{append-nil}
use leka.Base.Outcome.{ok}
use leka.Base.State.{and_then}
use leka.Types.{OrderId, OrderSide, add_u64, sub_u64}
use leka.Order.{Ptr, Order}
use leka.Memory.{Heap, update, update_self, update_ne}
use leka.Level.{Level}
use leka.Level.Invariant.{view, view_congr, IsQueue, IsFunded}
use leka.Level.Add.{Added}
use leka.Level.Remove.{Removed, Removed-IsFunded}
use leka.Ladder.{Ladder}
use leka.Ladder.Words.{bit}
use leka.Ladder.Prices.{price_at}
use leka.Index.Table.{Represents}
use leka.Pool.{Store, release}
use leka.Pool.Release.{release_live-IsPool}
use leka.Pool.Invariant.{IsPool}
use leka.Book.{Book, heap_of, ladder_of, put_ladder, on_store, unlink_order}
use leka.Book.Invariant.{
  Queues, queues_of, put_queue, level_ref, some_order, IsSide, IsBook, IsQueue-frame,
  IsFunded-frame, Relevelled, price_at-Relevelled, IsRanged-Relevelled,
}
use leka.Book.Unlinking.{unlink_order-Unlinked}
use leka.Book.Same.{SameSide, Relevelled-SameSide, SameSide-put, aggregates}
use leka.Book.Places.{IsPool-heap, Removed-lives, level_count-put, view_inverse, one_place}
use leka.Book.Update.{new_sides, Relevelled-trans, put_queue_same, IsBook-views}
use leka.Book.Arrival.{not_queued, at, spared, views}

-- The same queues, map and orders, and on both sides the same prices, the same aggregates of each
-- level and the same marks; links may differ, and the memory may have grown by a page.
pub record Unchanged (hash : ℕ → ℕ) (b : Book) (q : Queues) (m : OrderId → Ptr) (b' : Book)
    : Type 0 where
  pub book : IsBook hash b' q m
  pub same : (a : Ptr) → view (heap_of b') a ≡ view (heap_of b) a
  pub sides : (s : OrderSide) → SameSide (ladder_of s b) (ladder_of s b')
  pub count : b'.index.count ≡ b.index.count

module _ (hash : ℕ → ℕ) (b : Book) (q : Queues) (m : OrderId → Ptr) (v : IsBook hash b q m)
    (p : Ptr) (o : Order) (vacant : heap_of b p ≡ none) (i : ℕ)
    (lt : i < (ladder_of o.order_side b).level_count) (g : Heap)
    (heap : g ≡ update (heap_of b) p (some o)) (level' : Level) where
  abbrev side : OrderSide
  side = o.order_side

  abbrev queue : List Ptr
  queue = queues_of side q i

  abbrev old_level : Level
  old_level = (at hash b q m v p o vacant i lt).level

  -- The book in which the order stands on its level.
  module _ (b1 : Book) (added : Added (level_ref side i) g old_level p o queue (level', heap_of b1))
      (relevelled : Relevelled (ladder_of side b) (ladder_of side b1) i level')
      (shows : bit (ladder_of side b1).words i ≡ true) (priced : o.price ≡ level'.price)
      (base : (l : Ladder) (s : OrderSide)
        → ladder_of s (put_ladder side l b1) ≡ ladder_of s (put_ladder side l b))
      (pool : IsPool b1.store) (represents : Represents hash b1.index m)
      (count : b1.index.count ≡ b.index.count)
      (living : b1.store.pool.live_order_count ≡ add_u64 b.store.pool.live_order_count 1) where
    level_priced : level'.price ≡ price_at (ladder_of side b) i
    level_priced = added.price ∙ (at hash b q m v p o vacant i lt).priced

    -- The states that the handler leads through.
    module _ (c : Order) (level'' : Level) (h : Heap) (l : Ladder) (s : Store)
        (stored : heap_of b1 p ≡ some c)
        (removed : Removed (level_ref side i) (heap_of b1) level' p c queue [] (level'', h))
        (relevelled' : Relevelled (ladder_of side b1) l i level'')
        (shows' : bit l.words i ≡ some_order (queue ++ [])) (heap' : s.heap ≡ update h p none) where
      abbrev undone : Book
      undone = record (put_ladder side l b1) { store = s }

      at_ne : (a : Ptr) → a ≢ p → s.heap a ≡ h a
      at_ne a ne = ap (λ f. f a) heap' ∙ update_ne h p a none ne

      same_views : (a : Ptr) → view s.heap a ≡ view (heap_of b) a
      same_views a = elim (Bool-cases (a == p)) [
        | inl e ↦
            let q' = eq_of_test a p e in
            view_congr (heap_of b) s.heap a (
              ap s.heap q'
              ∙ ap (λ f. f p) heap'
              ∙ update_self h p none
              ∙ sym (ap (heap_of b) q' ∙ vacant))
        | inr e ↦
            let ne = ne_of_test a p e in
            view_congr h s.heap a (at_ne a ne)
            ∙ removed.others a ne
            ∙ views hash b q m v p o vacant i lt g heap level' (heap_of b1) added a ne
      ]

      apart : (a : Ptr) → a ∈ queue → a ≢ p
      apart a mem = not_queued hash b q m v p o vacant side i a lt mem

      undone-spared :
          (t : OrderSide) (k : ℕ) (a : Ptr)
          → k < (ladder_of t b).level_count
          → level_ref t k ≢ level_ref side i
          → a ∈ queues_of t q k
          → s.heap a ≡ heap_of b a
      undone-spared t k a lt_k ne mem =
          let off = not_queued hash b q m v p o vacant t k a lt_k mem in
          elim (Bool-cases (has a (queue ++ p ∷ []))) [
            | inr away ↦
                at_ne a off
                ∙ removed.outside a away
                ∙ spared hash b q m v p o vacant i lt g heap level' (heap_of b1) added t k a lt_k ne
                    mem
            | inl there ↦ absurd (
                ne (
                  one_place hash b q m v t side k i a lt_k lt mem
                    (ground (arith, has-append a queue (p ∷ [])))))
          ]

      undone-IsFunded : IsFunded s.heap level'' (queue ++ [])
      undone-IsFunded =
          IsFunded-frame h s.heap level'' (queue ++ [])
            (λ a mem.
              view_congr h s.heap a (at_ne a (apart a (subst (λ x. a ∈ x) (append-nil queue) mem))))
            (Removed-IsFunded queue [] removed stored added.queue.distinct
              (λ a mem.
                added.funded.positive a
                  (ground (arith, has-append a queue (p ∷ []), ap (has a) (append-nil queue), mem)))
              added.funded.covered added.funded.bounded)

      undone-IsQueue : IsQueue (level_ref side i) s.heap level'' (queue ++ [])
      undone-IsQueue =
          IsQueue-frame (level_ref side i) h s.heap level'' (queue ++ [])
            (λ a mem. at_ne a (apart a (subst (λ x. a ∈ x) (append-nil queue) mem))) removed.queue

      undone-IsSide :
          (t : OrderSide) → IsSide s.heap t (ladder_of t (put_ladder side l b)) (queues_of t q)
      undone-IsSide t =
          let again =
            Relevelled-trans (ladder_of side b) (ladder_of side b1) l i level' level'' relevelled
              relevelled' in
          subst (λ x. IsSide s.heap t (ladder_of t (put_ladder side l b)) (queues_of t x))
            (ap (λ xs. put_queue side i xs q) (append-nil queue) ∙ put_queue_same side i q)
            (new_sides b q s.heap side i l level'' (queue ++ []) v.sides again lt
              (removed.price ∙ level_priced) undone-IsQueue undone-IsFunded shows' undone-spared t)

      undone-same_aggregates :
          c.remaining_quantity ≡ o.remaining_quantity → aggregates level'' ≡ aggregates old_level
      undone-same_aggregates spent =
          let price : level''.price ≡ old_level.price = removed.price ∙ added.price in
          let total : level''.total_quantity ≡ old_level.total_quantity =
            omega (arith, removed.total, added.total, added.funded.bounded, spent) in
          let number : level''.count ≡ old_level.count =
            removed.queue.counted
            ∙ ap length (append-nil queue)
            ∙ sym (at hash b q m v p o vacant i lt).queue.counted in
          rw (price, total, number) refl

      undone-SameSide : c.remaining_quantity ≡ o.remaining_quantity → SameSide (ladder_of side b) l
      undone-SameSide spent =
          let again =
            Relevelled-trans (ladder_of side b) (ladder_of side b1) l i level' level'' relevelled
              relevelled' in
          let before = (v.sides side).ranged in
          Relevelled-SameSide (ladder_of side b) l i old_level level'' again
            (at hash b q m v p o vacant i lt).at (omega (arith, lt, before.sized))
            (undone-same_aggregates spent)
            (shows'
              ∙ ap some_order (append-nil queue)
              ∙ sym (at hash b q m v p o vacant i lt).shown)

      undone-Unchanged :
          IsPool s
          → c.remaining_quantity ≡ o.remaining_quantity
          → s.pool.live_order_count ≡ sub_u64 b1.store.pool.live_order_count 1
          → Unchanged hash b q m undone
      undone-Unchanged pool' spent living' = record {
        book =
            IsBook-views hash b undone q m v pool' represents count
              (omega (arith, living, living', v.live, v.machine))
              (λ t.
                subst (λ x. IsSide s.heap t x (queues_of t q)) (sym (base l t)) (undone-IsSide t))
              (λ t.
                ap (λ x. x.level_count) (base l t)
                ∙ level_count-put t side l b (relevelled'.count ∙ relevelled.count))
              same_views;
        same = same_views;
        sides = λ t.
            subst (SameSide (ladder_of t b)) (sym (base l t))
              (SameSide-put t side l b (undone-SameSide spent));
        count = count;
      }

    pub rollback-Unchanged :
        (b' : Book) × (and_then
            (unlink_order p (level_ref side i) side o.price b1)
            (λ _. on_store (release p))
          ≡ (ok tt, b'))
        × Unchanged hash b q m b'
    rollback-Unchanged =
        let before = (v.sides side).ranged in
        let (c, stored, same_c) = view_inverse (heap_of b1) p _ added.stored in
        let (level'', h, l, u) =
          unlink_order-Unlinked b1 side i level' p c queue []
            (IsRanged-Relevelled (ladder_of side b) (ladder_of side b1) i level' relevelled before)
            relevelled.marked (omega (arith, relevelled.count))
            (ap (λ ls. get_elem? ls i) relevelled.levels
              ∙ get_elem?-set_self (ladder_of side b).levels i level' (omega (arith, before.sized)))
            (level_priced
              ∙ sym (
                  price_at-Relevelled (ladder_of side b) (ladder_of side b1) i level' relevelled i))
            added.queue stored (ap (λ x. x.price_level) same_c) shows o.price priced in
        let (s, releases, pool', heap', living') =
          release_live-IsPool (record b1.store { heap = h }) p _
            (IsPool-heap b1.store h (Removed-lives u.removed stored) pool) u.removed.stored in
        (
          undone c level'' h l s stored u.removed u.relevelled u.shows heap',
          rw (u.run, releases) refl,
          undone-Unchanged c level'' h l s stored u.removed u.relevelled u.shows heap' pool'
              (ap (λ x. x.remaining_quantity) same_c) living',
        )
