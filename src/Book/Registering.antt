-- ===== src/Book/Registering.antt =====
-- The second part of the try block of `addOrderWithQuantities`: the bit of the level, the index, and the
-- handler when the identifier is taken.
use leka.Base.{
  ℕ, ◌<◌, ◌^◌, ◌≡◌, ◌≢◌, ◌⊎◌, refl, sym, ap, ◌∙◌, subst, inl, inr, Bool, true, false, none, some,
  [], ◌∷◌, ◌++◌, ◌==◌, if◌then◌else◌, Bool-cases,
}
use leka.Base.Outcome.{ok, throws, Exception, logic_error}
use leka.Base.State.{Cmd, pure, throw, catch, and_then, handle, when, and_then_assoc, ◌>>◌}
use leka.Types.{add_u64, OrderId, OrderSide}
use leka.Order.{Ptr, null, Order}
use leka.Memory.{Heap, update}
use leka.Level.{Level, is_empty}
use leka.Ladder.{Ladder, mark_occupied, put_level}
use leka.Ladder.Words.{bit}
use leka.Ladder.Best.{mark_occupied-IsMarked}
use leka.Index.Insertion.{update_map}
use leka.Index.Table.{Represents}
use leka.Index.Adds.{add_order_cases}
use leka.Pool.{Store, System, release}
use leka.Pool.Invariant.{IsPool}
use leka.Book.{Book, heap_of, ladder_of, put_ladder, put_heap, on_store, on_ladder, unlink_order}
use leka.Book.Add.{Linked, register_order}
use leka.Book.Invariant.{Queues, queues_of, put_queue, level_ref, IsAt, IsBook, Relevelled}
use leka.Book.Unlinking.{
  some_order-length, ladder_of-put, put_ladder_again, on_ladder-ok, put_level-Relevelled,
  Flipped-Relevelled, IsMarked-put_level, index_of-put_level,
}
use leka.Book.Places.{IsPool-heap, Added-lives, view_inverse}
use leka.Book.Arrival.{Arrives, at, views, arrived-IsBook}
use leka.Book.Linking.{Refused, duplicate, Linking, stored, given}
use leka.Book.Rollback.{Unchanged, rollback-Unchanged}

-- The order `o` in the slot `p` of the store `t`, which held none.
module _ (hash : ℕ → ℕ) (b : Book) (q : Queues) (m : OrderId → Ptr) (v : IsBook hash b q m)
    (o : Order) (free : o.price_level ≡ none) (unfilled : 0 < o.remaining_quantity) (p : Ptr)
    (t : Store) (pool : IsPool t) (not_null : p ≢ null) (vacant : heap_of b p ≡ none)
    (heap : t.heap ≡ update (heap_of b) p (some o))
    (living : t.pool.live_order_count ≡ add_u64 b.store.pool.live_order_count 1) where
  abbrev pub side : OrderSide
  side = o.order_side

  -- The bit of a level that the order found empty is set.
  module _ (i : ℕ) (lt : i < (ladder_of side b).level_count) (level' : Level) (h : Heap)
      (w : Linking hash b q m v o free unfilled p t pool not_null vacant heap living i lt level'
        h) where
    abbrev pub here : IsAt (heap_of b) side (ladder_of side b) i (queues_of side q i)
    here = at hash b q m v p o vacant i lt

    abbrev pub lines : Linked
    lines = record { level = level_ref side i; was_empty = is_empty here.level }

    -- the book with the new level, and with the ladder `l` in place of the old one
    abbrev pub lined : Ladder → Book
    lined l = put_heap h (put_ladder side l (given b t))

    shown-empty :
        (e : Bool)
        → is_empty here.level ≡ e
        → bit (ladder_of side b).words i ≡ (if e then false else true)
    shown-empty e is =
        here.shown
        ∙ some_order-length (queues_of side q i)
        ∙ ap (λ n. if n == 0 then false else true) (sym here.queue.counted)
        ∙ ap (λ c. if c then false else true) is

    mark_lem :
        (l : Ladder) × (when
            (is_empty here.level)
            (on_ladder side (mark_occupied o.price))
            (lined (put_level (ladder_of side b) i level'))
          ≡ (ok tt, lined l))
        × Relevelled (ladder_of side b) l i level'
        × (bit l.words i ≡ true)
    unfolding put_level
    mark_lem =
        let marked = (v.sides side).marked in
        let l1 = put_level (ladder_of side b) i level' in
        elim (Bool-cases (is_empty here.level)) [
          | inr more ↦ (
            l1,
            rw more refl,
            put_level-Relevelled (ladder_of side b) i level' marked,
            shown-empty false more,
          )
          | inl empty ↦
              let (l2, mark, marked', flip, same) =
                mark_occupied-IsMarked l1 o.price i
                  (IsMarked-put_level (ladder_of side b) i level' marked) lt
                  (index_of-put_level (ladder_of side b) i level' o.price ∙ w.found)
                  (shown-empty true empty) in
              let (r, set) =
                Flipped-Relevelled (ladder_of side b) l2 i level' true marked' flip same in
              (
                l2,
                rw empty (
                    on_ladder-ok (lined l1) side (mark_occupied o.price)
                      (ap (mark_occupied o.price) (ladder_of-put side l1 (given b t)) ∙ mark)
                    ∙ ap (λ x. (ok tt, put_heap h x)) (put_ladder_again side l1 l2 (given b t))),
                r,
                set,
              )
        ]

    -- The rest of the call, on a book whose ladder has the new level.
    abbrev pub undo : Exception → Cmd Book (Unit {0})
    undo e = do unlink_order p (level_ref side i) side o.price; on_store (release p); throw e

    abbrev pub finish : System → Cmd Book Ptr
    finish system = do catch (register_order hash system p o.price lines) undo; pure p

    pub finish_cases :
        (system : System)
        → b.index.count < 2 ^ 53
        → ((b' : Book) × (q' : Queues) × (finish system
                (lined (put_level (ladder_of side b) i level'))
              ≡ (ok p, b'))
            × Arrives hash b q m o p b' q')
          ⊎ ((e : Exception) × (b' : Book) × (finish system
                  (lined (put_level (ladder_of side b) i level'))
                ≡ (throws e, b'))
              × Unchanged hash b q m b'
              × Refused b m o e)
    unfolding register_order
    finish_cases system small =
        let (l, marks, relevelled, shows) = mark_lem in
        let (c, there, same_c) = view_inverse h p _ w.added.stored in
        let same_id : c.order_id ≡ o.order_id = ap (λ x. x.order_id) same_c in
        let pool' =
          IsPool-heap t h
            (Added-lives w.added
              (stored hash b q m v o free unfilled p t pool not_null vacant heap living))
            pool in
        let level_priced : o.price ≡ level'.price = sym w.priced ∙ sym w.added.price in
        elim (add_order_cases hash b.index m p h c v.represents there not_null small) [
          | inl (fresh, t', run, represents, count) ↦ inl (
            record (lined l) { index = t' },
            put_queue side i (queues_of side q i ++ p ∷ []) q,
            rw (marks, run) refl,
            record {
              index = i;
              at = here;
              priced = w.priced;
              now = refl;
              book =
                  arrived-IsBook hash b q m v p o vacant i lt t.heap heap level' h w.added l t'
                    (record t { heap = h }) relevelled shows refl pool'
                    (subst (λ id. Represents hash t' (update_map m id p)) same_id represents) count
                    small living (ap m (sym same_id) ∙ fresh) w.valid;
              fresh = ap m (sym same_id) ∙ fresh;
              vacant = vacant;
              stored = w.added.stored;
              others = views hash b q m v p o vacant i lt t.heap heap level' h w.added;
              count = count;
            },
          )
          | inr (present, t', run, represents, count) ↦
              let left : Book = record (lined l) { index = t' } in
              let ran : register_order hash system p o.price lines
                    (lined (put_level (ladder_of side b) i level'))
                  ≡ (throws logic_error, left) =
                rw (marks, run) refl in
              let is_l : ladder_of side left ≡ l = ladder_of-put side l b in
              let (b', undoes, unchanged) =
                rollback-Unchanged hash b q m v p o vacant i lt t.heap heap level' left w.added
                  (subst (λ x. Relevelled (ladder_of side b) x i level') (sym is_l) relevelled)
                  (ap (λ x. bit x.words i) is_l ∙ shows) level_priced
                  (λ x s. ap (ladder_of s) (put_ladder_again side l x b)) pool' represents count
                  living in
              inr (
                logic_error,
                b',
                ap (λ r. and_then (handle r undo) (λ _. pure p)) ran
                    ∙ ap (λ r. and_then r (λ _. pure p))
                        (and_then_assoc (unlink_order p (level_ref side i) side o.price left)
                            (λ _. on_store (release p)) (λ _. throw logic_error)
                          ∙ ap (λ r. and_then r (λ _. throw logic_error)) undoes),
                unchanged,
                duplicate (λ z. present (ap m same_id ∙ z)),
              )
        ]
