-- ===== src/Book/Departure.antt =====
-- An order leaves the book: the states that the calls of `removeOrder` lead through.
use leka.Base.{
  ℕ, ◌+◌, ◌<◌, ◌≤◌, ◌≡◌, ◌≢◌, refl, sym, ap, ◌∙◌, subst, inl, inr, true, none, some, List, [], ◌∷◌,
  ◌++◌, arith, ◌==◌, Bool-cases, ne_of_test, test_of_ne, ==_iff, ◌∈◌, has, has-append, ne_of_mem,
  IsDistinct-middle,
}
use mathlib.Core.Option.{none-ne-some, some-injective}
use leka.Types.{OrderId, OrderSide, sub_u64, Quantity}
use leka.Order.{Ptr, null, Order}
use leka.Memory.{Heap, update, update_self, update_ne}
use leka.Level.{Level}
use leka.Level.Invariant.{depth, remaining_at_congr, contents, view, view-some, view_congr, IsQueue}
use leka.Level.Remove.{Removed, Removed-IsFunded}
use leka.Ladder.{Ladder}
use leka.Ladder.Words.{bit}
use leka.Index.{Index}
use leka.Index.Insertion.{update_map}
use leka.Index.Table.{Represents}
use leka.Pool.{Store}
use leka.Pool.Invariant.{IsPool}
use leka.Book.{put_heap, Book, heap_of, ladder_of, put_ladder, put_heap}
use leka.Book.Invariant.{
  Queues, queues_of, put_queue, level_ref, some_order, IsAt, IsSide, IsBook, IsQueue-frame,
  IsFunded-frame, Relevelled,
}
use leka.Book.Unlinking.{Unlinked, unlink_order-Unlinked}
use leka.Book.Update.{new_sides}
use leka.Book.Resizing.{resized, resized-IsQueue, depth-resized}
use leka.Book.Places.{
  place_cases, put_queue_at, put_queue_off, level_count-put, view-none, place_lem, one_place,
}

-- What the removal of the order `o` at `p` leaves, whatever has been executed of it before: its queue less it, the map less its identifier, and
-- of all other orders only the links may have changed.
pub record Leaves (hash : ℕ → ℕ) (b : Book) (q : Queues) (m : OrderId → Ptr) (p : Ptr) (o : Order)
    (b' : Book) (q' : Queues) : Type 0 where
  pub index : ℕ
  pub before : List Ptr
  pub behind : List Ptr
  pub was : queues_of o.order_side q index ≡ before ++ p ∷ behind
  pub now : q' ≡ put_queue o.order_side index (before ++ behind) q
  pub book : IsBook hash b' q' (update_map m o.order_id null)
  pub gone : heap_of b' p ≡ none
  pub others : (a : Ptr) → a ≢ p → view (heap_of b') a ≡ view (heap_of b) a
  pub count : b'.index.count + 1 ≡ b.index.count
  pub levels : (t : OrderSide) → (ladder_of t b').level_count ≡ (ladder_of t b).level_count

module _ (hash : ℕ → ℕ) (b : Book) (q : Queues) (m : OrderId → Ptr) (v : IsBook hash b q m)
    (p : Ptr) (o : Order) (stored : heap_of b p ≡ some o) (i : ℕ) (xs ys : List Ptr)
    (lt : i < (ladder_of o.order_side b).level_count)
    (was : queues_of o.order_side q i ≡ xs ++ p ∷ ys) (rest_of_it : Quantity)
    (less : rest_of_it ≤ o.remaining_quantity) where
  abbrev pub side : OrderSide
  side = o.order_side

  -- The book in which the order has less left, or as much as it had.
  abbrev pub spent : Book
  spent = put_heap (update (heap_of b) p (some (resized rest_of_it o))) b

  pub at : IsAt (heap_of b) side (ladder_of side b) i (xs ++ p ∷ ys)
  at = subst (IsAt (heap_of b) side (ladder_of side b) i) was ((v.sides side).levels i lt)

  in_old : (a : Ptr) → a ∈ (xs ++ p ∷ ys) → a ∈ queues_of side q i
  in_old a mem = subst (λ l. a ∈ l) (sym was) mem

  p_in : p ∈ (xs ++ p ∷ ys)
  p_in = has-append p xs (p ∷ ys) ∙ ground (arith, (==_iff p p).1 refl)

  pub linked : o.price_level ≡ some (level_ref side i)
  linked =
      place_lem hash b q m v side i p (contents o) lt (in_old p p_in)
        (view-some (heap_of b) p stored)

  pub at_price : o.price ≡ at.level.price
  at_price =
      let r = at.queue.owned p p_in in
      ap (λ c. c.price)
        (some-injective (contents o) r.order (sym (view-some (heap_of b) p stored) ∙ r.holds))
      ∙ r.at_price

  pub not_null : p ≢ null
  not_null = ne_of_mem (xs ++ p ∷ ys) p_in at.queue.no_null

  pub mapped_id : m o.order_id ≡ p
  mapped_id = (v.resting p (contents o) (view-some (heap_of b) p stored)).0

  pub marked_bit : some_order (xs ++ p ∷ ys) ≡ true
  marked_bit = go xs
    where
      go : (xs : List Ptr) → some_order (xs ++ p ∷ ys) ≡ true
      go [] = refl
      go (x ∷ xs) = refl

  pub spent-IsQueue : IsQueue (level_ref side i) (heap_of spent) at.level (xs ++ p ∷ ys)
  spent-IsQueue =
      resized-IsQueue (level_ref side i) (heap_of b) at.level p o (xs ++ p ∷ ys) rest_of_it at.queue
        stored p_in at.level.total_quantity

  pub unlink :
      (level' : Level) × (h : Heap) × (l : Ladder) × Unlinked spent side i at.level p
        (resized rest_of_it o)
        xs
        ys
        (v.sides side).ranged
        (v.sides side).marked
        lt
        at.at
        at.priced
        spent-IsQueue
        (update_self (heap_of b) p (some (resized rest_of_it o)))
        linked
        (at.shown ∙ marked_bit)
        o.price
        at_price
        level'
        h
        l
  unlink =
      unlink_order-Unlinked spent side i at.level p (resized rest_of_it o) xs ys
        (v.sides side).ranged (v.sides side).marked lt at.at at.priced spent-IsQueue
        (update_self (heap_of b) p (some (resized rest_of_it o))) linked (at.shown ∙ marked_bit)
        o.price at_price

  -- The states that the call leads through.
  module _ (level' : Level) (h : Heap) (l : Ladder) (t : Index) (s : Store)
      (removed : Removed
        (level_ref side i)
        (heap_of spent)
        at.level
        p
        (resized rest_of_it o)
        xs
        ys
        (level', h))
      (relevelled : Relevelled (ladder_of side b) l i level') (heap : s.heap ≡ update h p none)
      (shows : bit l.words i ≡ some_order (xs ++ ys)) where
    abbrev pub left : Book
    left = record (put_ladder side l b) { store = s; index = t }

    abbrev rest : List Ptr
    rest = xs ++ ys

    apart : (a : Ptr) → a ∈ rest → a ≢ p
    apart a mem =
        let (px, py, _) = IsDistinct-middle p xs ys at.queue.distinct in
        ne_of_mem rest mem (ground (arith, has-append p xs ys))

    in_rest : (a : Ptr) → a ≢ p → a ∈ (xs ++ p ∷ ys) → a ∈ rest
    in_rest a ne mem = ground (arith, has-append a xs (p ∷ ys), has-append a xs ys)

    of_rest : (a : Ptr) → a ∈ rest → a ∈ (xs ++ p ∷ ys)
    of_rest a mem = ground (arith, has-append a xs (p ∷ ys), has-append a xs ys)

    at_ne : (a : Ptr) → a ≢ p → s.heap a ≡ h a
    at_ne a ne = ap (λ g. g a) heap ∙ update_ne h p a none ne

    pub views : (a : Ptr) → a ≢ p → view s.heap a ≡ view (heap_of b) a
    views a ne =
        view_congr h s.heap a (at_ne a ne)
        ∙ removed.others a ne
        ∙ view_congr (heap_of b) (heap_of spent) a (update_ne (heap_of b) p a _ ne)

    pub gone : s.heap p ≡ none
    gone = ap (λ g. g p) heap ∙ update_self h p none

    -- An order that rests elsewhere stands in memory as it did.
    spared :
        (t : OrderSide) (k : ℕ) (a : Ptr)
        → k < (ladder_of t b).level_count
        → level_ref t k ≢ level_ref side i
        → a ∈ queues_of t q k
        → s.heap a ≡ heap_of b a
    spared t k a lt_k ne mem = elim (Bool-cases (has a (xs ++ p ∷ ys))) [
      | inl there ↦ absurd (ne (one_place hash b q m v t side k i a lt_k lt mem (in_old a there)))
      | inr away ↦
          let ne_p : a ≢ p = λ e. ground (arith, ap (λ x. has x (xs ++ p ∷ ys)) e, p_in, away) in
          at_ne a ne_p ∙ removed.outside a away ∙ update_ne (heap_of b) p a _ ne_p
    ]

    left_over : depth (heap_of spent) (xs ++ p ∷ ys) ≤ at.level.total_quantity
    left_over = omega (
      arith,
      depth-resized (level_ref side i) (heap_of b) at.level p o (xs ++ p ∷ ys) rest_of_it at.queue
          stored p_in,
      at.funded.covered,
      less,
    )

    left-IsSide :
        (t : OrderSide) → IsSide s.heap t (ladder_of t left) (queues_of t (put_queue side i rest q))
    left-IsSide =
        new_sides b q s.heap side i l level' rest v.sides relevelled lt (removed.price ∙ at.priced)
          (IsQueue-frame (level_ref side i) h s.heap level' rest (λ a mem. at_ne a (apart a mem))
            removed.queue)
          (IsFunded-frame h s.heap level' rest
            (λ a mem. view_congr h s.heap a (at_ne a (apart a mem)))
            (Removed-IsFunded xs ys removed (update_self (heap_of b) p _) at.queue.distinct
              (λ a mem. omega (
                arith,
                remaining_at_congr (heap_of b) (heap_of spent) a (
                    view_congr (heap_of b) (heap_of spent) a
                      (update_ne (heap_of b) p a _ (apart a mem))),
                at.funded.positive a (of_rest a mem),
              ))
              left_over at.funded.bounded))
          shows spared

    pub same_count : (t : OrderSide) → (ladder_of t left).level_count ≡ (ladder_of t b).level_count
    same_count t = level_count-put t side l b relevelled.count

    -- Who is in a queue now was in it before.
    was_in :
        (t : OrderSide) (k : ℕ) (a : Ptr)
        → a ∈ queues_of t (put_queue side i rest q) k
        → (a ∈ queues_of t q k) × (k < (ladder_of t b).level_count → a ≢ p)
    was_in t k a mem = elim (place_cases t side k i) [
      | inl (same, e) ↦
          let mem' : a ∈ rest =
            subst (λ x. a ∈ x)
              (ap (λ x. queues_of x (put_queue side i rest q) k) same
                ∙ ap (queues_of side (put_queue side i rest q)) e
                ∙ put_queue_at side i rest q)
              mem in
          (
            subst (λ x. a ∈ x) (sym (ap (λ x. queues_of x q k) same ∙ ap (queues_of side q) e))
                (in_old a (of_rest a mem')),
            λ _. apart a mem',
          )
      | inr ne ↦
          let mem' : a ∈ queues_of t q k =
            subst (λ x. a ∈ x) (put_queue_off t side k i rest q ne) mem in
          (
            mem',
            λ lt_k e. ne (
                one_place hash b q m v t side k i p lt_k lt
                  (subst (λ x. x ∈ queues_of t q k) e mem') (in_old p p_in)),
          )
    ]

    still_in :
        (t : OrderSide) (k : ℕ) (a : Ptr)
        → a ≢ p
        → a ∈ queues_of t q k
        → a ∈ queues_of t (put_queue side i rest q) k
    still_in t k a ne mem = elim (place_cases t side k i) [
      | inl (same, e) ↦
          subst (λ x. a ∈ x)
            (sym (
              ap (λ x. queues_of x (put_queue side i rest q) k) same
              ∙ ap (queues_of side (put_queue side i rest q)) e
              ∙ put_queue_at side i rest q))
            (in_rest a ne (
              subst (λ x. a ∈ x) (ap (λ x. queues_of x q k) same ∙ ap (queues_of side q) e ∙ was)
                mem))
      | inr off ↦ subst (λ x. a ∈ x) (sym (put_queue_off t side k i rest q off)) mem
    ]

    other_id : (a : Ptr) (c : Order) → a ≢ p → view (heap_of b) a ≡ some c → c.order_id ≢ o.order_id
    other_id a c ne e q' = ne (sym (v.resting a c e).0 ∙ ap m q' ∙ mapped_id)

    pub left-IsBook :
        IsPool s
        → Represents hash t (update_map m o.order_id null)
        → t.count + 1 ≡ b.index.count
        → s.pool.live_order_count ≡ sub_u64 b.store.pool.live_order_count 1
        → IsBook hash left (put_queue side i rest q) (update_map m o.order_id null)
    left-IsBook pool represents count living = record {
      pool = pool;
      represents = represents;
      machine = omega (arith, v.machine);
      live = omega (arith, living, v.live, v.machine);
      sides = left-IsSide;
      queued = λ t k a lt_k mem.
          let lt' : k < (ladder_of t b).level_count = omega (arith, same_count t) in
          let (mem', ne) = was_in t k a mem in
          let (c, e, at_side) = v.queued t k a lt' mem' in (c, views a (ne lt') ∙ e, at_side);
      resting = λ a c e.
          let ne : a ≢ p =
            λ e'. none-ne-some c (sym (view-none s.heap a (ap s.heap e' ∙ gone)) ∙ e) in
          let old = sym (views a ne) ∙ e in
          let (id, k, lt_k, mem) = v.resting a c old in
          (
            rw (test_of_ne c.order_id o.order_id (other_id a c ne old)) id,
            k,
            omega (arith, same_count c.order_side),
            still_in c.order_side k a ne mem,
          );
      valid = λ a c e.
          let ne : a ≢ p =
            λ e'. none-ne-some c (sym (view-none s.heap a (ap s.heap e' ∙ gone)) ∙ e) in
          v.valid a c (sym (views a ne) ∙ e);
      mapped = λ id h'. elim (Bool-cases (id == o.order_id)) [
        | inl e ↦ absurd (h' (rw e refl))
        | inr e ↦
            let (c, at_c, same_id) = v.mapped id (rw e at h') in
            let ne : m id ≢ p = λ e'. ne_of_test id o.order_id e (
              sym same_id
              ∙ ap (λ x. x.order_id)
                  (some-injective c (contents o)
                    (sym at_c ∙ ap (view (heap_of b)) e' ∙ view-some (heap_of b) p stored))) in
            rw e (c, views (m id) ne ∙ at_c, same_id)
      ];
    }
