-- ===== src/Level/Add.antt =====
-- `PriceLevel::addOrder`: the order joins the back of the queue.
use leka.Base.{
  ◌+◌, ◌≤◌, ◌<◌, ◌≡◌, refl, sym, ap, ◌∙◌, ◌≢◌, none, some, List, [], ◌∷◌, ◌++◌, arith, ◌==◌, ==_iff,
  test_of_ne, length, length-append, ◌∉◌, has-append, Bool-cases, eq_of_test, ne_of_test, ne_of_mem,
  IsDistinct-snoc, subst, inl, inr,
}
use leka.Base.Outcome.{ok}
use leka.Types.{u64_max, add_u64}
use leka.Order.{Ptr, null, LevelRef, Order}
use leka.Memory.{Heap, update, update_self, update_ne, load-ok, modify-ok}
use leka.Level.{
  Level, set_previous, set_next, set_level, modify_unless_null-null, modify_unless_null-ok,
  check_add, add_order,
}
use leka.Level.Segment.{Segment, nil, cons, Segment-frame, Segment-append, last_lem, Segment-last}
use leka.Level.Invariant.{
  contents, strip, view, view-some, view_congr, remaining_at-some, remaining_at_congr,
  length-le-depth, Rests, IsQueue, IsFunded, depth, remaining_at, depth-append, depth-one,
  depth_congr,
}

-- An order that the level accepts.
pub record IsAcceptable (level : Level) (p : Ptr) (o : Order) : Type 0 where
  pub not_null : p ≢ null
  pub priced : o.price ≡ level.price
  pub unlinked : o.price_level ≡ none
  pub unfilled : 0 < o.remaining_quantity
  pub fits : level.total_quantity + o.remaining_quantity ≤ u64_max

pub check_add-ok :
    (h : Heap) (level : Level) (p : Ptr) {o : Order}
    → h p ≡ some o
    → IsAcceptable level p o
    → check_add level p h ≡ ok o
unfolding check_add
check_add-ok h level p e a = ground (arith, load-ok h p e)

-- The order as it stands once linked behind `tail`.
abbrev linked : LevelRef → Ptr → Order → Order
linked this tail o = set_level (some this) (set_next null (set_previous tail o))

-- What the call leaves: the order is the last of the queue, the aggregate has grown by what it has
-- left, and of all other orders only links have changed, outside the queue not even those.
pub record Added (this : LevelRef) (h : Heap) (level : Level) (p : Ptr) (o : Order) (xs : List Ptr)
    (r : Level × Heap) : Type 0 where
  pub queue : IsQueue this r.1 r.0 (xs ++ p ∷ [])
  pub funded : IsFunded r.1 r.0 (xs ++ p ∷ [])
  pub total : r.0.total_quantity ≡ level.total_quantity + o.remaining_quantity
  pub price : r.0.price ≡ level.price
  pub stored : view r.1 p ≡ some (set_level (some this) (contents o))
  pub others : (a : Ptr) → a ≢ p → view r.1 a ≡ view h a
  pub outside : (a : Ptr) → a ∉ xs → a ≢ p → r.1 a ≡ h a

module _ (this : LevelRef) (h : Heap) (level : Level) (p : Ptr) (o : Order) where
  abbrev grown : Ptr → Level
  grown head = record level {
    head_order = head;
    tail_order = p;
    count = add_u64 level.count 1;
    total_quantity = add_u64 level.total_quantity o.remaining_quantity;
  }

  -- the heaps that the writes lead through
  abbrev heap_alone : Heap
  heap_alone =
      update
        (update (update h p (some (set_previous level.tail_order o))) p
          (some (set_next null (set_previous level.tail_order o))))
        p (some (linked this level.tail_order o))

  abbrev heap_behind : Order → Heap
  heap_behind last =
      update
        (update
          (update (update h p (some (set_previous level.tail_order o))) p
            (some (set_next null (set_previous level.tail_order o))))
          level.tail_order (some (set_next p last)))
        p (some (linked this level.tail_order o))

  heap_behind-spared :
      (last : Order) (a : Ptr) → a ≢ p → a ≢ level.tail_order → heap_behind last a ≡ h a
  unfolding update
  heap_behind-spared last a n m = ground arith

  heap_behind-redirect :
      (last : Order) (a : Ptr)
      → a ≢ p
      → heap_behind last a ≡ update h level.tail_order (some (set_next p last)) a
  unfolding update
  heap_behind-redirect last a n = ground arith

  heap_behind-view :
      (last : Order)
      → level.tail_order ≢ p
      → h level.tail_order ≡ some last
      → (a : Ptr) → a ≡ level.tail_order
      → view (heap_behind last) a ≡ view h a
  unfolding view update
  heap_behind-view last ne e a q =
      ap strip (
        ap (heap_behind last) q
        ∙ heap_behind-redirect last level.tail_order ne
        ∙ update_self h level.tail_order _)
      ∙ sym (view-some h a (ap h q ∙ e))

  add_order-alone :
      h p ≡ some o
      → IsAcceptable level p o
      → level.tail_order ≡ null
      → add_order this level p h ≡ ok (grown p, heap_alone)
  unfolding add_order
  add_order-alone e a t =
      rw
        (
          check_add-ok h level p e a,
          modify-ok h p (set_previous level.tail_order) e,
          modify-ok _ p (set_next null) (update_self h p _),
          modify_unless_null-null level.tail_order (set_next p) _ t,
          load-ok _ p (update_self _ p _),
          modify-ok _ p (set_level (some this)) (update_self _ p _),
          (==_iff level.tail_order null).1 t,
        )
        refl

  add_order-behind :
      (last : Order)
      → h p ≡ some o
      → IsAcceptable level p o
      → level.tail_order ≢ null
      → level.tail_order ≢ p
      → h level.tail_order ≡ some last
      → add_order this level p h ≡ ok (grown level.head_order, heap_behind last)
  unfolding add_order
  add_order-behind last e a t ne l =
      rw
        (
          check_add-ok h level p e a,
          modify-ok h p (set_previous level.tail_order) e,
          modify-ok _ p (set_next null) (update_self h p _),
          modify_unless_null-ok level.tail_order (set_next p) _ t
              (update_ne _ p level.tail_order _ ne ∙ update_ne h p level.tail_order _ ne ∙ l),
          load-ok _ p (update_ne _ level.tail_order p _ (λ q. ne (sym q)) ∙ update_self _ p _),
          modify-ok _ p (set_level (some this))
              (update_ne _ level.tail_order p _ (λ q. ne (sym q)) ∙ update_self _ p _),
          test_of_ne level.tail_order null t,
        )
        refl

  -- What holds of any heap in which the order is linked and the others keep their contents.
  module _ (xs : List Ptr) (v : IsQueue this h level xs) (f : IsFunded h level xs) where
    Added-of :
        (g : Heap) (head : Ptr)
        → IsAcceptable level p o
        → p ∉ xs
        → g p ≡ some (linked this level.tail_order o)
        → ((a : Ptr) → a ≢ p → view g a ≡ view h a)
        → ((a : Ptr) → a ∉ xs → a ≢ p → g a ≡ h a)
        → Segment g p null null head (xs ++ p ∷ [])
        → Added this h level p o xs (grown head, g)
    Added-of g head acc out stored same outside chain = record {
      queue = record {
        chain = chain;
        distinct = IsDistinct-snoc p xs v.distinct out;
        no_null = ground (arith, has-append null xs (p ∷ []), v.no_null, acc.not_null);
        counted =
            omega
              (arith, v.counted, len, cover, acc.unfilled, acc.fits, length-append {0} xs (p ∷ []));
        machine = omega (arith, v.counted, len, cover, acc.unfilled, acc.fits);
        owned = λ a i. elim (Bool-cases (a == p)) [
          | inl e ↦ record {
            order = set_level (some this) (contents o);
            holds = ap (view g) (eq_of_test a p e) ∙ at_p;
            level = refl;
            at_price = acc.priced;
          }
          | inr n ↦
              subst (Rests this level.price) (sym (same a (ne_of_test a p n)))
                (v.owned a (ground (arith, has-append a xs (p ∷ []))))
        ];
      };
      funded = record {
        positive = λ a i. elim (Bool-cases (a == p)) [
          | inl e ↦ omega (arith, ap (remaining_at g) (eq_of_test a p e), rem, acc.unfilled)
          | inr n ↦ omega (
            arith,
            remaining_at_congr h g a (same a (ne_of_test a p n)),
            f.positive a (ground (arith, has-append a xs (p ∷ []))),
          )
        ];
        covered = omega (
          arith,
          depth-append g xs (p ∷ []),
          depth-one g p,
          depth_congr h g xs (λ a i. same a (ne_of_mem xs i out)),
          rem,
          cover,
          acc.fits,
        );
        bounded = omega arith;
      };
      total = omega arith;
      price = refl;
      stored = at_p;
      others = same;
      outside = outside;
    }
      where
        at_p : view g p ≡ some (set_level (some this) (contents o))
        at_p = view-some g p stored

        rem : remaining_at g p ≡ o.remaining_quantity
        rem = remaining_at-some g p stored

        len : length xs ≤ depth h xs
        len = length-le-depth h xs f.positive

        cover : depth h xs ≤ level.total_quantity
        cover = f.covered

  Added-alone :
      h p ≡ some o
      → IsAcceptable level p o
      → IsQueue this h level []
      → IsFunded h level []
      → (r : Level × Heap) × (add_order this level p h ≡ ok r) × Added this h level p o [] r
  Added-alone e acc v f =
      let tail : level.tail_order ≡ null = Segment-last v.chain in
      (
        (grown p, heap_alone),
        add_order-alone e acc tail,
        Added-of [] v f heap_alone p acc refl (update_self _ p _)
            (λ a n. view_congr h heap_alone a (update_thrice a n)) (λ a _ n. update_thrice a n)
            (cons (linked this level.tail_order o) (update_self _ p _) refl tail (nil refl refl)),
      )
    where
      update_thrice : (a : Ptr) → a ≢ p → heap_alone a ≡ h a
      update_thrice a n = update_ne _ p a _ n ∙ update_ne _ p a _ n ∙ update_ne h p a _ n

  Added-behind :
      (x : Ptr) (ys : List Ptr)
      → h p ≡ some o
      → IsAcceptable level p o
      → p ∉ (x ∷ ys)
      → IsQueue this h level (x ∷ ys)
      → IsFunded h level (x ∷ ys)
      → (r : Level × Heap) × (add_order this level p h ≡ ok r) × Added this h level p o (x ∷ ys) r
  Added-behind x ys e acc out v f =
      let old = last_lem x ys v.chain v.distinct in
      let ne : level.tail_order ≢ p = ne_of_mem (x ∷ ys) old.inside out in
      let g = heap_behind old.order in
      (
        (grown level.head_order, g),
        add_order-behind old.order e acc (ne_of_mem (x ∷ ys) old.inside v.no_null) ne old.holds,
        Added-of (x ∷ ys) v f g level.head_order acc out (update_self _ p _)
            (λ a n. elim (Bool-cases (a == level.tail_order)) [
              | inl t ↦ heap_behind-view old.order ne old.holds a (eq_of_test a _ t)
              | inr t ↦ view_congr h g a (heap_behind-spared old.order a n (ne_of_test a _ t))
            ])
            (λ a i n.
              heap_behind-spared old.order a n (λ q. ne_of_mem (x ∷ ys) old.inside i (sym q)))
            (Segment-append
              (Segment-frame (old.redirected p)
                (λ a i. heap_behind-redirect old.order a (ne_of_mem (x ∷ ys) i out)))
              (cons (linked this level.tail_order o) (update_self _ p _) refl refl
                (nil refl refl))),
      )

  -- If an order passes the level's checks and is not in the queue, and each queued order has some
  -- quantity left and the aggregate covers them all, then adding the order succeeds: the level is
  -- then the queue with the order at its back, the aggregate is more by what the order has left
  -- and still covers all, without wrap-around, the price is the same, the other orders keep all
  -- but their links, and nothing but the order and the queue is written.
  pub add_order-Added :
      (xs : List Ptr)
      → h p ≡ some o
      → IsAcceptable level p o
      → p ∉ xs
      → IsQueue this h level xs
      → IsFunded h level xs
      → (r : Level × Heap) × (add_order this level p h ≡ ok r) × Added this h level p o xs r
  add_order-Added [] e acc out v f = Added-alone e acc v f
  add_order-Added (x ∷ ys) e acc out v f = Added-behind x ys e acc out v f
