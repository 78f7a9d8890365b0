-- ===== src/Level/Remove.antt =====
-- `PriceLevel::removeOrder`: an order leaves the queue, from any place in it.
use leka.Base.{
  ◌≤◌, ◌<◌, ◌≡◌, refl, sym, ◌∙◌, ◌≢◌, none, some, List, ◌∷◌, ◌++◌, arith, ◌==◌, ==_iff, test_of_ne,
  if◌then◌else◌, length-append, ◌∈◌, ◌∉◌, IsDistinct, has-append, ne_of_mem, IsDistinct-append,
  IsDistinct-middle, subst,
}
use leka.Base.Outcome.{ok}
use leka.Types.{u64_max, sub_u64}
use leka.Order.{Ptr, null, LevelRef, is_level_self, Order}
use leka.Memory.{Heap, update, update_self, load-ok, modify-ok}
use leka.Level.{
  Level, set_previous, set_next, set_level, modify_unless_null, check_remove, remove_order,
}
use leka.Level.Segment.{Segment-frame, Segment-append}
use leka.Level.Bridge.{Bridged, Rejoined, bridge_front, bridge_back, inside_lem}
use leka.Level.Invariant.{
  view, view_congr, Rests, IsQueue, IsFunded, depth, remaining_at, depth-append, depth-cons,
  depth_congr, remaining_at-some, remaining_at_congr,
}

-- The order as the call leaves it.
abbrev unlinked : Order → Order
unlinked o = set_level none (set_next null (set_previous null o))

-- What the call leaves: the queue less this order, the aggregate less what it has left, and of all
-- other orders only links have changed, outside the queue not even those.
pub record Removed (this : LevelRef) (h : Heap) (level : Level) (p : Ptr) (o : Order)
    (xs ys : List Ptr) (r : Level × Heap) : Type 0 where
  pub queue : IsQueue this r.1 r.0 (xs ++ ys)
  pub total : r.0.total_quantity ≡ sub_u64 level.total_quantity o.remaining_quantity
  pub price : r.0.price ≡ level.price
  pub stored : r.1 p ≡ some (unlinked o)
  pub others : (a : Ptr) → a ≢ p → view r.1 a ≡ view h a
  pub outside : (a : Ptr) → a ∉ (xs ++ p ∷ ys) → r.1 a ≡ h a

pub check_remove-ok :
    (this : LevelRef) (p : Ptr) (h : Heap) {o : Order}
    → p ≢ null
    → h p ≡ some o
    → o.price_level ≡ some this
    → check_remove this p h ≡ ok o
unfolding check_remove
check_remove-ok this p h n e l = rw (test_of_ne p null n, load-ok h p e, l, is_level_self this) refl

module _ (this : LevelRef) (h : Heap) (level : Level) (p : Ptr) (o : Order) (xs ys : List Ptr) where
  abbrev shrunk : Level
  shrunk = record level {
    head_order = if o.previous_order == null then o.next_order else level.head_order;
    tail_order = if o.next_order == null then o.previous_order else level.tail_order;
    count = sub_u64 level.count 1;
    total_quantity = sub_u64 level.total_quantity o.remaining_quantity;
  }

  abbrev dropped : Heap → Heap
  dropped g =
      update
        (update (update g p (some (set_previous null o))) p
          (some (set_next null (set_previous null o))))
        p (some (unlinked o))

  dropped-ne : (g : Heap) (a : Ptr) → a ≢ p → dropped g a ≡ g a
  unfolding update
  dropped-ne g a n = ground arith

  remove_order-eq :
      (h1 h2 : Heap)
      → p ≢ null
      → h p ≡ some o
      → h2 p ≡ some o
      → o.price_level ≡ some this
      → modify_unless_null o.previous_order (set_next o.next_order) h ≡ ok h1
      → modify_unless_null o.next_order (set_previous o.previous_order) h1 ≡ ok h2
      → remove_order this level p h ≡ ok (shrunk, dropped h2)
  unfolding remove_order
  remove_order-eq h1 h2 n e e2 l m1 m2 =
      rw
        (
          check_remove-ok this p h n e l,
          m1,
          m2,
          load-ok h2 p e2,
          modify-ok h2 p (set_previous null) e2,
          modify-ok _ p (set_next null) (update_self h2 p _),
          modify-ok _ p (set_level none) (update_self _ p _),
        )
        refl

  Removed-of :
      (h1 h2 : Heap)
      → IsQueue this h level (xs ++ p ∷ ys)
      → Bridged h o.previous_order o.next_order level.head_order xs h1
      → Rejoined h1 o.previous_order o.next_order level.tail_order ys h2
      → Removed this h level p o xs ys (shrunk, dropped h2)
  Removed-of h1 h2 v front back =
      let (px, py, d) = IsDistinct-middle p xs ys v.distinct in
      let apart = (IsDistinct-append xs (p ∷ ys) v.distinct).2 in
      let same = λ (a : Ptr) (n : a ≢ p).
        view_congr h2 (dropped h2) a (dropped-ne h2 a n) ∙ back.views a ∙ front.views a in
      record {
        queue = record {
          chain =
              Segment-append
                (Segment-frame front.chain (λ a i.
                  dropped-ne h2 a (ne_of_mem xs i px) ∙ back.outside a (ground (arith, apart a))))
                (Segment-frame back.chain (λ a i. dropped-ne h2 a (ne_of_mem ys i py)));
          distinct = d;
          no_null = ground (arith, has-append null xs (p ∷ ys), has-append null xs ys, v.no_null);
          counted =
              omega (
                arith,
                v.counted,
                v.machine,
                length-append {0} xs (p ∷ ys),
                length-append {0} xs ys,
              );
          machine = omega (arith, v.counted, v.machine, length-append {0} xs (p ∷ ys));
          owned = λ a i.
              let n : a ≢ p = ne_of_mem (xs ++ ys) i (ground (arith, has-append p xs ys)) in
              subst (Rests this level.price) (sym (same a n))
                (v.owned a (ground (arith, has-append a xs (p ∷ ys), has-append a xs ys)));
        };
        total = refl;
        price = refl;
        stored = update_self _ p _;
        others = same;
        outside = λ a out.
            dropped-ne h2 a (λ q. ground (arith, has-append a xs (p ∷ ys), (==_iff a p).1 q))
            ∙ back.outside a (ground (arith, has-append a xs (p ∷ ys)))
            ∙ front.outside a (ground (arith, has-append a xs (p ∷ ys)));
      }

  -- Removing an order from the queue of its level succeeds, wherever in the queue it stands: the
  -- level is then the queue of the other orders in the same order, its aggregate is less by what
  -- the order had left, as 64-bit subtraction has it, its price is the same, the order has no
  -- links and no level, the other orders keep all but their links, and nothing outside the queue
  -- is written.
  pub remove_order-Removed :
      IsQueue this h level (xs ++ p ∷ ys)
      → h p ≡ some o
      → o.price_level ≡ some this
      → (r : Level × Heap) × (remove_order this level p h ≡ ok r) × Removed this h level p o xs ys r
  remove_order-Removed v e l =
      let (dx, (py, dy), apart) = IsDistinct-append xs (p ∷ ys) v.distinct in
      let (px, _, _) = IsDistinct-middle p xs ys v.distinct in
      let nulls = has-append null xs (p ∷ ys) in
      let at = inside_lem p xs ys v.chain e in
      let nx : null ∉ xs = ground (arith, nulls, v.no_null) in
      let ny : null ∉ ys = ground (arith, nulls, v.no_null) in
      let (h1, m1, front) =
        bridge_front h o.previous_order p o.next_order level.head_order xs at.front dx nx in
      let (h2, m2, back) =
        bridge_back h1 o.previous_order p o.next_order level.tail_order ys
          (Segment-frame at.back (λ a i. front.outside a (ground (arith, apart a)))) dy ny in
      (
        (shrunk, dropped h2),
        remove_order-eq h1 h2 (λ q. ground (arith, nulls, v.no_null, (==_iff null p).1 (sym q))) e
            (back.outside p py ∙ front.outside p px ∙ e) l m1 m2,
        Removed-of h1 h2 v front back,
      )

-- What the others have left stays covered by the aggregate.
pub Removed-IsFunded :
    {this : LevelRef} {h : Heap} {level : Level} {p : Ptr} {o : Order} (xs ys : List Ptr)
    {r : Level × Heap}
    → Removed this h level p o xs ys r
    → h p ≡ some o
    → IsDistinct (xs ++ p ∷ ys)
    → ((a : Ptr) → a ∈ (xs ++ ys) → 0 < remaining_at h a)
    → depth h (xs ++ p ∷ ys) ≤ level.total_quantity
    → level.total_quantity ≤ u64_max
    → IsFunded r.1 r.0 (xs ++ ys)
Removed-IsFunded {h} {level} {p} xs ys {r} removed e d positive covered bounded =
    let (px, py, _) = IsDistinct-middle p xs ys d in
    let ne : (a : Ptr) → a ∈ (xs ++ ys) → a ≢ p =
      λ a i. ne_of_mem (xs ++ ys) i (ground (arith, has-append p xs ys)) in
    let rem = remaining_at-some h p e in
    record {
      positive = λ a i.
          omega (arith, remaining_at_congr h r.1 a (removed.others a (ne a i)), positive a i);
      covered = omega (
        arith,
        depth_congr h r.1 (xs ++ ys) (λ a i. removed.others a (ne a i)),
        depth-append h xs ys,
        depth-append h xs (p ∷ ys),
        depth-cons h p ys,
        rem,
        removed.total,
        covered,
        bounded,
      );
      bounded = omega (arith, removed.total, bounded);
    }
