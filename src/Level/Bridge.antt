-- ===== src/Level/Bridge.antt =====
-- The two writes by which `PriceLevel::removeOrder` makes an order's neighbours pass it by, as
-- changes of the segments before and behind it.
use leka.Base.{
  ◌≡◌, refl, sym, ap, ◌∙◌, ◌≢◌, some, List, [], ◌∷◌, ◌++◌, arith, ◌==◌, ==_iff, test_of_ne,
  if◌then◌else◌, ◌∉◌, IsDistinct, ne_of_mem, subst,
}
use mathlib.Core.Path.{subst₂}
use mathlib.Core.Option.{some-injective}
use leka.Base.Outcome.{ok}
use leka.Order.{Ptr, null, Order}
use leka.Memory.{Heap, update, update_ne}
use leka.Level.{
  set_previous, set_next, modify_unless_null, modify_unless_null-null, modify_unless_null-ok,
}
use leka.Level.Segment.{
  Segment, nil, cons, Segment-split, Segment-last, Segment-next, last_lem, first_lem,
}
use leka.Level.Invariant.{contents, strip, view}

-- A change of one link leaves every view as it was.
pub view-update :
    (h : Heap) (p : Ptr) {o : Order} (o' : Order)
    → h p ≡ some o
    → contents o' ≡ contents o
    → (a : Ptr) → view (update h p (some o')) a ≡ view h a
unfolding view update
view-update h p o' e c a = ground (arith, ap strip e, ap (h) {x = a} {y = p}, ==_iff a p)

-- The order before the one that leaves, or the head, is linked to the one after it.
pub record Bridged (h : Heap) (last next head : Ptr) (xs : List Ptr) (g : Heap) : Type 0 where
  pub chain : Segment g last next null (if last == null then next else head) xs
  pub views : (a : Ptr) → view g a ≡ view h a
  pub outside : (a : Ptr) → a ∉ xs → g a ≡ h a

pub bridge_front :
    (h : Heap) (last p next head : Ptr) (xs : List Ptr)
    → Segment h last p null head xs
    → IsDistinct xs
    → null ∉ xs
    → (g : Heap) × (modify_unless_null last (set_next next) h ≡ ok g)
      × Bridged h last next head xs g
bridge_front h last p next head [] s d n =
    let e = Segment-last s in
    (
      h,
      modify_unless_null-null last _ h e,
      record { chain = nil (ground arith) e; views = λ a. refl; outside = λ a _. refl },
    )
bridge_front h last p next head (x ∷ ys) s d n =
    let old = last_lem x ys s d in
    let ne = ne_of_mem (x ∷ ys) old.inside n in
    (
      update h last (some (set_next next old.order)),
      modify_unless_null-ok last _ h ne old.holds,
      record {
        chain = rw (test_of_ne last null ne) (old.redirected next);
        views = view-update h last (set_next next old.order) old.holds refl;
        outside = λ a out. update_ne h last a _ (λ q. ne_of_mem (x ∷ ys) old.inside out (sym q));
      },
    )

-- The order after it, or the tail, is linked back to the one before it.
pub record Rejoined (h : Heap) (last next tail : Ptr) (xs : List Ptr) (g : Heap) : Type 0 where
  pub chain : Segment g (if next == null then last else tail) null last next xs
  pub views : (a : Ptr) → view g a ≡ view h a
  pub outside : (a : Ptr) → a ∉ xs → g a ≡ h a

pub bridge_back :
    (h : Heap) (last p next tail : Ptr) (xs : List Ptr)
    → Segment h tail null p next xs
    → IsDistinct xs
    → null ∉ xs
    → (g : Heap) × (modify_unless_null next (set_previous last) h ≡ ok g)
      × Rejoined h last next tail xs g
bridge_back h last p next tail [] s d n =
    let e = Segment-next s in
    (
      h,
      modify_unless_null-null next _ h e,
      record { chain = nil e (ground arith); views = λ a. refl; outside = λ a _. refl },
    )
bridge_back h last p next tail (x ∷ ys) s d n =
    let old = first_lem x ys s d.0 in
    let ne : next ≢ null = λ q. ground (arith, old.first) in
    (
      update h next (some (set_previous last old.order)),
      modify_unless_null-ok next _ h ne old.holds,
      record {
        chain = rw (test_of_ne next null ne) (old.redirected last);
        views = view-update h next (set_previous last old.order) old.holds refl;
        outside = λ a out. update_ne h next a _ (λ q. ground (arith, old.first));
      },
    )

-- The order at `p` between the segments `xs` and `ys`.
pub record IsInside (h : Heap) (head tail p : Ptr) (o : Order) (xs ys : List Ptr) : Type 0 where
  pub holds : h p ≡ some o
  pub front : Segment h o.previous_order p null head xs
  pub back : Segment h tail null p o.next_order ys

IsInside-join :
    {h : Heap} {tail head p last next : Ptr} {o : Order} {xs ys : List Ptr}
    → Segment h last next null head xs
    → Segment h tail null last next (p ∷ ys)
    → h p ≡ some o
    → IsInside h head tail p o xs ys
IsInside-join {h} {tail} {head} {p} {o} {xs} {ys} front (cons o' e' c b s) e =
    let q = some-injective o' o (sym e' ∙ e) in
    record {
      holds = e;
      front =
          subst₂ (λ l n. Segment h l n null head xs) (sym b ∙ ap (λ r. r.previous_order) q) c front;
      back = subst (λ r. Segment h tail null p r.next_order ys) q s;
    }

pub inside_lem :
    {h : Heap} {head tail : Ptr} (p : Ptr) {o : Order} (xs ys : List Ptr)
    → Segment h tail null null head (xs ++ p ∷ ys)
    → h p ≡ some o
    → IsInside h head tail p o xs ys
inside_lem p xs ys s e =
    let (last, next, front, back) = Segment-split xs (p ∷ ys) s in IsInside-join front back e
