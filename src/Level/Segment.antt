-- ===== src/Level/Segment.antt =====
-- Segments of a doubly linked queue of orders, how they split and join, and what a change of one
-- link does to them.
use leka.Base.{
  ◌≡◌, refl, sym, ap, ◌∙◌, ◌≢◌, some, List, [], ◌∷◌, ◌++◌, arith, has, ◌∈◌, ◌∉◌, IsDistinct,
  Bool-cases, eq_of_test, ne_of_test, ◌==◌, inl, inr,
}
use mathlib.Core.Option.{some-injective}
use leka.Order.{Ptr, Order}
use leka.Memory.{Heap, update, update_self, update_ne}
use leka.Level.{set_previous, set_next}

-- From `cur`, whose previous order is `prev`, the `next_order` links lead through the orders `xs`
-- to `next`, each order's `previous_order` being the one before it; `last` is the last of them.
pub data Segment (h : Heap) (last next : Ptr) : Ptr → Ptr → List Ptr → Type 0 where
  nil : {prev cur : Ptr} → cur ≡ next → last ≡ prev → Segment h last next prev cur []
  cons :
      {prev cur x : Ptr} {xs : List Ptr} (o : Order)
      → h x ≡ some o
      → cur ≡ x
      → o.previous_order ≡ prev
      → Segment h last next x o.next_order xs
      → Segment h last next prev cur (x ∷ xs)

-- A segment survives a change that spares its own orders.
pub Segment-frame :
    {h g : Heap} {last next prev cur : Ptr} {xs : List Ptr}
    → Segment h last next prev cur xs
    → ((a : Ptr) → a ∈ xs → g a ≡ h a)
    → Segment g last next prev cur xs
Segment-frame (nil c l) same = nil c l
Segment-frame (cons {x} o e c b s) same =
    cons o (same x (ground arith) ∙ e) c b (Segment-frame s (λ a i. same a (ground arith)))

-- Two ends of a segment may be replaced by equal ones.
pub Segment-from :
    {h : Heap} {last next prev cur prev' cur' : Ptr} {xs : List Ptr}
    → Segment h last next prev cur xs
    → prev' ≡ prev
    → cur' ≡ cur
    → Segment h last next prev' cur' xs
Segment-from (nil c l) p q = nil (q ∙ c) (l ∙ sym p)
Segment-from (cons o e c b s) p q = cons o e (q ∙ c) (b ∙ sym p) s

pub Segment-append :
    {h : Heap} {last next last' next' prev cur : Ptr} {ys xs : List Ptr}
    → Segment h last next prev cur xs
    → Segment h last' next' last next ys
    → Segment h last' next' prev cur (xs ++ ys)
Segment-append (nil c l) t = Segment-from t (sym l) c
Segment-append (cons o e c b s) t = cons o e c b (Segment-append s t)

pub Segment-split :
    {h : Heap} {prev cur last' next' : Ptr} (xs ys : List Ptr)
    → Segment h last' next' prev cur (xs ++ ys)
    → (last : Ptr) × (next : Ptr) × Segment h last next prev cur xs
      × Segment h last' next' last next ys
Segment-split {prev} {cur} [] ys s = (prev, cur, nil refl refl, s)
Segment-split (x ∷ xs) ys (cons o e c b s) =
    let (last, next, s', t) = Segment-split xs ys s in (last, next, cons o e c b s', t)

pub Segment-last :
    {h : Heap} {last next prev cur : Ptr} → Segment h last next prev cur [] → last ≡ prev
Segment-last (nil c l) = l

pub Segment-next :
    {h : Heap} {last next prev cur : Ptr} → Segment h last next prev cur [] → cur ≡ next
Segment-next (nil c l) = c

-- The last order of a segment that is not empty: its next link can be set anew.
pub record HasLast (h : Heap) (prev cur last : Ptr) (xs : List Ptr) : Type 0 where
  pub order : Order
  pub holds : h last ≡ some order
  pub inside : last ∈ xs
  pub redirected :
      (next : Ptr) → Segment (update h last (some (set_next next order))) last next prev cur xs

pub last_lem :
    {h : Heap} {prev cur last next : Ptr} (x : Ptr) (xs : List Ptr)
    → Segment h last next prev cur (x ∷ xs)
    → IsDistinct (x ∷ xs)
    → HasLast h prev cur last (x ∷ xs)
last_lem {h} {last} x [] (cons o e c b (nil n l)) d = record {
  order = o;
  holds = rw l e;
  inside = ground arith;
  redirected = λ next'. cons (set_next next' o) (rw l (update_self h x _)) c b (nil refl l);
}
last_lem {h} {last} x (y ∷ ys) (cons o e c b s) (out, d) =
    let rest = last_lem y ys s d in
    let ne : x ≢ last = λ q. ground (arith, rest.inside, ap (λ k. has k (y ∷ ys)) q) in
    record {
      order = rest.order;
      holds = rest.holds;
      inside = ground (arith, rest.inside);
      redirected = λ next'. cons o (update_ne h last x _ ne ∙ e) c b (rest.redirected next');
    }

-- The first order of a segment that is not empty: its previous link can be set anew.
pub record HasFirst (h : Heap) (cur last next x : Ptr) (xs : List Ptr) : Type 0 where
  pub order : Order
  pub first : cur ≡ x
  pub holds : h cur ≡ some order
  pub redirected :
      (prev : Ptr)
      → Segment (update h cur (some (set_previous prev order))) last next prev cur (x ∷ xs)

pub first_lem :
    {h : Heap} {prev cur last next : Ptr} (x : Ptr) (xs : List Ptr)
    → Segment h last next prev cur (x ∷ xs)
    → x ∉ xs
    → HasFirst h cur last next x xs
first_lem {h} {cur} x xs (cons o e c b s) out = record {
  order = o;
  first = c;
  holds = ap h c ∙ e;
  redirected = λ prev'.
      cons (set_previous prev' o) (ap (update h cur _) (sym c) ∙ update_self h cur _) c refl (
        Segment-frame s
          (λ a i. update_ne h cur a _ (λ q. ground (arith, ap (λ k. has k xs) (q ∙ c)))));
}

-- A change of an order that keeps its links.
pub Segment-update :
    {h : Heap} {last next prev cur : Ptr} {xs : List Ptr} (p : Ptr) {o : Order} (o' : Order)
    → Segment h last next prev cur xs
    → h p ≡ some o
    → o'.next_order ≡ o.next_order
    → o'.previous_order ≡ o.previous_order
    → Segment (update h p (some o')) last next prev cur xs
Segment-update p o' (nil c l) e n b' = nil c l
Segment-update {h} p {o} o' (cons {x} {xs} r e c b s) e' n b' = elim (Bool-cases (x == p)) [
  | inr ne ↦ cons r (update_ne h p x _ (ne_of_test x p ne) ∙ e) c b (Segment-update p o' s e' n b')
  | inl at ↦
      let q = eq_of_test x p at in
      let same : r ≡ o = some-injective r o (sym e ∙ ap h q ∙ e') in
      cons o' (ap (update h p _) q ∙ update_self h p _) c
        (b' ∙ ap (λ k. k.previous_order) (sym same) ∙ b)
        (Segment-from (Segment-update p o' s e' n b') refl (n ∙ ap (λ k. k.next_order) (sym same)))
]
