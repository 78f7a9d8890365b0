-- ===== src/Book/Places.antt =====
-- The places where orders rest, a level of a side each, and what a change at one of them leaves.
use leka.Base.{
  ℕ, ◌<◌, ◌≡◌, ◌≢◌, ◌⊎◌, refl, sym, ap, ◌∙◌, inl, inr, Option, none, some, List, [], ◌∷◌, ◌++◌,
  arith, ◌==◌, if◌then◌else◌, Bool-cases, eq_of_test, ne_of_test, test_of_ne, ==_iff, ◌∈◌,
}
use mathlib.Core.Option.{none-ne-some, some-injective}
use leka.Types.{OrderId, OrderSide, buy, sell, is_buy_side}
use leka.Order.{Ptr, LevelRef, Order}
use leka.Memory.{Heap, update, update_self, update_ne}
use leka.Level.Invariant.{contents, strip, view}
use leka.Level.{Level}
use leka.Level.Add.{Added}
use leka.Level.Remove.{Removed}
use leka.Ladder.{Ladder}
use leka.Pool.{Store}
use leka.Pool.Invariant.{lives, address, IsPool}
use leka.Book.{Book, heap_of, ladder_of, put_ladder}
use leka.Book.Invariant.{Queues, queues_of, put_queue, level_ref, IsSide, IsBook}

-- A level of a side is the one in question, or another one.
pub place_cases :
    (s side : OrderSide) (k i : ℕ) → ((s ≡ side) × (k ≡ i)) ⊎ (level_ref s k ≢ level_ref side i)
place_cases buy buy k i = elim (Bool-cases (k == i)) [
  | inl e ↦ inl (refl, eq_of_test k i e)
  | inr e ↦ inr (λ q. ne_of_test k i e (ap (λ r. r.index) q))
]
place_cases sell sell k i = elim (Bool-cases (k == i)) [
  | inl e ↦ inl (refl, eq_of_test k i e)
  | inr e ↦ inr (λ q. ne_of_test k i e (ap (λ r. r.index) q))
]
place_cases buy sell k i = inr (λ q. absurd (ground (arith, ap (λ r. is_buy_side r.side) q)))
place_cases sell buy k i = inr (λ q. absurd (ground (arith, ap (λ r. is_buy_side r.side) q)))

pub put_queue_at :
    (side : OrderSide) (i : ℕ) (xs : List Ptr) (q : Queues)
    → queues_of side (put_queue side i xs q) i ≡ xs
put_queue_at buy i xs q = rw ((==_iff i i).1 refl) refl
put_queue_at sell i xs q = rw ((==_iff i i).1 refl) refl

pub put_queue_off :
    (s side : OrderSide) (k i : ℕ) (xs : List Ptr) (q : Queues)
    → level_ref s k ≢ level_ref side i
    → queues_of s (put_queue side i xs q) k ≡ queues_of s q k
put_queue_off buy buy k i xs q ne = rw (test_of_ne k i (λ e. ne (ap (level_ref buy) e))) refl
put_queue_off sell sell k i xs q ne = rw (test_of_ne k i (λ e. ne (ap (level_ref sell) e))) refl
put_queue_off buy sell k i xs q ne = refl
put_queue_off sell buy k i xs q ne = refl

-- Both sides of a book of which one has changed.
pub sides_put :
    (g : Heap) (b : Book) (q : Queues) (side : OrderSide) (i : ℕ) (l : Ladder) (xs : List Ptr)
    → IsSide g side l (λ k. if k == i then xs else queues_of side q k)
    → ((s : OrderSide)
        → is_buy_side s ≢ is_buy_side side
        → IsSide g s (ladder_of s b) (queues_of s q))
    → (s : OrderSide)
    → IsSide g s (ladder_of s (put_ladder side l b)) (queues_of s (put_queue side i xs q))
sides_put g b q buy i l xs new old buy = new
sides_put g b q sell i l xs new old sell = new
sides_put g b q buy i l xs new old sell = old sell (λ e. absurd (ground (arith, e)))
sides_put g b q sell i l xs new old buy = old buy (λ e. absurd (ground (arith, e)))

-- How many levels a side has is not for a change of its ladder to say.
pub level_count-put :
    (s side : OrderSide) (l : Ladder) (b : Book)
    → l.level_count ≡ (ladder_of side b).level_count
    → (ladder_of s (put_ladder side l b)).level_count ≡ (ladder_of s b).level_count
level_count-put buy buy l b e = e
level_count-put sell sell l b e = e
level_count-put buy sell l b e = refl
level_count-put sell buy l b e = refl

-- What memory holds at an address, from what can be seen without the links.
pub view_inverse :
    (h : Heap) (a : Ptr) (c : Order)
    → view h a ≡ some c
    → (o : Order) × (h a ≡ some o) × (contents o ≡ c)
unfolding view
view_inverse h a c e = go (h a) refl e
  where
    go :
        (x : Option Order)
        → h a ≡ x
        → strip x ≡ some c
        → (o : Order) × (h a ≡ some o) × (contents o ≡ c)
    go none q e = absurd (none-ne-some c e)
    go (some o) q e = (o, q, some-injective (contents o) c e)

pub view-none : (h : Heap) (a : Ptr) → h a ≡ none → view h a ≡ none
unfolding view
view-none h a e = ap strip e

lives-strip : (x : Option Order) → lives (strip x) ≡ lives x
lives-strip none = refl
lives-strip (some o) = refl

pub lives-view : (h g : Heap) (a : Ptr) → view g a ≡ view h a → lives (g a) ≡ lives (h a)
unfolding view
lives-view h g a e = sym (lives-strip (g a)) ∙ ap lives e ∙ lives-strip (h a)

-- The pool does not look into the orders.
pub IsPool-heap :
    (s : Store) (g : Heap)
    → ((a : Ptr) → lives (g a) ≡ lives (s.heap a))
    → IsPool s
    → IsPool (record s { heap = g })
IsPool-heap s g same v = record {
  laid = record {
    order = v.order;
    distinct = v.distinct;
    listed = v.listed;
    kept = λ k page e.
        let w = v.kept k page e in
        record {
          sound = w.sound;
          marked = w.marked;
          indexed = w.indexed;
          live = λ j h. same (address page j) ∙ w.live j h;
        };
    known = v.known;
    owned = λ p l. v.owned p (sym (same p) ∙ l);
  };
  filled = v.filled;
}

-- An order that is overwritten lives on.
pub lives-update :
    (h : Heap) (p : Ptr) {o : Order} (o' : Order)
    → h p ≡ some o
    → (a : Ptr) → lives (update h p (some o') a) ≡ lives (h a)
lives-update h p {o} o' stored a = elim (Bool-cases (a == p)) [
  | inl e ↦
      let is_p = eq_of_test a p e in
      ap lives (ap (update h p (some o')) is_p ∙ update_self h p (some o'))
      ∙ sym (ap lives (ap h is_p ∙ stored))
  | inr e ↦ ap lives (update_ne h p a (some o') (ne_of_test a p e))
]

-- A change of links kills no order and makes none.
pub Removed-lives :
    {this : LevelRef} {h : Heap} {level : Level} {p : Ptr} {o : Order} {xs ys : List Ptr}
    {r : Level × Heap}
    → Removed this h level p o xs ys r
    → h p ≡ some o
    → (a : Ptr) → lives (r.1 a) ≡ lives (h a)
Removed-lives {h} {p} {r} removed stored a = elim (Bool-cases (a == p)) [
  | inl e ↦
      let q' = eq_of_test a p e in
      ap lives (ap r.1 q' ∙ removed.stored) ∙ sym (ap lives (ap h q' ∙ stored))
  | inr e ↦ lives-view h r.1 a (removed.others a (ne_of_test a p e))
]

pub Added-lives :
    {this : LevelRef} {h : Heap} {level : Level} {p : Ptr} {o : Order} {xs : List Ptr}
    {r : Level × Heap}
    → Added this h level p o xs r
    → h p ≡ some o
    → (a : Ptr) → lives (r.1 a) ≡ lives (h a)
Added-lives {h} {p} {r} added stored a = elim (Bool-cases (a == p)) [
  | inl e ↦
      let q' = eq_of_test a p e in
      let (o', there, _) = view_inverse r.1 p _ added.stored in
      ap lives (ap r.1 q' ∙ there) ∙ sym (ap lives (ap h q' ∙ stored))
  | inr e ↦ lives-view h r.1 a (added.others a (ne_of_test a p e))
]

-- A member of a list and what stands on either side of it.
pub split_mem :
    (p : Ptr) (xs : List Ptr)
    → p ∈ xs
    → (front : List Ptr) × (back : List Ptr) × (xs ≡ front ++ p ∷ back)
split_mem p [] m = absurd (ground arith)
split_mem p (x ∷ xs) m = elim (Bool-cases (p == x)) [
  | inl e ↦ ([], xs, ap (λ y. y ∷ xs) (sym (eq_of_test p x e)))
  | inr e ↦
      let (front, back, s) = split_mem p xs (ground arith) in (x ∷ front, back, ap (λ l. x ∷ l) s)
]

module _ (hash : ℕ → ℕ) (b : Book) (q : Queues) (m : OrderId → Ptr) (v : IsBook hash b q m) where
  -- The order names the place where it rests.
  pub place_lem :
      (s : OrderSide) (k : ℕ) (a : Ptr) (c : Order)
      → k < (ladder_of s b).level_count
      → a ∈ queues_of s q k
      → view (heap_of b) a ≡ some c
      → c.price_level ≡ some (level_ref s k)
  place_lem s k a c lt mem e =
      let r = ((v.sides s).levels k lt).queue.owned a mem in
      ap (λ o. o.price_level) (some-injective c r.order (sym e ∙ r.holds)) ∙ r.level

  -- So it rests in no other.
  pub one_place :
      (s t : OrderSide) (k i : ℕ) (a : Ptr)
      → k < (ladder_of s b).level_count
      → i < (ladder_of t b).level_count
      → a ∈ queues_of s q k
      → a ∈ queues_of t q i
      → level_ref s k ≡ level_ref t i
  one_place s t k i a lt lt' mem mem' =
      let (c, e, _) = v.queued s k a lt mem in
      some-injective (level_ref s k) (level_ref t i)
        (sym (place_lem s k a c lt mem e) ∙ place_lem t i a c lt' mem' e)
