-- ===== src/Book/Update.antt =====
-- A change of one level of a book: what it takes for the parts to agree again.
use leka.Base.{
  ℕ, ◌<◌, ◌≡◌, ◌≢◌, refl, sym, ap, ◌∙◌, inl, inr, List, [], ◌∷◌, suc, zero, arith, ◌==◌,
  if◌then◌else◌, set, Bool-cases, eq_of_test, ◌∈◌,
}
use std.Path.{fun_ext}
use leka.Types.{OrderId, OrderSide, buy, sell, is_buy_side}
use leka.Order.{Ptr}
use leka.Memory.{Heap}
use leka.Level.{Level}
use leka.Level.Invariant.{view, view_congr, IsQueue, IsFunded}
use leka.Ladder.{Ladder}
use leka.Ladder.Words.{bit}
use leka.Ladder.Prices.{price_at}
use leka.Index.Table.{Represents}
use leka.Pool.{Store}
use leka.Pool.Invariant.{IsPool}
use leka.Book.{Book, heap_of, ladder_of, put_ladder}
use leka.Book.Invariant.{
  Queues, queues_of, put_queue, level_ref, some_order, IsSide, IsBook, IsSide-update, IsSide-frame,
  Relevelled,
}
use leka.Book.Places.{sides_put}

set_again : {A : Type 0} (xs : List A) (i : ℕ) (a b : A) → set (set xs i a) i b ≡ set xs i b
set_again [] i a b = refl
set_again (x ∷ xs) zero a b = refl
set_again (x ∷ xs) (suc i) a b = ap (λ l. x ∷ l) (set_again xs i a b)

-- Two changes of the same level are one.
pub Relevelled-trans :
    (l l' l'' : Ladder) (i : ℕ) (level level' : Level)
    → Relevelled l l' i level
    → Relevelled l' l'' i level'
    → Relevelled l l'' i level'
Relevelled-trans l l' l'' i level level' r r' = record {
  min = r'.min ∙ r.min;
  tick = r'.tick ∙ r.tick;
  max = r'.max ∙ r.max;
  count = r'.count ∙ r.count;
  direction = r'.direction ∙ r.direction;
  levels = r'.levels ∙ ap (λ ls. set ls i level') r.levels ∙ set_again l.levels i level level';
  bits = λ k ne. r'.bits k ne ∙ r.bits k ne;
  marked = r'.marked;
}

same_at : (queues : ℕ → List Ptr) (i k : ℕ) → (if k == i then queues i else queues k) ≡ queues k
same_at queues i k = elim (Bool-cases (k == i)) [
  | inl e ↦ rw e (ap queues (sym (eq_of_test k i e)))
  | inr e ↦ rw e refl
]

-- A queue put back in its place.
pub put_queue_same :
    (side : OrderSide) (i : ℕ) (q : Queues) → put_queue side i (queues_of side q i) q ≡ q
put_queue_same buy i q = ap (λ f. record q { bids = f }) (fun_ext (same_at q.bids i))
put_queue_same sell i q = ap (λ f. record q { asks = f }) (fun_ext (same_at q.asks i))

pub new_sides :
    (b : Book) (q : Queues) (g : Heap) (side : OrderSide) (i : ℕ) (l : Ladder) (level : Level)
    (zs : List Ptr)
    → ((s : OrderSide) → IsSide (heap_of b) s (ladder_of s b) (queues_of s q))
    → Relevelled (ladder_of side b) l i level
    → i < (ladder_of side b).level_count
    → level.price ≡ price_at (ladder_of side b) i
    → IsQueue (level_ref side i) g level zs
    → IsFunded g level zs
    → bit l.words i ≡ some_order zs
    → ((s : OrderSide) (k : ℕ) (a : Ptr)
        → k < (ladder_of s b).level_count
        → level_ref s k ≢ level_ref side i
        → a ∈ queues_of s q k
        → g a ≡ heap_of b a)
    → (s : OrderSide)
    → IsSide g s (ladder_of s (put_ladder side l b)) (queues_of s (put_queue side i zs q))
new_sides b q g side i l level zs sides r lt price queue funded shows spared =
    sides_put g b q side i l zs
      (IsSide-update (ladder_of side b) l i level r (heap_of b) g side (queues_of side q) zs
        (sides side) lt price queue funded shows
        (λ k a lt_k ne mem. spared side k a lt_k (λ e. ne (ap (λ x. x.index) e)) mem))
      (λ s ne.
        IsSide-frame (heap_of b) g s (ladder_of s b) (queues_of s q)
          (λ k a lt_k mem. spared s k a lt_k (λ e. ne (ap (λ x. is_buy_side x.side) e)) mem)
          (sides s))

-- A state in which memory shows the same orders.
pub IsBook-views :
    (hash : ℕ → ℕ) (b b' : Book) (q : Queues) (m : OrderId → Ptr)
    → IsBook hash b q m
    → IsPool b'.store
    → Represents hash b'.index m
    → b'.index.count ≡ b.index.count
    → b'.store.pool.live_order_count ≡ b.store.pool.live_order_count
    → ((s : OrderSide) → IsSide (heap_of b') s (ladder_of s b') (queues_of s q))
    → ((s : OrderSide) → (ladder_of s b').level_count ≡ (ladder_of s b).level_count)
    → ((a : Ptr) → view (heap_of b') a ≡ view (heap_of b) a)
    → IsBook hash b' q m
IsBook-views hash b b' q m v pool represents count living sides same views = record {
  pool = pool;
  represents = represents;
  machine = omega (arith, count, v.machine);
  live = living ∙ v.live ∙ sym count;
  sides = sides;
  queued = λ s k a lt mem.
      let (o, e, at_side) = v.queued s k a (omega (arith, same s)) mem in (o, views a ∙ e, at_side);
  resting = λ a o e.
      let (id, k, lt, mem) = v.resting a o (sym (views a) ∙ e) in
      (id, k, omega (arith, same o.order_side), mem);
  valid = λ a o e. v.valid a o (sym (views a) ∙ e);
  mapped = λ id ne. let (o, e, same_id) = v.mapped id ne in (o, views (m id) ∙ e, same_id);
}

-- A state with another pool, the same memory and perhaps another table of the same map.
pub IsBook-store :
    (hash : ℕ → ℕ) (b : Book) (q : Queues) (m : OrderId → Ptr) (s : Store)
    → IsBook hash b q m
    → IsPool s
    → ((a : Ptr) → s.heap a ≡ heap_of b a)
    → s.pool.live_order_count ≡ b.store.pool.live_order_count
    → IsBook hash (record b { store = s }) q m
IsBook-store hash b q m s v pool heap living =
    IsBook-views hash b (record b { store = s }) q m v pool v.represents refl living
      (λ t.
        IsSide-frame (heap_of b) s.heap t (ladder_of t b) (queues_of t q) (λ k a lt mem. heap a)
          (v.sides t))
      (λ t. refl) (λ a. view_congr (heap_of b) s.heap a (heap a))
