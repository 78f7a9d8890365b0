-- ===== src/Engine/Steps.antt =====
-- The steps of the matching loop, and how what they trade adds up.
use leka.Base.{
  ℕ, zero, suc, ◌-◌, ◌<◌, ◌≤◌, ◌≡◌, ◌≢◌, refl, sym, ap, ◌∙◌, inl, inr, false, ◌||◌, not, Option,
  some, List, [], ◌∷◌, ◌++◌, arith, ◌==◌, min, Bool-cases, test_of_ne,
}
use mathlib.Core.List.{append-nil, append_assoc}
use mathlib.Core.Option.{none-ne-some}
use leka.Base.Outcome.{ok}
use leka.Types.{OrderId, Price, OrderSide, OrderType}
use leka.Order.{Ptr, null, LevelRef, Order}
use leka.Memory.{load-ok}
use leka.Level.{Level}
use leka.Level.Invariant.{view}
use leka.Index.Insertion.{update_map}
use leka.Book.{Book, heap_of, ladder_of, read_order}
use leka.Book.Invariant.{Queues, queues_of, put_queue, IsBook}
use leka.Book.Places.{view-none, put_queue_at, put_queue_off}
use leka.Book.Departure.{Leaves}
use leka.Book.Uncrossed.{IsUncrossed, IsBeyond}
use leka.Engine.{
  Engine, Execution, opposite, best_opposing, settle_fill, execute, match_best, match_loop,
}
use leka.Engine.Priority.{
  AllWithin, trades-AllWithin, queue_line, line, offers, fill, accepts, trades, untraded,
  queue_line-first, in_queue, offers_congr, offers-some, trades-zero, trades-step,
}
use leka.Engine.Best.{IsBest}

-- What a run of the loop leaves: a book whose parts agree, the executions that priority asks for, and
-- no new order.
pub record Matched (hash : ℕ → ℕ) (e : Engine) (q : Queues) (m : OrderId → Ptr) (id : OrderId)
    (price : Price) (side : OrderSide) (type : OrderType) (quantity left : ℕ) (e' : Engine)
    : Type 0 where
  pub queues : Queues
  pub map : OrderId → Ptr
  pub book : IsBook hash e'.book queues map
  pub executions :
      e'.out
      ≡ e.out
        ++ trades id price side type quantity
            (offers (heap_of e.book) (line e.book q (opposite side)))
  pub within :
      AllWithin side type price (
        trades id price side type quantity
          (offers (heap_of e.book) (line e.book q (opposite side))))
  pub remains :
      left
      ≡ untraded price side type quantity (offers (heap_of e.book) (line e.book q (opposite side)))
  pub generator : e'.generator ≡ e.generator
  pub fewer : e'.book.index.count ≤ e.book.index.count
  pub absent : (x : OrderId) → m x ≡ null → map x ≡ null
  pub uncrossed : IsUncrossed (heap_of e.book) → IsUncrossed (heap_of e'.book)
  pub beyond : 0 < left → IsBeyond (heap_of e'.book) side price

pub loop_round :
    (hash : ℕ → ℕ) (fuel : ℕ) (id : OrderId) (price : Price) (side : OrderSide) (type : OrderType)
    (quantity : ℕ) (e : Engine) {found : Option (LevelRef × Level)}
    → (quantity == 0) ≡ false
    → best_opposing side e.book ≡ (ok found, e.book)
    → match_loop hash (suc fuel) id price side type quantity e
      ≡ match_best hash id price side type quantity
          (match_loop hash fuel id price side type)
          found
          e
unfolding match_loop
loop_round hash fuel id price side type quantity e more run = rw (more, run) refl

pub loop_end :
    (hash : ℕ → ℕ) (fuel : ℕ) (id : OrderId) (price : Price) (side : OrderSide) (type : OrderType)
    (e : Engine)
    → 0 < fuel
    → match_loop hash fuel id price side type 0 e ≡ (ok 0, e)
unfolding match_loop
loop_end hash zero id price side type e pos = absurd (omega arith)
loop_end hash (suc fuel) id price side type e pos = refl

pub execute_lem :
    (hash : ℕ → ℕ) (id : OrderId) (r : LevelRef) (level : Level) (quantity : ℕ) (e : Engine)
    (p : Ptr) (o : Order) {b' : Book}
    → level.head_order ≡ p
    → p ≢ null
    → heap_of e.book p ≡ some o
    → settle_fill hash r p o (min quantity o.remaining_quantity) e.book ≡ (ok tt, b')
    → execute hash id r level quantity e ≡ (
      ok (quantity - min quantity o.remaining_quantity),
      record e { book = b'; out = e.out ++ fill id quantity o ∷ [] },
    )
unfolding execute read_order
execute_lem hash id r level quantity e p o head ne stored run =
    rw (head, test_of_ne p null ne, load-ok (heap_of e.book) p stored, run) refl

module _ (hash : ℕ → ℕ) (b : Book) (q : Queues) (m : OrderId → Ptr) (s : OrderSide) (i : ℕ)
    (p : Ptr) (ps : List Ptr) (best : IsBest b q s i p ps) where
  abbrev pub behind : ℕ → List Ptr
  behind = queues_of s (put_queue s i ps q)

  pub first_offer :
      (c : Order)
      → view (heap_of b) p ≡ some c
      → offers (heap_of b) (line b q s)
        ≡ c ∷ offers (heap_of b) (queue_line behind 0 (ladder_of s b).level_count)
  first_offer c e =
      ap (offers (heap_of b)) (
        queue_line-first (queues_of s q) behind i 0 (ladder_of s b).level_count p ps (omega arith)
          (omega (arith, best.inside)) (λ k _ low. best.before k low) best.queue
          (put_queue_at s i ps q)
          (λ k ne. put_queue_off s s k i ps q (λ e. ne (ap (λ r. r.index) e))))
      ∙ offers-some (heap_of b) p (queue_line behind 0 (ladder_of s b).level_count) e

  -- Behind its removal the others are offered as before.
  pub other_offers :
      (o : Order) (b' : Book)
      → Leaves hash b q m p o b' (put_queue s i ps q)
      → offers (heap_of b') (line b' (put_queue s i ps q) s)
        ≡ offers (heap_of b) (queue_line behind 0 (ladder_of s b).level_count)
  other_offers o b' leaves =
      offers_congr (heap_of b) (heap_of b') (line b' (put_queue s i ps q) s) (λ a mem.
        let (k, lt, there) = in_queue behind 0 (ladder_of s b').level_count a mem in
        let (c, e, _) = leaves.book.queued s k a (omega (arith, lt)) there in
        leaves.others a (λ is_p.
          none-ne-some c (sym (view-none (heap_of b') a (ap (heap_of b') is_p ∙ leaves.gone)) ∙ e)))
      ∙ ap (λ n. offers (heap_of b) (queue_line behind 0 n)) (leaves.levels s)

pub no_new : (m : OrderId → Ptr) (id x : OrderId) → m x ≡ null → update_map m id null x ≡ null
no_new m id x z = elim (Bool-cases (x == id)) [ inl e ↦ rw e refl | inr e ↦ rw e z ]

module _ (hash : ℕ → ℕ) (id : OrderId) (price : Price) (side : OrderSide) (type : OrderType) where
  -- A run that has traded with the first order and goes on with the others.
  pub Matched-next :
      (e e1 e' : Engine) (q q1 : Queues) (m m1 : OrderId → Ptr) (quantity left : ℕ) (c : Order)
      (os : List Order)
      → offers (heap_of e.book) (line e.book q (opposite side)) ≡ c ∷ os
      → offers (heap_of e1.book) (line e1.book q1 (opposite side)) ≡ os
      → (quantity == 0 || not (accepts side type price c.price)) ≡ false
      → e1.out ≡ e.out ++ fill id quantity c ∷ []
      → e1.generator ≡ e.generator
      → e1.book.index.count ≤ e.book.index.count
      → ((x : OrderId) → m x ≡ null → m1 x ≡ null)
      → (IsUncrossed (heap_of e.book) → IsUncrossed (heap_of e1.book))
      → Matched hash e1 q1 m1 id price side type
          (quantity - min quantity c.remaining_quantity)
          left
          e'
      → Matched hash e q m id price side type quantity left e'
  Matched-next e e1 e' q q1 m m1 quantity left c os first others go out generator fewer absent
        uncrossed w =
      let (traded, remains) = trades-step id price side type quantity c os go in
      let later : List Order → List Execution =
        λ os'. trades id price side type (quantity - min quantity c.remaining_quantity) os' in
      record {
        queues = w.queues;
        map = w.map;
        book = w.book;
        executions =
            w.executions
            ∙ ap (λ xs. xs ++ later (offers (heap_of e1.book) (line e1.book q1 (opposite side))))
                out
            ∙ append_assoc e.out (fill id quantity c ∷ [])
                (later (offers (heap_of e1.book) (line e1.book q1 (opposite side))))
            ∙ ap (λ os'. e.out ++ fill id quantity c ∷ later os') others
            ∙ ap (λ xs. e.out ++ xs) (sym traded)
            ∙ ap (λ os'. e.out ++ trades id price side type quantity os') (sym first);
        within =
            trades-AllWithin id price side type quantity
              (offers (heap_of e.book) (line e.book q (opposite side)));
        remains =
            w.remains
            ∙ ap (untraded price side type (quantity - min quantity c.remaining_quantity)) others
            ∙ sym remains
            ∙ ap (untraded price side type quantity) (sym first);
        generator = w.generator ∙ generator;
        fewer = omega (arith, w.fewer, fewer);
        absent = λ x z. w.absent x (absent x z);
        uncrossed = λ u. w.uncrossed (uncrossed u);
        beyond = w.beyond;
      }

  -- A run that has traded all that it had with the first order.
  pub Matched-last :
      (e e1 : Engine) (q : Queues) (m : OrderId → Ptr) (quantity : ℕ) (c : Order) (os : List Order)
      → IsBook hash e1.book q m
      → offers (heap_of e.book) (line e.book q (opposite side)) ≡ c ∷ os
      → (quantity == 0 || not (accepts side type price c.price)) ≡ false
      → quantity - min quantity c.remaining_quantity ≡ 0
      → e1.out ≡ e.out ++ fill id quantity c ∷ []
      → e1.generator ≡ e.generator
      → e1.book.index.count ≡ e.book.index.count
      → (IsUncrossed (heap_of e.book) → IsUncrossed (heap_of e1.book))
      → Matched hash e q m id price side type quantity 0 e1
  Matched-last e e1 q m quantity c os v first go spent out generator count uncrossed =
      let (traded, remains) = trades-step id price side type quantity c os go in
      let (none_traded, none_left) = trades-zero id price side type os in
      record {
        queues = q;
        map = m;
        book = v;
        executions =
            out
            ∙ ap (λ xs. e.out ++ fill id quantity c ∷ xs)
                (sym none_traded ∙ ap (λ n. trades id price side type n os) (sym spent))
            ∙ ap (λ xs. e.out ++ xs) (sym traded)
            ∙ ap (λ os'. e.out ++ trades id price side type quantity os') (sym first);
        within =
            trades-AllWithin id price side type quantity
              (offers (heap_of e.book) (line e.book q (opposite side)));
        remains =
            sym none_left
            ∙ ap (λ n. untraded price side type n os) (sym spent)
            ∙ sym remains
            ∙ ap (untraded price side type quantity) (sym first);
        generator = generator;
        fewer = omega (arith, count);
        absent = λ x z. z;
        uncrossed = uncrossed;
        beyond = λ pos. absurd (omega arith);
      }

  -- A run that trades nothing.
  pub Matched-none :
      (e : Engine) (q : Queues) (m : OrderId → Ptr) (quantity : ℕ) (os : List Order)
      → IsBook hash e.book q m
      → offers (heap_of e.book) (line e.book q (opposite side)) ≡ os
      → (trades id price side type quantity os ≡ [])
        × (untraded price side type quantity os ≡ quantity)
      → (0 < quantity → IsBeyond (heap_of e.book) side price)
      → Matched hash e q m id price side type quantity quantity e
  Matched-none e q m quantity os v first (traded, remains) beyond = record {
    queues = q;
    map = m;
    book = v;
    executions =
        sym (append-nil e.out)
        ∙ ap (λ xs. e.out ++ xs) (sym traded)
        ∙ ap (λ os'. e.out ++ trades id price side type quantity os') (sym first);
    remains = sym remains ∙ ap (untraded price side type quantity) (sym first);
    within =
        trades-AllWithin id price side type quantity
          (offers (heap_of e.book) (line e.book q (opposite side)));
    generator = refl;
    fewer = omega arith;
    absent = λ x z. z;
    uncrossed = λ u. u;
    beyond = beyond;
  }
