-- ===== src/Queue/Safety.antt =====
-- The two threads of the queue: no event is lost, doubled or reordered, and they never meet in a slot.
use leka.Base.{
  ℕ, suc, ◌+◌, ◌-◌, ◌%◌, ◌^◌, ◌<◌, ◌≤◌, ◌≡◌, ◌≢◌, refl, sym, ap, ◌∙◌, subst, none, some, List, [],
  ◌∷◌, ◌++◌, arith, length, get_elem?, length-append, length-replicate, ltb, ◌==◌, Bool-cases, inl,
  inr, eq_of_test, ne_of_test,
}
use native.Mathlib.Nat.{mod-lt}
use leka.Base.Masks.{two_pow_pos}
use leka.Base.Outcome.{Outcome, ok}
use leka.Types.{u64_size}
use leka.Order.Event.{OrderEvent}
use leka.Queue.{SpscEventQueue, slot, take_event, check_push, check_pop, size_approx}
use leka.Queue.Cursor.{slot-cursor, slots_apart}
use leka.Queue.System.{
  has_room, has_event, took, System, Step, push, write, release_tail, pop, read, release_head,
  start, Reach, here, next,
}
use leka.Queue.Invariant.{written, Inv, get_elem?-replicate}
use leka.Queue.Producing.{capacity_bound, distance_of, publish-Inv, construct-Inv, push-Inv}
use leka.Queue.Consuming.{retire-Inv, take-Inv, before_ct, take_runs, emptied_queue, pop-Inv}

-- Any event, for the numbers that no event has yet.
abbrev no_event : OrderEvent
no_event = OrderEvent.cancel (record { order_id = 0 })

start-Inv : (k : ℕ) → Inv k (start k)
start-Inv k = record {
  ch = 0;
  ct = 0;
  events = λ i. no_event;
  head_at = refl;
  tail_at = refl;
  cached_head_at = refl;
  cached_tail_at = refl;
  ch_le = omega arith;
  ct_ge = omega arith;
  ct_le = omega arith;
  fits = omega arith;
  may_write = tt;
  may_read = tt;
  sized = length-replicate (2 ^ k) none;
  live = λ i a b. absurd (omega arith);
  free =
      λ i a b. get_elem?-replicate (2 ^ k) (i % 2 ^ k) none (mod-lt i {m = 2 ^ k} (two_pow_pos k));
  sent_at = λ i h. absurd (omega arith);
  received_at = λ i h. absurd (omega arith);
}

got :
    Outcome (OrderEvent × SpscEventQueue)
    → OrderEvent × SpscEventQueue
    → OrderEvent × SpscEventQueue
got (ok x) y = x
got _ y = y

Step-Inv : (k : ℕ) → k ≤ 63 → (s t : System) → Inv k s → Step k s t → Inv k t
unfolding got
Step-Inv k small s t v (push event seen e c) = push-Inv k small s v event seen e c
Step-Inv k small s t v (write event e) = construct-Inv k small s v event e
Step-Inv k small s t v (release_tail event e) = publish-Inv k small s v event e
Step-Inv k small s t v (pop seen e c) = pop-Inv k small s v seen e c
Step-Inv k small s t v (read event q e r) =
    let same = ap (λ x. got x (event, q)) (sym (take_runs k small s v e) ∙ r) in
    subst (λ w. Inv k (record s { queue = w.1; consumer = took (w.0) })) same
      (take-Inv k small s v e)
Step-Inv k small s t v (release_head event e) = retire-Inv k small s v event e

pub Reach-Inv : (k : ℕ) → k ≤ 63 → (s : System) → Reach k s → Inv k s
Reach-Inv k small s here = start-Inv k
Reach-Inv k small s (next r step) = Step-Inv k small _ s (Reach-Inv k small _ r) step

-- A list that agrees with the front of another is its front.
front_of :
    (xs ys : List OrderEvent)
    → length xs ≤ length ys
    → ((i : ℕ) → i < length xs → get_elem? xs i ≡ get_elem? ys i)
    → (rest : List OrderEvent) × (ys ≡ xs ++ rest)
front_of [] ys le same = (ys, refl)
front_of (x ∷ xs) [] le same = absurd (omega arith)
front_of (x ∷ xs) (y ∷ ys) le same =
    let (rest, e) = front_of xs ys (omega arith) (λ i h. same (suc i) (omega arith)) in
    let first : x ≡ y = ap (λ o. elim o [ none ↦ x | some z ↦ z ]) (same 0 (omega arith)) in
    (rest, ap (λ l. y ∷ l) e ∙ ap (λ z. z ∷ xs ++ rest) (sym first))

-- In a queue of 2^k slots, k at most 63, after any interleaving of the accesses of its two
-- threads, in which each acquire load may return an old cursor, the events handed over are the
-- first of those published, in their order: none is lost, doubled or reordered, and at most 2^k
-- are in between.
pub events_in_order :
    (k : ℕ)
    → k ≤ 63
    → (s : System) → Reach k s
    → (flight : List OrderEvent) × (s.sent ≡ s.received ++ flight) × (length flight ≤ 2 ^ k)
events_in_order k small s r =
    let v = Reach-Inv k small s r in
    let (flight, e) =
      front_of s.received s.sent (omega (arith, v.ct_ge, v.ct_le))
        (λ i h. v.received_at i h ∙ sym (v.sent_at i (omega (arith, v.ct_ge, v.ct_le)))) in
    (flight, e, omega (arith, v.fits, v.ch_le, ap length e ∙ length-append s.received flight))

-- In a queue of 2^k slots, k at most 63, when the consumer has found an event, after any
-- interleaving, the slot that it reads is not raw, and the event in it is the first one that was
-- published and not yet handed over.
pub take_event-next :
    (k : ℕ)
    → k ≤ 63
    → (s : System) → Reach k s
    → s.consumer ≡ has_event
    → (event : OrderEvent) × (q : SpscEventQueue) × (take_event (2 ^ k) s.queue ≡ ok (event, q))
      × (get_elem? s.sent (length s.received) ≡ some event)
take_event-next k small s r e =
    let v = Reach-Inv k small s r in
    (
      v.events (length s.received),
      emptied_queue k small s v e,
      take_runs k small s v e,
      v.sent_at (length s.received) (omega (arith, before_ct k small s v e, v.ct_le)),
    )

-- In a queue of 2^k slots, k at most 63, when the producer has found room, after any
-- interleaving, the slot that it is about to write holds no event, and it is not the slot that
-- the consumer is about to read, if it has found one.
pub construct-raw :
    (k : ℕ)
    → k ≤ 63
    → (s : System) → Reach k s
    → (event : OrderEvent) → s.producer ≡ has_room event
    → (get_elem? s.queue.storage (slot (2 ^ k) s.queue.tail) ≡ some none)
      × (s.consumer ≡ has_event → slot (2 ^ k) s.queue.tail ≢ slot (2 ^ k) s.queue.head)
construct-raw k small s r event e =
    let v = Reach-Inv k small s r in
    let t = length s.sent in
    let room : t < v.ch + 2 ^ k = rw e at v.may_write in
    let at_tail : slot (2 ^ k) s.queue.tail ≡ t % 2 ^ k =
      ap (slot (2 ^ k)) v.tail_at ∙ slot-cursor k t (omega arith) in
    let at_head : slot (2 ^ k) s.queue.head ≡ length s.received % 2 ^ k =
      ap (slot (2 ^ k)) v.head_at ∙ slot-cursor k (length s.received) (omega arith) in
    (
      ap (get_elem? s.queue.storage) at_tail
          ∙ v.free t (omega (arith, ap written e)) (omega (arith, room, v.ch_le)),
      λ reads. λ same.
          slots_apart (2 ^ k) (length s.received) t
            (omega (arith, before_ct k small s v reads, v.ct_le)) (omega (arith, room, v.ch_le))
            (sym at_head ∙ sym same ∙ at_tail),
    )

-- In a queue of 2^k slots, k at most 63, after any interleaving, a check that loads the current
-- cursor of the other side is exact: the producer finds room exactly if fewer than 2^k events are
-- published and not handed over, the consumer finds an event exactly if there is one, and
-- `sizeApprox` on the current cursors answers their number.
pub checks_lem :
    (k : ℕ)
    → k ≤ 63
    → (s : System) → Reach k s
    → ((check_push (2 ^ k) s.queue.head s.queue).0
        ≡ ltb (length s.sent) (length s.received + 2 ^ k))
      × ((check_pop s.queue.tail s.queue).0 ≡ ltb (length s.received) (length s.sent))
      × (size_approx s.queue ≡ length s.sent - length s.received)
unfolding check_push check_pop size_approx
checks_lem k small s r =
    let v = Reach-Inv k small s r in
    let cap = capacity_bound k small in
    let gap_old =
      distance_of s.queue.tail s.queue.cached_head v.ch (length s.sent) v.tail_at v.cached_head_at
        (omega (arith, v.ch_le, v.ct_ge, v.ct_le)) (omega (arith, v.fits)) in
    let gap =
      distance_of s.queue.tail s.queue.head (length s.received) (length s.sent) v.tail_at v.head_at
        (omega (arith, v.ct_ge, v.ct_le)) (omega (arith, v.fits, v.ch_le)) in
    (
      ground (arith, gap_old, gap, v.fits, v.ch_le),
      event s.queue (length s.received) (length s.sent) v.ct v.ct_ge v.ct_le
          (omega (arith, v.fits, v.ch_le)) v.head_at v.cached_tail_at v.tail_at,
      gap,
    )
  where
    event :
        (q : SpscEventQueue) (n m c : ℕ)
        → n ≤ c
        → c ≤ m
        → m < n + u64_size
        → q.head ≡ n % u64_size
        → q.cached_tail ≡ c % u64_size
        → q.tail ≡ m % u64_size
        → (check_pop q.tail q).0 ≡ ltb n m
    event q n m c low high near a b d = elim (Bool-cases (q.head == q.cached_tail)) [
      | inr f ↦ rw f (ground (arith, ne_of_test q.head q.cached_tail f))
      | inl f ↦ elim (Bool-cases (q.head == q.tail)) [
        | inl g ↦ rw (f, g) (ground (arith, eq_of_test q.head q.tail g))
        | inr g ↦ rw (f, g) (ground (arith, ne_of_test q.head q.tail g))
      ]
    ]
