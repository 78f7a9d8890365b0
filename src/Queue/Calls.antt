-- ===== src/Queue/Calls.antt =====
-- Whole calls of `tryPush` and `tryPop`, made of the steps of their threads.
use leka.Base.{
  ℕ, ◌+◌, ◌%◌, ◌<◌, ◌≤◌, ◌≡◌, refl, sym, ap, ◌∙◌, subst, Bool, true, false, Option, none, some, [],
  ◌∷◌, ◌++◌, ◌^◌, if◌then◌else◌, arith, length, get_elem?, set,
}
use leka.Base.Outcome.{ok, ◌>>=◌}
use leka.Types.{u64_size}
use leka.Order.Event.{OrderEvent}
use leka.Queue.{
  SpscEventQueue, slot, check_push, construct, publish, try_push, check_pop, take_event, retire,
  try_pop,
}
use leka.Queue.Cursor.{slot-cursor}
use leka.Queue.System.{
  has_room, Producer, Consumer, System, CanSee, pushing, popping, push, write, release_tail, pop,
  read, release_head, Reach, next,
}
use leka.Queue.Invariant.{written}
use leka.Queue.Safety.{Reach-Inv, checks_lem, take_event-next}

-- A call of `tryPush` with an event, from the outside.
abbrev pub pushed : OrderEvent → Bool × SpscEventQueue → System → System
pushed event (true, q) s = record s { queue = q; sent = s.sent ++ event ∷ [] }
pushed event (false, q) s = record s { queue = q }

-- A call of `tryPop`, from the outside.
abbrev pub popped : Option OrderEvent × SpscEventQueue → System → System
popped (some event, q) s = record s { queue = q; received = s.received ++ event ∷ [] }
popped (none, q) s = record s { queue = q }

-- What a call of `tryPush` that has seen the head `seen` does, from the outside: the two threads can
-- reach the state that it leads to, the tail counts the published events, and
-- - if it answers true, fewer than 2^k events were on their way, and the event stands in the slot
--   of its number, which held none; no other slot has changed;
-- - if it answers false, no slot has changed, and if the head was the current one, 2^k events were
--   on their way.
pub record Pushes (k : ℕ) (s : System) (event : OrderEvent) (seen : ℕ) (r : Bool × SpscEventQueue)
    : Type 0 where
  pub reach : Reach k (pushed event r s)
  pub tail : r.1.tail ≡ length (pushed event r s).sent % u64_size
  pub room : r.0 ≡ true → length s.sent < length s.received + 2 ^ k
  pub raw : r.0 ≡ true → get_elem? s.queue.storage (length s.sent % 2 ^ k) ≡ some none
  pub stored : r.0 ≡ true → r.1.storage ≡ set s.queue.storage (length s.sent % 2 ^ k) (some event)
  pub kept : r.0 ≡ false → r.1.storage ≡ s.queue.storage
  pub full : r.0 ≡ false → seen ≡ s.queue.head → length s.sent ≡ length s.received + 2 ^ k

-- The check writes no slot.
check_push-storage :
    (capacity seen : ℕ) (q : SpscEventQueue) → (check_push capacity seen q).1.storage ≡ q.storage
unfolding check_push
check_push-storage capacity seen q = ground arith

module _ (k : ℕ) (small : k ≤ 63) (s : System) (event : OrderEvent) (seen : ℕ) (r : Reach k s)
    (idle : s.producer ≡ Producer.out) (q : SpscEventQueue) where
  refused-Pushes :
      check_push (2 ^ k) seen s.queue ≡ (false, q)
      → Reach k (record s { queue = q })
      → Pushes k s event seen (false, q)
  refused-Pushes check w =
      let v = Reach-Inv k small s r in
      record {
        reach = w;
        tail = (Reach-Inv k small (record s { queue = q }) w).tail_at;
        room = λ t. absurd (ground (arith, t));
        raw = λ t. absurd (ground (arith, t));
        stored = λ t. absurd (ground (arith, t));
        kept = λ f. ap (λ x. x.1.storage) (sym check) ∙ check_push-storage (2 ^ k) seen s.queue;
        full = λ f. λ now.
            let answer =
              sym (checks_lem k small s r).0
              ∙ ap (λ n. (check_push (2 ^ k) n s.queue).0) (sym now)
              ∙ ap (λ x. x.0) check in
            ground (arith, answer, v.fits, v.ch_le);
      }

  accepted-Pushes :
      check_push (2 ^ k) seen s.queue ≡ (true, q)
      → Reach k (record s { queue = q; producer = has_room event })
      → Pushes k s event seen (true, publish (construct (2 ^ k) event q))
  unfolding construct publish
  accepted-Pushes check w =
      let v = Reach-Inv k small s r in
      let found = Reach-Inv k small (record s { queue = q; producer = has_room event }) w in
      let last =
        subst
          (λ p. Reach k (record s {
            queue = publish (construct (2 ^ k) event q);
            producer = p;
            sent = s.sent ++ event ∷ [];
          }))
          (sym idle) (next (next w (write event refl)) (release_tail event refl)) in
      let room : length s.sent < length s.received + 2 ^ k =
        omega (arith, found.may_write, found.ch_le) in
      let same : q.storage ≡ s.queue.storage =
        ap (λ x. x.1.storage) (sym check) ∙ check_push-storage (2 ^ k) seen s.queue in
      let place : slot (2 ^ k) q.tail ≡ length s.sent % 2 ^ k =
        ap (slot (2 ^ k)) found.tail_at ∙ slot-cursor k (length s.sent) (omega arith) in
      record {
        reach = last;
        tail = (Reach-Inv k small _ last).tail_at;
        room = λ t. room;
        raw = λ t. v.free (length s.sent) (omega (arith, ap written idle)) (omega (arith, room));
        stored = λ t. rw (same, place) refl;
        kept = λ f. absurd (ground (arith, f));
        full = λ f. λ now. absurd (ground (arith, f));
      }

-- In a queue of 2^k slots, k at most 63, a whole call of `tryPush`, begun by a producer that is
-- between calls in any state that the two threads can reach, leads to a state that they can
-- reach, in which the tail counts the published events modulo 2^64. If the call answers true,
-- fewer than 2^k events were published and not handed over, and the event now stands in the slot
-- of its number, which held none, and no other slot has changed. If it answers false, no slot has
-- changed, and if the head that it had seen was the current one, 2^k events were published and
-- not handed over.
pub try_push-Pushes :
    (k : ℕ)
    → k ≤ 63
    → (s : System) (event : OrderEvent) (seen : ℕ) → Reach k s
    → s.producer ≡ Producer.out
    → CanSee s.queue.cached_head s.queue.head seen
    → Pushes k s event seen (try_push (2 ^ k) seen event s.queue)
unfolding try_push
try_push-Pushes k small s event seen r e c =
    rest (check_push (2 ^ k) seen s.queue) refl (next r (push event seen e c))
  where
    rest :
        (b : Bool × SpscEventQueue)
        → check_push (2 ^ k) seen s.queue ≡ b
        → Reach k (pushing event b s)
        → Pushes k s event seen
            (if b.0 then (true, publish (construct (2 ^ k) event b.1)) else (false, b.1))
    rest (false, q) check w = refused-Pushes k small s event seen r e q check w
    rest (true, q) check w = accepted-Pushes k small s event seen r e q check w

-- In a queue of 2^k slots, k at most 63, a whole call of `tryPop`, begun by a consumer that is
-- between calls in any state that the two threads can reach, returns and does not read a raw
-- slot, and leads to a state that they can reach: the event that it answers has been handed over,
-- or none has.
pub try_pop-Reach :
    (k : ℕ)
    → k ≤ 63
    → (s : System) (seen : ℕ) → Reach k s
    → s.consumer ≡ Consumer.out
    → CanSee s.queue.cached_tail s.queue.tail seen
    → (answer : Option OrderEvent × SpscEventQueue) × (try_pop (2 ^ k) seen s.queue ≡ ok answer)
      × Reach k (popped answer s)
unfolding try_pop
try_pop-Reach k small s seen r e c = rest (check_pop seen s.queue) (next r (pop seen e c))
  where
    rest :
        (b : Bool × SpscEventQueue)
        → Reach k (popping b s)
        → (answer : Option OrderEvent × SpscEventQueue) × ((if b.0
              then (do (event, taken) ← take_event (2 ^ k) b.1; ok (some event, retire taken))
              else ok (none, b.1))
            ≡ ok answer)
          × Reach k (popped answer s)
    rest (false, q) r = ((none, q), refl, r)
    rest (true, q) r =
        let (event, taken, run, _) = take_event-next k small (popping (true, q) s) r refl in
        (
          (some event, retire taken),
          rw run refl,
          subst
              (λ p. Reach k (record s {
                queue = retire taken;
                consumer = p;
                received = s.received ++ event ∷ [];
              }))
              (sym e) (next (next r (read event taken refl run)) (release_head event refl)),
        )
