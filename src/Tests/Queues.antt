-- ===== src/Tests/Queues.antt =====
-- The queue of two slots, at concrete steps of its two threads.
use leka.Base.{
  ℕ, ◌≡◌, ◌≢◌, ◌≤◌, refl, Option, none, some, true, List, [], ◌∷◌, ◌++◌, arith, length, get_elem?,
  ◌-◌, ltb, ◌+◌, ◌^◌, ◌<◌,
}
use leka.Base.Outcome.{ok}
use leka.Order.Event.{OrderEvent}
use leka.Queue.{
  SpscEventQueue, slot, check_push, construct, publish, check_pop, take_event, try_push, try_pop,
  size_approx, destroy,
}
use leka.Queue.System.{
  Producer, has_room, Consumer, has_event, System, push, write, release_tail, pop, Reach, here,
  next,
}
use leka.Queue.Safety.{events_in_order, take_event-next, construct-raw, checks_lem}
use leka.Queue.Calls.{Pushes, popped, try_push-Pushes, try_pop-Reach}
use leka.Queue.Teardown.{destroy-runs}

abbrev first_event : OrderEvent
first_event = OrderEvent.cancel (record { order_id = 7 })

abbrev second_event : OrderEvent
second_event = OrderEvent.cancel (record { order_id = 8 })

-- One event is published.
abbrev one_sent : System
one_sent = record {
  queue = record {
    head = 0;
    tail = 1;
    cached_head = 0;
    cached_tail = 0;
    storage = some first_event ∷ none ∷ [];
  };
  producer = Producer.out;
  consumer = Consumer.out;
  sent = first_event ∷ [];
  received = [];
}

one_sent-Reach : Reach 1 one_sent
unfolding check_push construct publish slot
one_sent-Reach =
    next
      (next (next here (push first_event 0 refl (0, omega arith, refl))) (write first_event refl))
      (release_tail first_event refl)

-- The consumer has found it, and the producer has room for another one.
abbrev both_at_work : System
both_at_work = record one_sent {
  queue = record one_sent.queue { cached_tail = 1 };
  producer = has_room second_event;
  consumer = has_event;
}

both_at_work-Reach : Reach 1 both_at_work
unfolding check_push check_pop
both_at_work-Reach =
    next (next one_sent-Reach (pop 1 refl (1, omega arith, refl)))
      (push second_event 0 refl (0, omega arith, refl))

events_in_order_example :
    (flight : List OrderEvent) × (both_at_work.sent ≡ both_at_work.received ++ flight)
    × (length flight ≤ 2 ^ 1)
events_in_order_example = events_in_order 1 (omega arith) both_at_work both_at_work-Reach

take_event-next_example :
    (event : OrderEvent) × (q : SpscEventQueue) × (take_event (2 ^ 1) both_at_work.queue
      ≡ ok (event, q))
    × (get_elem? both_at_work.sent (length both_at_work.received) ≡ some event)
take_event-next_example = take_event-next 1 (omega arith) both_at_work both_at_work-Reach refl

construct-raw_example :
    (get_elem? both_at_work.queue.storage (slot (2 ^ 1) both_at_work.queue.tail) ≡ some none)
    × (both_at_work.consumer ≡ has_event
        → slot (2 ^ 1) both_at_work.queue.tail ≢ slot (2 ^ 1) both_at_work.queue.head)
construct-raw_example =
    construct-raw 1 (omega arith) both_at_work both_at_work-Reach second_event refl

checks_example :
    ((check_push (2 ^ 1) one_sent.queue.head one_sent.queue).0
      ≡ ltb (length one_sent.sent) (length one_sent.received + 2 ^ 1))
    × ((check_pop one_sent.queue.tail one_sent.queue).0
        ≡ ltb (length one_sent.received) (length one_sent.sent))
    × (size_approx one_sent.queue ≡ length one_sent.sent - length one_sent.received)
checks_example = checks_lem 1 (omega arith) one_sent one_sent-Reach

destroy-runs_example :
    (raw : List (Option OrderEvent)) × (destroy 3 2 0 1 (some first_event ∷ none ∷ []) ≡ ok raw)
    × (length raw ≡ 2 ^ 1)
    × ((j : ℕ) → j < 2 ^ 1 → get_elem? raw j ≡ some none)
destroy-runs_example = destroy-runs 1 (omega arith) one_sent one_sent-Reach refl refl

try_push-Pushes_example :
    Pushes 1 one_sent second_event 0 (try_push (2 ^ 1) 0 second_event one_sent.queue)
try_push-Pushes_example =
    try_push-Pushes 1 (omega arith) one_sent second_event 0 one_sent-Reach refl
      (0, omega arith, refl)

try_pop-Reach_example :
    (answer : Option OrderEvent × SpscEventQueue) × (try_pop (2 ^ 1) 1 one_sent.queue ≡ ok answer)
    × Reach 1 (popped answer one_sent)
try_pop-Reach_example =
    try_pop-Reach 1 (omega arith) one_sent 1 one_sent-Reach refl (1, omega arith, refl)

-- A second event fills the queue, a third one is refused.
full_queue : (try_push 2 0 second_event one_sent.queue).0 ≡ true
unfolding try_push check_push
full_queue = refl
