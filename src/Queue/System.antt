-- ===== src/Queue/System.antt =====
-- The producing thread and the consuming one over one ring, a shared access at a time. The history
-- of what was published and of what was handed over is kept beside the ring.
use leka.Base.{ℕ, ◌≤◌, ◌≡◌, Bool, true, false, List, [], ◌∷◌, ◌++◌, ◌^◌}
use leka.Base.Outcome.{ok}
use leka.Types.{add_u64, sub_u64}
use leka.Order.Event.{OrderEvent}
use leka.Queue.{
  SpscEventQueue, new_queue, check_push, construct, publish, check_pop, take_event, retire,
}

-- Where `tryPush` and `tryPop` stand.
pub data Producer : Type 0 where
  out : Producer
  has_room : OrderEvent → Producer
  constructed : OrderEvent → Producer

pub data Consumer : Type 0 where
  out : Consumer
  has_event : Consumer
  took : OrderEvent → Consumer

pub record System : Type 0 where
  pub queue : SpscEventQueue
  pub producer : Producer
  pub consumer : Consumer
  pub sent : List OrderEvent
  pub received : List OrderEvent

-- An acquire load may return the cursor's value or an older one, but none older than the value that
-- this thread has seen before.
abbrev pub CanSee : (before now seen : ℕ) → Type 0
CanSee before now seen = (d : ℕ) × (d ≤ sub_u64 now before) × (seen ≡ add_u64 before d)

abbrev pub pushing : OrderEvent → Bool × SpscEventQueue → System → System
pushing event (true, q) s = record s { queue = q; producer = has_room event }
pushing event (false, q) s = record s { queue = q }

abbrev pub popping : Bool × SpscEventQueue → System → System
popping (true, q) s = record s { queue = q; consumer = has_event }
popping (false, q) s = record s { queue = q }

pub data Step (k : ℕ) (s : System) : System → Type 0 where
  push :
      (event : OrderEvent) (seen : ℕ)
      → s.producer ≡ Producer.out
      → CanSee s.queue.cached_head s.queue.head seen
      → Step k s (pushing event (check_push (2 ^ k) seen s.queue) s)
  write :
      (event : OrderEvent)
      → s.producer ≡ has_room event
      → Step k s
          (record s { queue = construct (2 ^ k) event s.queue; producer = constructed event })
  release_tail :
      (event : OrderEvent)
      → s.producer ≡ constructed event
      → Step k s (record s {
        queue = publish s.queue;
        producer = Producer.out;
        sent = s.sent ++ event ∷ [];
      })
  pop :
      (seen : ℕ)
      → s.consumer ≡ Consumer.out
      → CanSee s.queue.cached_tail s.queue.tail seen
      → Step k s (popping (check_pop seen s.queue) s)
  read :
      (event : OrderEvent) (q : SpscEventQueue)
      → s.consumer ≡ has_event
      → take_event (2 ^ k) s.queue ≡ ok (event, q)
      → Step k s (record s { queue = q; consumer = took event })
  release_head :
      (event : OrderEvent)
      → s.consumer ≡ took event
      → Step k s (record s {
        queue = retire s.queue;
        consumer = Consumer.out;
        received = s.received ++ event ∷ [];
      })

abbrev pub start : ℕ → System
start k = record {
  queue = new_queue (2 ^ k);
  producer = Producer.out;
  consumer = Consumer.out;
  sent = [];
  received = [];
}

pub data Reach (k : ℕ) : System → Type 0 where
  here : Reach k (start k)
  next : {s t : System} → Reach k s → Step k s t → Reach k t
