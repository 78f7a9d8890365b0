-- ===== src/Queue.antt =====
-- include/lob/concurrency/spsc_event_queue.hpp: the ring between the thread that produces events and
-- the one that handles them. Each call is cut where the other thread can see a difference: behind
-- the check for room or for an event, behind the access of the slot, and behind the release store
-- of the cursor. What an acquire load of the other side's cursor returns is the argument `seen`.
pub mod Cursor
pub mod System
pub mod Invariant
pub mod Producing
pub mod Consuming
pub mod Safety
pub mod Calls
pub mod Teardown
use Prim.Native.Nat.{bit_and}
use leka.Base.{
  ℕ, zero, suc, ◌-◌, Bool, true, false, Option, none, some, List, ◌==◌, leb, if◌then◌else◌,
  get_elem?, set, replicate,
}
use leka.Base.Outcome.{Outcome, ok, fault, out_of_fuel, ◌>>=◌}
use leka.Types.{add_u64, sub_u64}
use leka.Order.Event.{OrderEvent}

-- A slot of the storage holds an event, or raw bytes.
pub record SpscEventQueue : Type 0 where
  pub head : ℕ
  pub tail : ℕ
  pub cached_head : ℕ
  pub cached_tail : ℕ
  pub storage : List (Option OrderEvent)

abbrev pub new_queue : (capacity : ℕ) → SpscEventQueue
new_queue capacity = record {
  head = 0;
  tail = 0;
  cached_head = 0;
  cached_tail = 0;
  storage = replicate capacity none;
}

-- `slot(index)`
unfoldable pub slot : (capacity index : ℕ) → ℕ
slot capacity index = bit_and index (capacity - 1)

-- `tryPush` up to `construct_at`: whether there is room.
unfoldable pub check_push : (capacity seen : ℕ) → SpscEventQueue → Bool × SpscEventQueue
check_push capacity seen q =
    if leb capacity (sub_u64 q.tail q.cached_head)
    then (if leb capacity (sub_u64 q.tail seen)
        then (false, record q { cached_head = seen })
        else (true, record q { cached_head = seen }))
    else (true, q)

unfoldable pub construct : (capacity : ℕ) → OrderEvent → SpscEventQueue → SpscEventQueue
construct capacity event q = record q {
  storage = set q.storage (slot capacity q.tail) (some event);
}

-- The release store of the tail.
unfoldable pub publish : SpscEventQueue → SpscEventQueue
publish q = record q { tail = add_u64 q.tail 1 }

unfoldable pub try_push : (capacity seen : ℕ) → OrderEvent → SpscEventQueue → Bool × SpscEventQueue
try_push capacity seen event q =
    let (room, q') = check_push capacity seen q in
    if room then (true, publish (construct capacity event q')) else (false, q')

-- `tryPop` up to the move out of the slot: whether there is an event.
unfoldable pub check_pop : (seen : ℕ) → SpscEventQueue → Bool × SpscEventQueue
check_pop seen q =
    if q.head == q.cached_tail
    then (if q.head == seen
        then (false, record q { cached_tail = seen })
        else (true, record q { cached_tail = seen }))
    else (true, q)

-- The move out of the slot and the end of the event's life there. A slot of raw bytes has none.
unfoldable pub take_event : (capacity : ℕ) → SpscEventQueue → Outcome (OrderEvent × SpscEventQueue)
take_event capacity q = elim (get_elem? q.storage (slot capacity q.head)) [
  | none ↦ fault
  | some none ↦ fault
  | some (some event) ↦ ok (event, record q { storage = set q.storage (slot capacity q.head) none })
]

-- The release store of the head.
unfoldable pub retire : SpscEventQueue → SpscEventQueue
retire q = record q { head = add_u64 q.head 1 }

unfoldable pub try_pop :
    (capacity seen : ℕ) → SpscEventQueue → Outcome (Option OrderEvent × SpscEventQueue)
try_pop capacity seen q =
    let (present, q') = check_pop seen q in
    if present
    then (do (event, taken) ← take_event capacity q'; ok (some event, retire taken))
    else ok (none, q')

unfoldable pub size_approx : SpscEventQueue → ℕ
size_approx q = sub_u64 q.tail q.head

-- The loop of the destructor.
unfoldable pub destroy :
    (fuel capacity : ℕ)
    → (head tail : ℕ) → List (Option OrderEvent)
    → Outcome (List (Option OrderEvent))
destroy zero capacity head tail storage = out_of_fuel
destroy (suc fuel) capacity head tail storage = elim (head == tail) [
  | true ↦ ok storage
  | false ↦ elim (get_elem? storage (slot capacity head)) [
    | none ↦ fault
    | some none ↦ fault
    | some (some event) ↦
        destroy fuel capacity (add_u64 head 1) tail (set storage (slot capacity head) none)
  ]
]
