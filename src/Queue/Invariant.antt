-- ===== src/Queue/Invariant.antt =====
-- What holds in every state of the two threads.
use leka.Base.{
  ℕ, zero, suc, ◌+◌, ◌%◌, ◌^◌, ◌<◌, ◌≤◌, ◌≡◌, refl, ◌∙◌, none, some, arith, length, get_elem?,
  replicate,
}
use leka.Types.{u64_size}
use leka.Order.Event.{OrderEvent}
use leka.Queue.System.{Producer, has_room, constructed, Consumer, has_event, took, System}

-- Slots written ahead of the tail, and emptied ahead of the head.
abbrev pub written : Producer → ℕ
written (constructed _) = 1
written _ = 0

abbrev pub emptied : Consumer → ℕ
emptied (took _) = 1
emptied _ = 0

-- What a thread knows while it works: `n` is its own counter, `bound` the limit that it has checked.
abbrev pub MayWrite : (n bound : ℕ) → (ℕ → OrderEvent) → Producer → Type 0
MayWrite n bound events Producer.out = Unit {0}
MayWrite n bound events (has_room event) = n < bound
MayWrite n bound events (constructed event) = (n < bound) × (events n ≡ event)

abbrev pub MayRead : (n bound : ℕ) → (ℕ → OrderEvent) → Consumer → Type 0
MayRead n bound events Consumer.out = Unit {0}
MayRead n bound events has_event = n < bound
MayRead n bound events (took event) = (n < bound) × (events n ≡ event)

-- `h` events are received and `t` sent; the threads know of `ch` and `ct` of them.
pub record Inv (k : ℕ) (s : System) : Type 0 where
  pub ch : ℕ
  pub ct : ℕ
  pub events : ℕ → OrderEvent
  pub head_at : s.queue.head ≡ length s.received % u64_size
  pub tail_at : s.queue.tail ≡ length s.sent % u64_size
  pub cached_head_at : s.queue.cached_head ≡ ch % u64_size
  pub cached_tail_at : s.queue.cached_tail ≡ ct % u64_size
  pub ch_le : ch ≤ length s.received
  pub ct_ge : length s.received ≤ ct
  pub ct_le : ct ≤ length s.sent
  pub fits : length s.sent ≤ ch + 2 ^ k
  pub may_write : MayWrite (length s.sent) (ch + 2 ^ k) events s.producer
  pub may_read : MayRead (length s.received) ct events s.consumer
  pub sized : length s.queue.storage ≡ 2 ^ k
  pub live :
      (i : ℕ)
      → length s.received + emptied s.consumer ≤ i
      → i < length s.sent + written s.producer
      → get_elem? s.queue.storage (i % 2 ^ k) ≡ some (some (events i))
  pub free :
      (i : ℕ)
      → length s.sent + written s.producer ≤ i
      → i < length s.received + emptied s.consumer + 2 ^ k
      → get_elem? s.queue.storage (i % 2 ^ k) ≡ some none
  pub sent_at : (i : ℕ) → i < length s.sent → get_elem? s.sent i ≡ some (events i)
  pub received_at : (i : ℕ) → i < length s.received → get_elem? s.received i ≡ some (events i)

pub get_elem?-replicate :
    {A : Type 0} (n i : ℕ) (v : A) → i < n → get_elem? (replicate n v) i ≡ some v
get_elem?-replicate zero i v h = absurd (omega arith)
get_elem?-replicate (suc n) zero v h = refl
get_elem?-replicate (suc n) (suc i) v h = get_elem?-replicate n i v (omega arith)

-- The consumer stays within the events that it knows of.
pub MayRead-le :
    (n bound : ℕ) (events : ℕ → OrderEvent) (c : Consumer)
    → n ≤ bound
    → MayRead n bound events c
    → n + emptied c ≤ bound
MayRead-le n bound events Consumer.out le m = omega arith
MayRead-le n bound events has_event le m = omega arith
MayRead-le n bound events (took event) le m = omega arith

pub MayRead-congr :
    (n bound : ℕ) (events events' : ℕ → OrderEvent) (c : Consumer)
    → (n < bound → events' n ≡ events n)
    → MayRead n bound events c
    → MayRead n bound events' c
MayRead-congr n bound events events' Consumer.out same m = tt
MayRead-congr n bound events events' has_event same m = m
MayRead-congr n bound events events' (took event) same m = (m.0, same m.0 ∙ m.1)

-- The producer stays within the room that it knows of.
pub MayWrite-le :
    (n bound : ℕ) (events : ℕ → OrderEvent) (p : Producer)
    → n ≤ bound
    → MayWrite n bound events p
    → n + written p ≤ bound
MayWrite-le n bound events Producer.out le m = omega arith
MayWrite-le n bound events (has_room event) le m = omega arith
MayWrite-le n bound events (constructed event) le m = omega arith

-- Knowing of more is no harm.
pub MayWrite-mono :
    (n a b : ℕ) (events : ℕ → OrderEvent) (p : Producer)
    → a ≤ b
    → MayWrite n a events p
    → MayWrite n b events p
MayWrite-mono n a b events Producer.out le m = tt
MayWrite-mono n a b events (has_room event) le m = omega arith
MayWrite-mono n a b events (constructed event) le m = (omega arith, m.1)
