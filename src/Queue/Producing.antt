-- ===== src/Queue/Producing.antt =====
-- The producing thread keeps the invariant.
use leka.Base.{
  get_elem?-append, ℕ, zero, suc, ◌+◌, ◌-◌, ◌*◌, ◌%◌, ◌^◌, ◌<◌, ◌≤◌, ◌≡◌, refl, sym, ap, ◌∙◌, some,
  [], ◌∷◌, ◌++◌, arith, ◌==◌, leb, if◌then◌else◌, length, get_elem?, set, length-append, length-set,
  test_of_ne, Bool-cases, eq_of_test, ne_of_test, ==_iff, inl, inr, get_elem?-set_self,
  get_elem?-set_ne,
}
use native.Mathlib.Nat.{mod-lt}
use leka.Base.Masks.{two_pow_pos}
use leka.Types.{u64_size}
use leka.Order.Event.{OrderEvent}
use leka.Queue.{slot, check_push, construct, publish}
use leka.Queue.Cursor.{cursor_distance, slot-cursor, slots_apart, two_pow_factor}
use leka.Queue.System.{Producer, has_room, constructed, System, CanSee}
use leka.Queue.Invariant.{written, Inv, MayRead-le, MayRead-congr, MayWrite-mono}
use leka.Queue.System.{pushing}
use leka.Types.{sub_u64}

le_factor : (a c : ℕ) {b : ℕ} → 0 < b → b ≡ a * c → a ≤ b
le_factor a zero h e = absurd (omega arith)
le_factor a (suc c) h e = grind arith

pub capacity_bound : (k : ℕ) → k ≤ 63 → 2 ^ k ≤ 2 ^ 63
capacity_bound k h =
    let (c, e) = two_pow_factor k (63 - k) in
    let whole : 2 ^ 63 ≡ 2 ^ k * c = ap (λ x. 2 ^ x) {x = 63} {y = 63 - k + k} (omega arith) ∙ e in
    le_factor (2 ^ k) c (omega arith) whole

module _ (k : ℕ) (small : k ≤ 63) (s : System) (v : Inv k s) where
  pub publish-Inv :
      (event : OrderEvent)
      → s.producer ≡ constructed event
      → Inv k (record s {
        queue = publish s.queue;
        producer = Producer.out;
        sent = s.sent ++ event ∷ [];
      })
  unfolding publish
  publish-Inv event e =
      let may : (length s.sent < v.ch + 2 ^ k) × (v.events (length s.sent) ≡ event) =
        rw e at v.may_write in
      let longer = length-append s.sent (event ∷ []) in
      let lead = ap written e in
      record {
        ch = v.ch;
        ct = v.ct;
        events = v.events;
        head_at = v.head_at;
        tail_at = omega (arith, v.tail_at, longer);
        cached_head_at = v.cached_head_at;
        cached_tail_at = v.cached_tail_at;
        ch_le = v.ch_le;
        ct_ge = v.ct_ge;
        ct_le = omega (arith, v.ct_le, longer);
        fits = omega (arith, may.0, longer);
        may_write = tt;
        may_read = v.may_read;
        sized = v.sized;
        live = λ i a b. v.live i a (omega (arith, longer, lead));
        free = λ i a b. v.free i (omega (arith, longer, lead)) b;
        sent_at = λ i h. get_elem?-append s.sent i event ∙ elim (Bool-cases (i == length s.sent)) [
          | inl q ↦ rw q (ap some (sym (ap v.events (eq_of_test i (length s.sent) q) ∙ may.1)))
          | inr q ↦ rw q (v.sent_at i (omega (arith, ne_of_test i (length s.sent) q, longer)))
        ];
        received_at = v.received_at;
      }

  pub construct-Inv :
      (event : OrderEvent)
      → s.producer ≡ has_room event
      → Inv k (record s { queue = construct (2 ^ k) event s.queue; producer = constructed event })
  unfolding construct
  construct-Inv event e =
      let t = length s.sent in
      let h = length s.received in
      let may : t < v.ch + 2 ^ k = rw e at v.may_write in
      let lead = ap written e in
      let place : slot (2 ^ k) s.queue.tail ≡ t % 2 ^ k =
        ap (slot (2 ^ k)) v.tail_at ∙ slot-cursor k t (omega arith) in
      let inside : t % 2 ^ k < length s.queue.storage =
        omega (arith, v.sized, mod-lt t {m = 2 ^ k} (two_pow_pos k)) in
      let events' = λ (i : ℕ). if i == t then event else v.events i in
      record {
        ch = v.ch;
        ct = v.ct;
        events = events';
        head_at = v.head_at;
        tail_at = v.tail_at;
        cached_head_at = v.cached_head_at;
        cached_tail_at = v.cached_tail_at;
        ch_le = v.ch_le;
        ct_ge = v.ct_ge;
        ct_le = v.ct_le;
        fits = v.fits;
        may_write = (may, rw ((==_iff t t).1 refl) refl);
        may_read =
            MayRead-congr h v.ct v.events events' s.consumer
              (λ lt. rw (test_of_ne h t (omega (arith, v.ct_le))) refl) v.may_read;
        sized = length-set s.queue.storage (slot (2 ^ k) s.queue.tail) (some event) ∙ v.sized;
        live = λ i a b. elim (Bool-cases (i == t)) [
          | inl q ↦
              rw (place, q)
                (ap (λ x. get_elem? (set s.queue.storage (t % 2 ^ k) (some event)) (x % 2 ^ k))
                    (eq_of_test i t q)
                  ∙ get_elem?-set_self s.queue.storage (t % 2 ^ k) (some event) inside)
          | inr q ↦
              rw (place, q)
                (get_elem?-set_ne s.queue.storage (t % 2 ^ k) (i % 2 ^ k) (some event) (λ w.
                    slots_apart (2 ^ k) i t (omega (arith, ne_of_test i t q))
                      (omega (arith, v.ch_le)) (sym w))
                  ∙ v.live i a (omega (arith, ne_of_test i t q)))
        ];
        free = λ i a b. rw place (
            get_elem?-set_ne s.queue.storage (t % 2 ^ k) (i % 2 ^ k) (some event) (
              slots_apart (2 ^ k) t i (omega arith)
                (omega (arith, v.ct_le, MayRead-le h v.ct v.events s.consumer v.ct_ge v.may_read)))
            ∙ v.free i (omega (arith, lead)) b);
        sent_at = λ i a. rw (test_of_ne i t (omega arith)) (v.sent_at i a);
        received_at =
            λ i a. rw (test_of_ne i t (omega (arith, v.ct_ge, v.ct_le))) (v.received_at i a);
      }

  -- The producer learns that more has been received.
  see_head :
      (ch seen : ℕ)
      → seen ≡ ch % u64_size
      → v.ch ≤ ch
      → ch ≤ length s.received
      → Inv k (record s { queue = record s.queue { cached_head = seen } })
  see_head ch seen at_ch more le = record {
    ch = ch;
    ct = v.ct;
    events = v.events;
    head_at = v.head_at;
    tail_at = v.tail_at;
    cached_head_at = at_ch;
    cached_tail_at = v.cached_tail_at;
    ch_le = le;
    ct_ge = v.ct_ge;
    ct_le = v.ct_le;
    fits = omega (arith, v.fits);
    may_write =
        MayWrite-mono (length s.sent) (v.ch + 2 ^ k) (ch + 2 ^ k) v.events s.producer (omega arith)
          v.may_write;
    may_read = v.may_read;
    sized = v.sized;
    live = v.live;
    free = v.free;
    sent_at = v.sent_at;
    received_at = v.received_at;
  }

  -- It has room for the event.
  find_room :
      (event : OrderEvent)
      → s.producer ≡ Producer.out
      → length s.sent < v.ch + 2 ^ k
      → Inv k (record s { producer = has_room event })
  find_room event e room =
      let lead = ap written e in
      record {
        ch = v.ch;
        ct = v.ct;
        events = v.events;
        head_at = v.head_at;
        tail_at = v.tail_at;
        cached_head_at = v.cached_head_at;
        cached_tail_at = v.cached_tail_at;
        ch_le = v.ch_le;
        ct_ge = v.ct_ge;
        ct_le = v.ct_le;
        fits = v.fits;
        may_write = room;
        may_read = v.may_read;
        sized = v.sized;
        live = λ i a b. v.live i a (omega (arith, lead));
        free = λ i a b. v.free i (omega (arith, lead)) b;
        sent_at = v.sent_at;
        received_at = v.received_at;
      }

-- The distance of two cursors, by their counters.
pub distance_of :
    (x y a b : ℕ)
    → x ≡ b % u64_size
    → y ≡ a % u64_size
    → a ≤ b
    → b < a + u64_size
    → sub_u64 x y ≡ b - a
distance_of x y a b p q le lt = rw (p, q) (cursor_distance a b le lt)

module _ (k : ℕ) (small : k ≤ 63) (s : System) (v : Inv k s) where
  -- The check for room, with what it has seen of the head.
  pub push-Inv :
      (event : OrderEvent) (seen : ℕ)
      → s.producer ≡ Producer.out
      → CanSee s.queue.cached_head s.queue.head seen
      → Inv k (pushing event (check_push (2 ^ k) seen s.queue) s)
  unfolding check_push
  push-Inv event seen e (d, bound, at_d) =
      let t = length s.sent in
      let cap = capacity_bound k small in
      let known =
        distance_of s.queue.head s.queue.cached_head v.ch (length s.received) v.head_at
          v.cached_head_at v.ch_le (omega (arith, v.ct_ge, v.ct_le, v.fits)) in
      let seen_at : seen ≡ (v.ch + d) % u64_size = omega (arith, at_d, v.cached_head_at) in
      let gap_old =
        distance_of s.queue.tail s.queue.cached_head v.ch t v.tail_at v.cached_head_at
          (omega (arith, v.ch_le, v.ct_ge, v.ct_le)) (omega (arith, v.fits)) in
      let gap_new =
        distance_of s.queue.tail seen (v.ch + d) t v.tail_at seen_at
          (omega (arith, bound, known, v.ch_le, v.ct_ge, v.ct_le)) (omega (arith, v.fits)) in
      let w =
        see_head k small s v (v.ch + d) seen seen_at (omega arith)
          (omega (arith, bound, known, v.ch_le)) in
      elim (Bool-cases (leb (2 ^ k) (sub_u64 s.queue.tail s.queue.cached_head))) [
        | inr f ↦ rw f (find_room k small s v event e (ground (arith, gap_old)))
        | inl f ↦ elim (Bool-cases (leb (2 ^ k) (sub_u64 s.queue.tail seen))) [
          | inl g ↦ rw (f, g) w
          | inr g ↦
              rw (f, g)
                (find_room k small (record s { queue = record s.queue { cached_head = seen } }) w
                  event e (ground (arith, gap_new)))
        ]
      ]
