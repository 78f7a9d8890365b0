-- ===== src/Queue/Consuming.antt =====
-- The consuming thread keeps the invariant.
use leka.Base.{
  get_elem?-append, ℕ, ◌+◌, ◌%◌, ◌^◌, ◌<◌, ◌≤◌, ◌≡◌, ◌≢◌, refl, sym, ap, ◌∙◌, none, some, [], ◌∷◌,
  ◌++◌, arith, ◌==◌, length, get_elem?, set, length-append, length-set, Bool-cases, eq_of_test,
  ne_of_test, inl, inr, get_elem?-set_self, get_elem?-set_ne,
}
use native.Mathlib.Nat.{mod-lt, add-mod_right}
use leka.Base.Masks.{two_pow_pos}
use leka.Base.Outcome.{ok}
use leka.Types.{u64_size}
use leka.Order.Event.{OrderEvent}
use leka.Queue.{SpscEventQueue, slot, check_pop, take_event, retire}
use leka.Queue.Cursor.{slot-cursor, slots_apart}
use leka.Queue.System.{Consumer, has_event, took, System, CanSee}
use leka.Queue.Invariant.{emptied, Inv, MayWrite-le}
use leka.Queue.System.{popping}
use leka.Queue.Producing.{capacity_bound, distance_of}

module _ (k : ℕ) (small : k ≤ 63) (s : System) (v : Inv k s) where
  pub retire-Inv :
      (event : OrderEvent)
      → s.consumer ≡ took event
      → Inv k (record s {
        queue = retire s.queue;
        consumer = Consumer.out;
        received = s.received ++ event ∷ [];
      })
  unfolding retire
  retire-Inv event e =
      let may : (length s.received < v.ct) × (v.events (length s.received) ≡ event) =
        rw e at v.may_read in
      let longer = length-append s.received (event ∷ []) in
      let lead = ap emptied e in
      record {
        ch = v.ch;
        ct = v.ct;
        events = v.events;
        head_at = omega (arith, v.head_at, longer);
        tail_at = v.tail_at;
        cached_head_at = v.cached_head_at;
        cached_tail_at = v.cached_tail_at;
        ch_le = omega (arith, v.ch_le, longer);
        ct_ge = omega (arith, may.0, longer);
        ct_le = v.ct_le;
        fits = v.fits;
        may_write = v.may_write;
        may_read = tt;
        sized = v.sized;
        live = λ i a b. v.live i (omega (arith, longer, lead)) b;
        free = λ i a b. v.free i a (omega (arith, longer, lead));
        sent_at = v.sent_at;
        received_at = λ i h.
            get_elem?-append s.received i event ∙ elim (Bool-cases (i == length s.received)) [
              | inl q ↦
                  rw q (ap some (sym (ap v.events (eq_of_test i (length s.received) q) ∙ may.1)))
              | inr q ↦
                  rw q (v.received_at i (omega (arith, ne_of_test i (length s.received) q, longer)))
            ];
      }

  -- The slot that the consumer reads holds the next event.
  module _ (e : s.consumer ≡ has_event) where
    pub before_ct : length s.received < v.ct
    before_ct = rw e at v.may_read

    head_slot : slot (2 ^ k) s.queue.head ≡ length s.received % 2 ^ k
    head_slot = ap (slot (2 ^ k)) v.head_at ∙ slot-cursor k (length s.received) (omega arith)

    abbrev pub emptied_queue : SpscEventQueue
    emptied_queue = record s.queue {
      storage = set s.queue.storage (slot (2 ^ k) s.queue.head) none;
    }

    pub take_runs : take_event (2 ^ k) s.queue ≡ ok (v.events (length s.received), emptied_queue)
    unfolding take_event
    take_runs =
        rw
          (
            head_slot,
            take_event,
            v.live (length s.received) (omega (arith, ap emptied e))
                (omega (arith, before_ct, v.ct_le)),
          )
          (rw head_slot refl)

    pub take-Inv :
        Inv k (record s { queue = emptied_queue; consumer = took (v.events (length s.received)) })
    take-Inv =
        let h = length s.received in
        let lead = ap emptied e in
        let inside : h % 2 ^ k < length s.queue.storage =
          omega (arith, v.sized, mod-lt h {m = 2 ^ k} (two_pow_pos k)) in
        let ahead =
          MayWrite-le (length s.sent) (v.ch + 2 ^ k) v.events s.producer v.fits v.may_write in
        record {
          ch = v.ch;
          ct = v.ct;
          events = v.events;
          head_at = v.head_at;
          tail_at = v.tail_at;
          cached_head_at = v.cached_head_at;
          cached_tail_at = v.cached_tail_at;
          ch_le = v.ch_le;
          ct_ge = v.ct_ge;
          ct_le = v.ct_le;
          fits = v.fits;
          may_write = v.may_write;
          may_read = (before_ct, refl);
          sized = length-set s.queue.storage (slot (2 ^ k) s.queue.head) none ∙ v.sized;
          live = λ i a b. rw head_slot (
              get_elem?-set_ne s.queue.storage (h % 2 ^ k) (i % 2 ^ k) none
                (slots_apart (2 ^ k) h i (omega arith) (omega (arith, ahead, v.ch_le)))
              ∙ v.live i (omega (arith, lead)) b);
          free = λ i a b. elim (Bool-cases (i == h + 2 ^ k)) [
            | inl q ↦ rw head_slot (
                ap (λ x. get_elem? (set s.queue.storage (h % 2 ^ k) none) x)
                  (ap (λ x. x % 2 ^ k) (eq_of_test i (h + 2 ^ k) q) ∙ add-mod_right h (2 ^ k))
                ∙ get_elem?-set_self s.queue.storage (h % 2 ^ k) none inside)
            | inr q ↦ rw head_slot (
                get_elem?-set_ne s.queue.storage (h % 2 ^ k) (i % 2 ^ k) none (
                  slots_apart (2 ^ k) h i (omega (arith, before_ct, v.ct_le))
                    (omega (arith, ne_of_test i (h + 2 ^ k) q)))
                ∙ v.free i a (omega (arith, lead, ne_of_test i (h + 2 ^ k) q)))
          ];
          sent_at = v.sent_at;
          received_at = v.received_at;
        }

  -- The consumer learns that more has been sent.
  see_tail :
      (ct seen : ℕ)
      → seen ≡ ct % u64_size
      → s.consumer ≡ Consumer.out
      → v.ct ≤ ct
      → ct ≤ length s.sent
      → Inv k (record s { queue = record s.queue { cached_tail = seen } })
  see_tail ct seen at_ct e more le = record {
    ch = v.ch;
    ct = ct;
    events = v.events;
    head_at = v.head_at;
    tail_at = v.tail_at;
    cached_head_at = v.cached_head_at;
    cached_tail_at = at_ct;
    ch_le = v.ch_le;
    ct_ge = omega (arith, v.ct_ge);
    ct_le = le;
    fits = v.fits;
    may_write = v.may_write;
    may_read = rw e tt;
    sized = v.sized;
    live = v.live;
    free = v.free;
    sent_at = v.sent_at;
    received_at = v.received_at;
  }

  -- There is an event for it.
  find_event :
      s.consumer ≡ Consumer.out
      → length s.received < v.ct
      → Inv k (record s { consumer = has_event })
  find_event e present =
      let lead = ap emptied e in
      record {
        ch = v.ch;
        ct = v.ct;
        events = v.events;
        head_at = v.head_at;
        tail_at = v.tail_at;
        cached_head_at = v.cached_head_at;
        cached_tail_at = v.cached_tail_at;
        ch_le = v.ch_le;
        ct_ge = v.ct_ge;
        ct_le = v.ct_le;
        fits = v.fits;
        may_write = v.may_write;
        may_read = present;
        sized = v.sized;
        live = λ i a b. v.live i (omega (arith, lead)) b;
        free = λ i a b. v.free i a (omega (arith, lead));
        sent_at = v.sent_at;
        received_at = v.received_at;
      }

module _ (k : ℕ) (small : k ≤ 63) (s : System) (v : Inv k s) where
  -- The check for an event, with what it has seen of the tail.
  pub pop-Inv :
      (seen : ℕ)
      → s.consumer ≡ Consumer.out
      → CanSee s.queue.cached_tail s.queue.tail seen
      → Inv k (popping (check_pop seen s.queue) s)
  unfolding check_pop
  pop-Inv seen e (d, bound, at_d) =
      let h = length s.received in
      let cap = capacity_bound k small in
      let known =
        distance_of s.queue.tail s.queue.cached_tail v.ct (length s.sent) v.tail_at v.cached_tail_at
          v.ct_le (omega (arith, v.ct_ge, v.ch_le, v.fits)) in
      let seen_at : seen ≡ (v.ct + d) % u64_size = omega (arith, at_d, v.cached_tail_at) in
      let w =
        see_tail k small s v (v.ct + d) seen seen_at e (omega arith)
          (omega (arith, bound, known, v.ct_le)) in
      elim (Bool-cases (s.queue.head == s.queue.cached_tail)) [
        | inr f ↦
            let apart : h ≢ v.ct = λ q.
              ne_of_test s.queue.head s.queue.cached_tail f
                (v.head_at ∙ ap (λ x. x % u64_size) q ∙ sym v.cached_tail_at) in
            rw f (find_event k small s v e (omega (arith, v.ct_ge)))
        | inl f ↦ elim (Bool-cases (s.queue.head == seen)) [
          | inl g ↦ rw (f, g) w
          | inr g ↦
              let apart : h ≢ v.ct + d = λ q.
                ne_of_test s.queue.head seen g
                  (v.head_at ∙ ap (λ x. x % u64_size) q ∙ sym seen_at) in
              rw (f, g)
                (find_event k small (record s { queue = record s.queue { cached_tail = seen } }) w e
                  (omega (arith, v.ct_ge)))
        ]
      ]
