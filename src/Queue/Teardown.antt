-- ===== src/Queue/Teardown.antt =====
-- The destructor of the queue.
use leka.Base.{
  ℕ, zero, suc, ◌+◌, ◌-◌, ◌*◌, ◌/◌, ◌%◌, ◌^◌, ◌<◌, ◌≤◌, ◌≡◌, ◌≢◌, refl, sym, ap, ◌∙◌, Option, none,
  some, List, arith, length, get_elem?, set, length-set, ◌==◌, dec_le, eq_of_test, test_of_ne,
  ==_iff, Bool-cases, inl, inr, ne_of_test, get_elem?-set_self, get_elem?-set_ne,
}
use native.Mathlib.Nat.{mod-lt, mod-eq_of_lt, add-mod_right, add-mul-mod_self_right, div-add-mod'}
use leka.Base.Masks.{two_pow_pos}
use leka.Base.Outcome.{ok}
use leka.Types.{u64_size}
use leka.Order.Event.{OrderEvent}
use leka.Queue.{destroy}
use leka.Queue.Cursor.{cursor_next, slot-cursor, slots_apart}
use leka.Queue.System.{Producer, Consumer, System, Reach}
use leka.Queue.Invariant.{written, emptied}
use leka.Queue.Producing.{capacity_bound}
use leka.Queue.Safety.{Reach-Inv}

-- Every slot is that of a counter of the window.
slot_of_window : (n h j : ℕ) → 0 < n → j < n → (i : ℕ) × (h ≤ i) × (i < h + n) × (i % n ≡ j)
slot_of_window n h j some_slot in_table = elim (dec_le (h % n) j) [
  | yes le ↦ (
    h + (j - h % n),
    omega arith,
    omega (arith, mod-lt h {m = n} some_slot),
    again (h + (j - h % n)) j (h / n) (omega (arith, div-add-mod' h n)) in_table,
  )
  | no gt ↦ (
    h + (j + n - h % n),
    omega arith,
    omega arith,
    again (h + (j + n - h % n)) j (suc (h / n))
        (omega (arith, div-add-mod' h n, one_more (h / n) n, mod-lt h {m = n} some_slot)) in_table,
  )
]
  where
    again : (i j q : ℕ) → i ≡ j + q * n → j < n → i % n ≡ j
    again i j q e lt = rw e (add-mul-mod_self_right j q n ∙ mod-eq_of_lt lt)

    one_more : (q n : ℕ) → suc q * n ≡ q * n + n
    one_more q n = grind arith

-- `n` events are left, of which the first is number `h`.
module _ (k : ℕ) (small : k ≤ 63) (events : ℕ → OrderEvent) where
  destroy_all :
      (n fuel h : ℕ) (storage : List (Option OrderEvent))
      → n < fuel
      → n ≤ 2 ^ k
      → length storage ≡ 2 ^ k
      → ((i : ℕ) → h ≤ i → i < h + n → get_elem? storage (i % 2 ^ k) ≡ some (some (events i)))
      → ((i : ℕ) → h + n ≤ i → i < h + 2 ^ k → get_elem? storage (i % 2 ^ k) ≡ some none)
      → (raw : List (Option OrderEvent)) × (destroy fuel
            (2 ^ k)
            (h % u64_size)
            ((h + n) % u64_size)
            storage
          ≡ ok raw)
        × (length raw ≡ 2 ^ k)
        × ((j : ℕ) → j < 2 ^ k → get_elem? raw j ≡ some none)
  unfolding destroy
  destroy_all n zero h storage lt le sized live free = absurd (omega arith)
  destroy_all zero (suc fuel) h storage lt le sized live free = (
    storage,
    rw (destroy, (==_iff (h % u64_size) ((h + 0) % u64_size)).1 (omega arith)) refl,
    sized,
    λ j inside.
        let (i, from, to, e) = slot_of_window (2 ^ k) h j (two_pow_pos k) inside in
        ap (get_elem? storage) (sym e) ∙ free i (omega arith) to,
  )
  destroy_all (suc n) (suc fuel) h storage lt le sized live free =
      let cap = capacity_bound k small in
      let inside : h % 2 ^ k < length storage =
        omega (arith, mod-lt h {m = 2 ^ k} (two_pow_pos k)) in
      let rest = set storage (h % 2 ^ k) none in
      let (raw, runs, long, empty) =
        destroy_all n fuel (h + 1) rest (omega arith) (omega arith)
          (length-set storage (h % 2 ^ k) none ∙ sized)
          (λ i a b.
            get_elem?-set_ne storage (h % 2 ^ k) (i % 2 ^ k) none
              (slots_apart (2 ^ k) h i (omega arith) (omega arith))
            ∙ live i (omega arith) (omega arith))
          (λ i a b. elim (Bool-cases (i == h + 2 ^ k)) [
            | inl q ↦
                ap (λ x. get_elem? rest x)
                  (ap (λ x. x % 2 ^ k) (eq_of_test i (h + 2 ^ k) q) ∙ add-mod_right h (2 ^ k))
                ∙ get_elem?-set_self storage (h % 2 ^ k) none inside
            | inr q ↦
                get_elem?-set_ne storage (h % 2 ^ k) (i % 2 ^ k) none (
                  slots_apart (2 ^ k) h i (omega arith) (omega (arith, ne_of_test i (h + 2 ^ k) q)))
                ∙ free i (omega arith) (omega (arith, ne_of_test i (h + 2 ^ k) q))
          ]) in
      let differ : h % u64_size ≢ (h + suc n) % u64_size = omega arith in
      (
        raw,
        rw
            (
              destroy,
              test_of_ne (h % u64_size) ((h + suc n) % u64_size) differ,
              slot-cursor k h (omega arith),
              live h (omega arith) (omega arith),
              cursor_next h,
            )
            (rw (slot-cursor k h (omega arith)) (
              ap (λ x. destroy fuel (2 ^ k) ((h + 1) % u64_size) (x % u64_size) rest)
                {x = h + suc n} {y = h + 1 + n} (omega arith)
              ∙ runs)),
        long,
        empty,
      )

-- In a queue of 2^k slots, k at most 63, in a state that the two threads can reach and both
-- between calls, the loop of the destructor ends after at most 2^k rounds, each of which destroys
-- an event, and leaves every slot raw.
pub destroy-runs :
    (k : ℕ)
    → k ≤ 63
    → (s : System) → Reach k s
    → s.producer ≡ Producer.out
    → s.consumer ≡ Consumer.out
    → (raw : List (Option OrderEvent)) × (destroy
          (suc (2 ^ k))
          (2 ^ k)
          s.queue.head
          s.queue.tail
          s.queue.storage
        ≡ ok raw)
      × (length raw ≡ 2 ^ k)
      × ((j : ℕ) → j < 2 ^ k → get_elem? raw j ≡ some none)
destroy-runs k small s r p c =
    let v = Reach-Inv k small s r in
    let h = length s.received in
    let n = length s.sent - h in
    let together : h + n ≡ length s.sent = omega (arith, v.ct_ge, v.ct_le) in
    let (raw, runs, long, empty) =
      destroy_all k small v.events n (suc (2 ^ k)) h s.queue.storage
        (omega (arith, v.fits, v.ch_le)) (omega (arith, v.fits, v.ch_le)) v.sized
        (λ i a b. v.live i (omega (arith, ap emptied c)) (omega (arith, ap written p)))
        (λ i a b. v.free i (omega (arith, ap written p)) (omega (arith, ap emptied c))) in
    (
      raw,
      ap (λ x. destroy (suc (2 ^ k)) (2 ^ k) x s.queue.tail s.queue.storage) v.head_at
          ∙ ap (λ x. destroy (suc (2 ^ k)) (2 ^ k) (h % u64_size) x s.queue.storage)
              (v.tail_at ∙ ap (λ x. x % u64_size) (sym together))
          ∙ runs,
      long,
      empty,
    )
