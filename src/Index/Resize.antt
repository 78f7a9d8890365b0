-- ===== src/Index/Resize.antt =====
-- `growIfNeeded` and `reserve` of order_index.cpp: larger tables with the same entries.
use leka.Base.{
  ℕ, zero, suc, ◌+◌, ◌*◌, ◌<◌, ◌≤◌, ◌≡◌, refl, sym, ap, ◌∙◌, subst, inl, inr, false, List, arith,
  ◌^◌, ◌==◌, ltb, leb, length, replicate, length-replicate, Bool-cases, test_of_ne,
}
use native.Mathlib.Nat.{pow-suc}
use leka.Base.Outcome.{ok}
use leka.Types.{OrderId}
use leka.Order.{Ptr, null}
use leka.Index.{Slot, Index, empty_slot, rehash, grow, grow_if_needed, double_capacity, reserve}
use leka.Index.Slots.{taken, taken-replicate}
use leka.Index.Table.{IsPlaced, Represents, no_slots, with_slots, filled}
use leka.Index.Growth.{keys_once, entry-eq}
use leka.Index.Rehash.{IsPlaced-congr, replicate-IsPlaced, rehash-Moved}

-- A table with room for one entry more.
pub record IsReady (hash : ℕ → ℕ) (k : ℕ) (t : Index) (m : OrderId → Ptr) : Type 0 where
  pub placed : IsPlaced hash k t.slots m
  pub counted : t.count ≡ taken t.slots
  pub room : (t.count + 1) * 2 ≤ length t.slots

module _ (hash : ℕ → ℕ) where
  -- All entries of a table, moved to an empty one.
  pub move_all :
      (k k' : ℕ) (slots : List Slot) (m : OrderId → Ptr)
      → IsPlaced hash k slots m
      → taken slots < 2 ^ k'
      → (r : List Slot) × (rehash hash slots (replicate (2 ^ k') empty_slot) ≡ ok r)
        × IsPlaced hash k' r m
        × (taken r ≡ taken slots)
        × (length r ≡ 2 ^ k')
  move_all k k' slots m v fits =
      let (r, run, moved) =
        rehash-Moved hash k' slots (replicate (2 ^ k') empty_slot) (λ _. null)
          (replicate-IsPlaced hash k') (keys_once slots v.unique) (λ q h. refl)
          (omega (arith, taken-replicate (2 ^ k'), length-replicate (2 ^ k') empty_slot)) in
      (
        r,
        run,
        IsPlaced-congr hash k' r _ m moved.placed (λ q. entry-eq hash slots m v.laid q),
        omega (arith, moved.sum, taken-replicate (2 ^ k')),
        moved.same ∙ length-replicate (2 ^ k') empty_slot,
      )

  grow-IsReady :
      (k : ℕ) (t : Index) (m : OrderId → Ptr)
      → IsPlaced hash k t.slots m
      → t.count ≡ taken t.slots
      → t.count * 2 ≤ length t.slots
      → (t' : Index) × (grow hash t ≡ ok t')
        × (k' : ℕ) × IsReady hash k' t' m
        × (t'.count ≡ t.count)
  unfolding grow
  grow-IsReady k t m v c half = elim (Bool-cases (leb ((t.count + 1) * 2) (length t.slots))) [
    | inl e ↦ (t, rw e refl, k, record { placed = v; counted = c; room = ground arith }, refl)
    | inr e ↦
        let size : length t.slots * 2 ≡ 2 ^ suc k = omega (arith, v.sized, pow-suc 2 k) in
        let pos = filled hash k t.slots m v in
        let (r, run, placed, same, len) = move_all k (suc k) t.slots m v (omega arith) in
        (
          record t { slots = r },
          rw (e, size, run) refl,
          suc k,
          record { placed = placed; counted = c ∙ sym same; room = omega arith },
          refl,
        )
  ]

  pub grow_if_needed-IsReady :
      (t : Index) (m : OrderId → Ptr)
      → Represents hash t m
      → (t' : Index) × (grow_if_needed hash t ≡ ok t')
        × (k' : ℕ) × IsReady hash k' t' m
        × (t'.count ≡ t.count)
  unfolding grow_if_needed
  grow_if_needed-IsReady t m (no_slots e c none_there) = (
    record t { slots = replicate 16 empty_slot },
    rw e refl,
    4,
    record {
      placed =
          IsPlaced-congr hash 4 (replicate 16 empty_slot) (λ _. null) m (replicate-IsPlaced hash 4)
            (λ q. sym (none_there q));
      counted = omega (arith, taken-replicate 16);
      room = omega arith;
    },
    refl,
  )
  grow_if_needed-IsReady t m (with_slots k v c half) =
      rw (test_of_ne (length t.slots) 0 (omega (arith, filled hash k t.slots m v)))
        (grow-IsReady k t m v c half)

  -- The doubling stops at a power of two that is large enough.
  doubled :
      (fuel n k : ℕ)
      → n * 2 ≤ 2 ^ (k + fuel)
      → (j : ℕ) × (double_capacity hash (suc fuel) n (2 ^ k) ≡ ok (2 ^ j))
        × (k ≤ j)
        × (n * 2 ≤ 2 ^ j)
  unfolding double_capacity
  doubled zero n k h =
      let e : 2 ^ (k + 0) ≡ 2 ^ k = ap (λ x. 2 ^ x) {x = k + 0} {y = k} (omega arith) in
      (k, ground (arith, e), omega arith, omega (arith, e))
  doubled (suc fuel) n k h = elim (Bool-cases (ltb (2 ^ k) (n * 2))) [
    | inr e ↦ (k, rw e refl, omega arith, ground arith)
    | inl e ↦
        let (j, run, le, fits) =
          doubled fuel n (suc k)
            (subst (λ x. n * 2 ≤ 2 ^ x) {x = k + suc fuel} {y = suc k + fuel} (omega arith) h) in
        (j, rw (e, ← pow-suc 2 k) run, omega arith, fits)
  ]

  pow_bound : (k : ℕ) → 2 ^ 63 ≤ 2 ^ (k + 63)
  pow_bound zero = omega (arith, ap (λ x. 2 ^ x) {x = 0 + 63} {y = 63} (omega arith))
  pow_bound (suc k) = omega (
    arith,
    pow_bound k,
    pow-suc 2 (k + 63),
    ap (λ x. 2 ^ x) {x = suc k + 63} {y = suc (k + 63)} (omega arith),
  )

  -- Reserving room for at most 2^53 orders succeeds on a table that represents a map: the table
  -- represents the same map, counts the same, and has at least twice as many slots as orders
  -- asked for.
  pub reserve-Represents :
      (n : ℕ) (t : Index) (m : OrderId → Ptr)
      → n ≤ 2 ^ 53
      → Represents hash t m
      → (t' : Index) × (reserve hash n t ≡ ok t')
        × Represents hash t' m
        × (n * 2 ≤ length t'.slots)
        × (t'.count ≡ t.count)
  unfolding reserve rehash
  reserve-Represents n t m h (no_slots e c none_there) =
      let (j, run, le, fits) = doubled 63 n 4 (omega arith) in
      (
        record t { slots = replicate (2 ^ j) empty_slot },
        rw (e, run) refl,
        with_slots j
            (IsPlaced-congr hash j (replicate (2 ^ j) empty_slot) (λ _. null) m
              (replicate-IsPlaced hash j) (λ q. sym (none_there q)))
            (omega (arith, taken-replicate (2 ^ j))) (omega (arith, c)),
        omega (arith, length-replicate (2 ^ j) empty_slot),
        refl,
      )
  reserve-Represents n t m h (with_slots k v c half) =
      let (j, run, le, fits) = doubled 63 n k (omega (arith, pow_bound k)) in
      let pos : (length t.slots == 0) ≡ false =
        test_of_ne (length t.slots) 0 (omega (arith, filled hash k t.slots m v)) in
      elim (Bool-cases (leb (2 ^ j) (length t.slots))) [
        | inl e ↦ (
          t,
          rw (pos, v.sized, run) (rw (← v.sized, e) refl),
          with_slots k v c half,
          ground arith,
          refl,
        )
        | inr e ↦
            let (r, moved, placed, same, len) = move_all k j t.slots m v (ground arith) in
            (
              record t { slots = r },
              rw pos (rw v.sized (rw run (rw (← v.sized, e, moved) refl))),
              with_slots j placed (c ∙ sym same) (ground arith),
              omega (arith, len),
              refl,
            )
      ]
