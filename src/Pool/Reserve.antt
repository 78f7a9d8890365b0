-- ===== src/Pool/Reserve.antt =====
-- `OrderPool::reserve`, and the pool that is new.
use leka.Base.{
  ℕ, zero, suc, ◌+◌, ◌-◌, ◌*◌, ◌/◌, ◌<◌, ◌≤◌, ◌≡◌, ◌⊎◌, ◌^◌, refl, ◌∙◌, inl, inr, none, some, [],
  arith, length,
}
use mathlib.Core.Option.{none-ne-some}
use leka.Base.Outcome.{Exception, ok, throws}
use leka.Types.{add_u64, sub_u64}
use leka.Pool.{slots_per_page, System, Store, empty_pool, find_page, create_pages, reserve}
use leka.Pool.FreePages.{empty-IsListed}
use leka.Pool.Invariant.{IsPool}
use leka.Pool.Create.{create_page-Creates}

abbrev pub empty_store : Store
empty_store = record { pool = empty_pool; heap = λ p. none }

pub empty_store-IsPool : IsPool empty_store
unfolding find_page
empty_store-IsPool = record {
  laid = record {
    order = [];
    distinct = tt;
    listed = empty-IsListed;
    kept = λ k page e. absurd (none-ne-some page e);
    known = λ base k e. absurd (none-ne-some k e);
    owned = λ p e. absurd (ground arith);
  };
  filled = λ k page e. absurd (none-ne-some page e);
}

module _ (system : System) (maps : (call a : ℕ) → system.mmap call ≡ some a → 0 < a) where
  create_pages-IsPool :
      (n : ℕ) (s : Store)
      → IsPool s
      → ((t : Store) × (create_pages system n s ≡ (ok tt, t))
          × IsPool t
          × (t.heap ≡ s.heap)
          × (t.pool.live_order_count ≡ s.pool.live_order_count)
          × (length t.pool.pages ≡ length s.pool.pages + n))
        ⊎ ((e : Exception) × (t : Store) × (create_pages system n s ≡ (throws e, t))
            × IsPool t
            × (t.heap ≡ s.heap)
            × (t.pool.live_order_count ≡ s.pool.live_order_count))
  unfolding create_pages
  create_pages-IsPool zero s v = inl (s, refl, v, refl, refl, omega arith)
  create_pages-IsPool (suc n) s v = elim (create_page-Creates system maps s v) [
    | inr (e, t, run, w, heap, _, count) ↦ inr (e, t, rw run refl, w, heap, count)
    | inl (i, m, run, w, heap, _, count, more) ↦ elim (create_pages-IsPool n m w) [
      | inr (e, t, run', u, heap', count') ↦
          inr (e, t, rw run run', u, heap' ∙ heap, count' ∙ count)
      | inl (t, run', u, heap', count', more') ↦
          inl (t, rw run run', u, heap' ∙ heap, count' ∙ count, omega (arith, more, more'))
    ]
  ]

  -- If the system maps no page at address 0 and the store is a pool in order, a reservation for
  -- at most 2^63 orders leaves a pool in order with the memory and the count of live orders that
  -- it had; where it does not throw, the pages have at least as many slots as orders asked for.
  pub reserve-IsPool :
      (n : ℕ) (s : Store)
      → n ≤ 2 ^ 63
      → IsPool s
      → ((t : Store) × (reserve system n s ≡ (ok tt, t))
          × IsPool t
          × (t.heap ≡ s.heap)
          × (t.pool.live_order_count ≡ s.pool.live_order_count)
          × (n ≤ length t.pool.pages * slots_per_page))
        ⊎ ((e : Exception) × (t : Store) × (reserve system n s ≡ (throws e, t))
            × IsPool t
            × (t.heap ≡ s.heap)
            × (t.pool.live_order_count ≡ s.pool.live_order_count))
  unfolding reserve
  reserve-IsPool n s h v =
      elim (create_pages-IsPool
        (sub_u64 (add_u64 n slots_per_page) 1 / slots_per_page - length s.pool.pages) s v) [
          | inr failed ↦ inr failed
          | inl (t, run, w, heap, count, more) ↦ inl (t, run, w, heap, count, omega (arith, more))
        ]
