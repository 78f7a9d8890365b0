-- ===== src/Tests/Pools.antt =====
-- The pool at concrete calls: the first order, its release, and a reservation.
use leka.Base.{
  ℕ, ◌+◌, ◌*◌, ◌<◌, ◌≤◌, ◌≡◌, ◌⊎◌, refl, sym, ap, subst, inl, inr, Option, none, some, arith,
  length,
}
use leka.Base.Outcome.{Exception, ok, throws, invalid_argument}
use leka.Types.{sell, limit, sub_u64}
use leka.Order.{Order, make_order}
use leka.Memory.{update}
use leka.Pool.{
  System, Store, slots_per_page, allocate, fill_slot, create_page, map_page, make_page, find_page,
  release, reserve, add_to_free_page_list, remove_from_free_page_list, modify_page, modify_page?,
  get_page, put_pool, iota_from,
}
use leka.Pool.Invariant.{IsPool}
use leka.Pool.Release.{release_live-IsPool, release-throws}
use leka.Pool.Allocate.{Fills, allocate_cases}
use leka.Pool.Reserve.{empty_store, empty_store-IsPool, reserve-IsPool}

-- Mappings that are not aligned.
abbrev linux : System
linux = record { system_page_size = 4096; mmap = λ call. some (131072 * call + 65537) }

positive : (call a : ℕ) → linux.mmap call ≡ some a → 0 < a
positive call a e = omega (arith, ap mapped e)
  where
    mapped : Option ℕ → ℕ
    mapped none = 0
    mapped (some a) = a

abbrev order : Order
order = make_order 5 100 50 50 1 sell limit 1

allocate_example :
    Fills empty_store order (allocate linux order empty_store)
    ⊎ ((empty_store.pool.first_page_with_free_slot ≡ none)
        × (e : Exception) × (t : Store) × (allocate linux order empty_store ≡ (throws e, t))
        × IsPool t
        × (t.heap ≡ empty_store.heap)
        × (t.pool.pages ≡ empty_store.pool.pages)
        × (t.pool.live_order_count ≡ empty_store.pool.live_order_count))
allocate_example = allocate_cases linux empty_store order positive empty_store-IsPool

release-throws_example : release 131072 empty_store ≡ (throws invalid_argument, empty_store)
release-throws_example = release-throws empty_store 131072 empty_store-IsPool refl

reserve-IsPool_example :
    ((t : Store) × (reserve linux 1000 empty_store ≡ (ok tt, t))
      × IsPool t
      × (t.heap ≡ empty_store.heap)
      × (t.pool.live_order_count ≡ empty_store.pool.live_order_count)
      × (1000 ≤ length t.pool.pages * slots_per_page))
    ⊎ ((e : Exception) × (t : Store) × (reserve linux 1000 empty_store ≡ (throws e, t))
        × IsPool t
        × (t.heap ≡ empty_store.heap)
        × (t.pool.live_order_count ≡ empty_store.pool.live_order_count))
reserve-IsPool_example =
    reserve-IsPool linux positive 1000 empty_store (omega arith) empty_store-IsPool

-- The pool that owns the one order.
abbrev one_order : Store
one_order = (allocate linux order empty_store).1

one_order_runs : allocate linux order empty_store ≡ (ok 131072, one_order)
unfolding allocate create_page map_page make_page find_page add_to_free_page_list modify_page
    modify_page? get_page put_pool fill_slot remove_from_free_page_list iota_from
one_order_runs = refl

one_order-IsPool : IsPool one_order
one_order-IsPool = elim allocate_example [
  | inl (p, t, run, pool, _, _, _, _) ↦ subst IsPool (ap (λ r. r.1) (sym run)) pool
  | inr (_, e, t, run, pool, _, _, _) ↦ subst IsPool (ap (λ r. r.1) (sym run)) pool
]

one_order_lives : one_order.heap 131072 ≡ some order
unfolding allocate create_page map_page make_page find_page add_to_free_page_list modify_page
    modify_page? get_page put_pool fill_slot remove_from_free_page_list iota_from update
one_order_lives = refl

release_example :
    (t : Store) × (release 131072 one_order ≡ (ok tt, t))
    × IsPool t
    × (t.heap ≡ update one_order.heap 131072 none)
    × (t.pool.live_order_count ≡ sub_u64 one_order.pool.live_order_count 1)
release_example = release_live-IsPool one_order 131072 order one_order-IsPool one_order_lives
