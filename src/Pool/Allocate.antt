-- ===== src/Pool/Allocate.antt =====
-- `OrderPool::allocate`.
use leka.Base.{
  ℕ, ◌<◌, ◌≡◌, ◌≢◌, ◌⊎◌, refl, sym, ap, ◌∙◌, subst, inl, inr, Bool, true, false, not, Option, none,
  some, List, ◌∷◌, arith, ◌==◌, get_elem?, get_or, set, Bool-cases, Option-cases, test_of_ne,
  ==_iff, has, IsDistinct, get_elem?-set_self,
}
use leka.Base.Outcome.{Outcome, Exception, ok, throws}
use leka.Base.State.{Cmd, and_then, pure, when}
use leka.Types.{add_u64, sub_u64}
use leka.Order.{Ptr, Order, null}
use leka.Memory.{Heap, update}
use leka.Pool.{
  slots_per_page, System, Page, Store, get_page, put_pool, allocate, fill_slot,
  remove_from_free_page_list, create_page,
}
use leka.Pool.Slots.{first-free, take_slot-IsSlots}
use leka.Pool.FreePages.{
  modify_page-ok, get_elem?-lt, IsListed, IsListed-set, IsListed-head, IsRelinked, IsRelinked-set,
  set-IsRelinked,
}
use leka.Pool.FreePages.Removing.{remove_from_free_page_list-Removes}
use leka.Pool.Invariant.{
  lives, address, IsKept, IsPool, IsLaidOut-update, IsMarked-update, update-spared, update-live,
  update-owned,
}
use leka.Pool.Release.{get_elem?-get_or}
use leka.Pool.Create.{create_page-Creates}

-- A call that has put an order in a slot that held none.
abbrev pub Fills : Store → Order → Outcome Ptr × Store → Type 0
Fills s o result =
    (p : Ptr) × (t : Store) × (result ≡ (ok p, t))
    × IsPool t
    × (p ≢ null)
    × (s.heap p ≡ none)
    × (t.heap ≡ update s.heap p (some o))
    × (t.pool.live_order_count ≡ add_u64 s.pool.live_order_count 1)

-- The slot at the head of the free list of page `i`, which is at the head of the list of pages.
module _ (s : Store) (v : IsPool s) (i : ℕ) (page : Page) (is : List ℕ) (o : Order)
    (at : get_elem? s.pool.pages i ≡ some page) (first : s.pool.first_page_with_free_slot ≡ some i)
    (previous : page.previous_free_page ≡ none) (order : v.order ≡ i ∷ is)
    (rest : IsListed s.pool.pages (some i) page.next_free_page is) where
  abbrev taken_index : ℕ
  taken_index = page.first_free

  abbrev taken : Page
  taken = record page {
    first_free = get_or page.next_free taken_index 0;
    free_count = sub_u64 page.free_count 1;
    is_occupied = set page.is_occupied taken_index true;
  }

  abbrev filled_heap : Heap
  filled_heap = update s.heap (address page taken_index) (some o)

  abbrev begun : Store
  begun = record { pool = record s.pool { pages = set s.pool.pages i taken }; heap = filled_heap }

  w : IsKept s.heap v.order s.pool.page_index i page
  w = v.kept i page at

  order_once : IsDistinct (i ∷ is)
  order_once = subst IsDistinct order v.distinct

  on : page.on_free_page_list ≡ true
  on = w.marked ∙ ap (has i) order ∙ rw ((==_iff i i).1 refl) refl

  some_free : page.free_count ≢ 0
  some_free e = ground (arith, v.filled i page at, on, (==_iff page.free_count 0).1 e)

  free_slot : (taken_index < slots_per_page) × (get_or page.is_occupied taken_index true ≡ false)
  free_slot =
      first-free page.next_free page.is_occupied page.first_free page.free_count page.storage
        w.sound some_free

  vacant : s.heap (address page taken_index) ≡ none
  vacant = elim (Option-cases (s.heap (address page taken_index))) [
    | inl e ↦ e
    | inr (x, e) ↦ absurd (ground (ap lives e, w.live taken_index free_slot.0, free_slot.1, arith))
  ]

  begun_at : get_elem? begun.pool.pages i ≡ some taken
  begun_at = get_elem?-set_self s.pool.pages i taken (get_elem?-lt s.pool.pages i at)

  module _ (s' : Store) (order' : List ℕ) (page' : Page)
      (r : IsRelinked s.pool.pages s'.pool.pages i page') (heap : s'.heap ≡ filled_heap)
      (index : s'.pool.page_index ≡ s.pool.page_index) (distinct : IsDistinct order')
      (listed : IsListed s'.pool.pages none s'.pool.first_page_with_free_slot order')
      (others : (k : ℕ) → k ≢ i → has k order' ≡ has k v.order) (before behind : Option ℕ)
      (mark : Bool) (member : has i order' ≡ mark) (marked : mark ≡ not (taken.free_count == 0))
      (same : page' ≡ record taken {
        previous_free_page = before;
        next_free_page = behind;
        on_free_page_list = mark;
      }) where
    allocate-IsPool : IsPool s'
    allocate-IsPool =
        let take =
          take_slot-IsSlots page.next_free page.is_occupied page.first_free page.free_count
            page.storage w.sound some_free in
        record {
          laid =
              IsLaidOut-update s s' v.laid i page page' at r (ap (λ x. x.storage) same) index order'
                distinct listed others
                (rw (same, heap)
                  (record {
                    sound = take;
                    marked = sym member;
                    indexed = w.indexed;
                    live = update-live s.heap page taken_index (some o) w.sound free_slot.0 w.live;
                  }))
                (λ p far.
                  rw heap
                    (update-spared s.heap page taken_index (some o) w.sound free_slot.0 p far))
                (λ p l.
                  update-owned s.heap page taken_index (some o) w.sound free_slot.0 p
                    (rw heap at l));
          filled =
              IsMarked-update s.pool.pages s'.pool.pages i page' r (rw same marked)
                (λ k p ne e. v.filled k p e);
        }

  fill_slot_run :
      (pages : List Page) (head : Option ℕ)
      → when (taken.free_count == 0) (remove_from_free_page_list i) begun ≡ (
        ok tt,
        record begun {
          pool = record begun.pool { pages = pages; first_page_with_free_slot = head };
        },
      )
      → fill_slot o i s ≡ (
        ok (address page taken_index),
        record {
          pool = record s.pool {
            pages = pages;
            first_page_with_free_slot = head;
            live_order_count = add_u64 s.pool.live_order_count 1;
          };
          heap = filled_heap;
        },
      )
  unfolding fill_slot get_page put_pool
  fill_slot_run pages head run =
      rw
        (
          at,
          get_elem?-get_or page.next_free taken_index 0
              (omega (arith, free_slot.0, w.sound.linked)),
          modify_page-ok i
              (λ p. record p {
                first_free = get_or page.next_free taken_index 0;
                free_count = sub_u64 p.free_count 1;
                is_occupied = set p.is_occupied taken_index true;
              })
              (record s { heap = filled_heap }) at,
          begun_at,
          run,
        )
        refl

  not_null : address page taken_index ≢ null
  not_null e = absurd (omega (arith, w.sound.somewhere))

  -- The page keeps a free slot, or it leaves the list.
  fill_slot_kept : (taken.free_count == 0) ≡ false → Fills s o (fill_slot o i s)
  fill_slot_kept more = (
    address page taken_index,
    _,
    fill_slot_run begun.pool.pages s.pool.first_page_with_free_slot (rw more refl),
    allocate-IsPool _ v.order taken (set-IsRelinked s.pool.pages i page taken at) refl refl
        v.distinct
        (IsListed-set s.pool.pages i page taken none s.pool.first_page_with_free_slot v.order at
          refl refl v.listed)
        (λ k ne. refl) page.previous_free_page page.next_free_page true (sym w.marked ∙ on)
        (rw more refl) (ap (λ b. record taken { on_free_page_list = b }) on),
    not_null,
    vacant,
    refl,
    refl,
  )

  fill_slot_last : (taken.free_count == 0) ≡ true → Fills s o (fill_slot o i s)
  fill_slot_last last =
      let (pages', run, r, l) =
        remove_from_free_page_list-Removes begun i taken is begun_at on previous order_once.0
          order_once.1
          (IsListed-set s.pool.pages i page taken (some i) page.next_free_page is at refl refl
            rest) in
      (
        address page taken_index,
        _,
        fill_slot_run pages' page.next_free_page (rw last run),
        allocate-IsPool _ is
            (record taken {
              previous_free_page = none;
              next_free_page = none;
              on_free_page_list = false;
            })
            (IsRelinked-set s.pool.pages pages' i taken _ r) refl refl order_once.1 l
            (λ k ne. sym (ap (has k) order ∙ rw (test_of_ne k i ne) refl)) none none false
            order_once.0 (rw last refl) refl,
        not_null,
        vacant,
        refl,
        refl,
      )

  pub fill_slot-Fills : Fills s o (fill_slot o i s)
  fill_slot-Fills = elim (Bool-cases (taken.free_count == 0)) [
    | inl q ↦ fill_slot_last q
    | inr q ↦ fill_slot_kept q
  ]

fill_first :
    (s : Store) (i : ℕ) (o : Order)
    → IsPool s
    → s.pool.first_page_with_free_slot ≡ some i
    → Fills s o (fill_slot o i s)
fill_first s i o v first =
    let (page, is, order, at, previous, rest) =
      IsListed-head s.pool.pages none s.pool.first_page_with_free_slot v.order i v.listed first in
    fill_slot-Fills s v i page is o at first previous order rest

abbrev page_for : System → Option ℕ → Cmd Store ℕ
page_for system none = create_page system
page_for system (some i) = pure i

-- The choice of the page, and what follows.
allocate_lem :
    (system : System) (s : Store) (o : Order) (first : Option ℕ) {chosen : Outcome ℕ × Store}
    → s.pool.first_page_with_free_slot ≡ first
    → page_for system first s ≡ chosen
    → allocate system o s ≡ and_then chosen (λ i. fill_slot o i)
unfolding allocate
allocate_lem system s o first e run =
    ap (λ x. and_then (page_for system x s) (λ i. fill_slot o i)) e
    ∙ ap (λ r. and_then r (λ i. fill_slot o i)) run

-- If the system maps no page at address 0 and the store is a pool in order, an allocation either
-- answers a pointer other than null at which no order lived, the store being a pool in order that
-- has the new order there, one more live order, counted modulo 2^64, and no other change of
-- memory, or throws, which it does only if no page had a free slot, and leaves a pool in order
-- with the pages, the memory and the count that it had.
pub allocate_cases :
    (system : System) (s : Store) (o : Order)
    → ((call a : ℕ) → system.mmap call ≡ some a → 0 < a)
    → IsPool s
    → Fills s o (allocate system o s)
      ⊎ ((s.pool.first_page_with_free_slot ≡ none)
          × (e : Exception) × (t : Store) × (allocate system o s ≡ (throws e, t))
          × IsPool t
          × (t.heap ≡ s.heap)
          × (t.pool.pages ≡ s.pool.pages)
          × (t.pool.live_order_count ≡ s.pool.live_order_count))
unfolding allocate
allocate_cases system s o maps v = elim (Option-cases s.pool.first_page_with_free_slot) [
  | inr (i, first) ↦
      let (p, t, run, pool, ne, vacant, filled, more) = fill_first s i o v first in
      inl (p, t, allocate_lem system s o (some i) first refl ∙ run, pool, ne, vacant, filled, more)
  | inl none_free ↦ elim (create_page-Creates system maps s v) [
    | inr (e, t, run, pool, heap, pages, count) ↦
        inr (none_free, e, t, allocate_lem system s o none none_free run, pool, heap, pages, count)
    | inl (i, m, made, u, heap, first, count, _) ↦
        let (p, t, run, pool, ne, vacant, filled, more) = fill_first m i o u first in
        inl (
          p,
          t,
          allocate_lem system s o none none_free made ∙ run,
          pool,
          ne,
          sym (ap (λ h. h p) heap) ∙ vacant,
          filled ∙ ap (λ h. update h p (some o)) heap,
          more ∙ ap (λ n. add_u64 n 1) count,
        )
  ]
]
