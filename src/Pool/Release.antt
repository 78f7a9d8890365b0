-- ===== src/Pool/Release.antt =====
-- `OrderPool::release`.
use leka.Base.{
  ℕ, zero, suc, ◌-◌, ◌*◌, ◌/◌, ◌%◌, ◌<◌, ◌≡◌, ◌≢◌, refl, sym, ap, ◌∙◌, subst, inl, inr, true, false,
  not, Option, none, some, List, [], ◌∷◌, arith, ◌==◌, length, get_elem?, get_or, set, Bool-cases,
  Option-cases, eq_of_test, test_of_ne, ==_iff, has, IsDistinct, leb, get_elem?-set_self,
}
use leka.Base.Outcome.{ok, throws, invalid_argument}
use leka.Base.State.{when}
use leka.Types.{add_u64, sub_u64}
use leka.Order.{Ptr, Order, null}
use leka.Memory.{Heap, update}
use leka.Pool.{
  page_size, order_size, slots_per_page, Page, Store, find_page, get_page, put_pool,
  add_to_free_page_list, release,
}
use leka.Pool.Slots.{give_slot-IsSlots}
use leka.Pool.FreePages.{
  modify_page-ok, get_elem?-lt, IsListed, IsListed-set, IsRelinked, IsRelinked-set,
  IsRelinked-again, set-IsRelinked,
}
use leka.Pool.FreePages.Adding.{add_to_free_page_list-Adds}
use leka.Pool.Invariant.{
  lives, address, address-base, IsKept, IsMarked, IsPool, IsLaidOut-update, IsMarked-update,
  update-spared, update-live, update-owned,
}

pub get_elem?-get_or :
    {A : Type 0} (xs : List A) (j : ℕ) (d : A)
    → j < length xs
    → get_elem? xs j ≡ some (get_or xs j d)
get_elem?-get_or [] j d h = absurd (omega arith)
get_elem?-get_or (x ∷ xs) zero d h = refl
get_elem?-get_or (x ∷ xs) (suc j) d h = get_elem?-get_or xs j d (omega arith)

module _ (s : Store) (v : IsPool s) (i : ℕ) (page : Page) (j : ℕ)
    (at : get_elem? s.pool.pages i ≡ some page) (lt : j < slots_per_page)
    (taken : get_or page.is_occupied j true ≡ true) where
  -- The page with the slot on its free list, before and behind the count.
  abbrev given : Page
  given = record page {
    is_occupied = set page.is_occupied j false;
    next_free = set page.next_free j page.first_free;
    first_free = j;
  }

  abbrev counted : Page → Page
  counted p = record p { free_count = add_u64 p.free_count 1 }

  abbrev freed : Heap
  freed = update s.heap (address page j) none

  abbrev begun : Store
  begun = record { pool = record s.pool { pages = set s.pool.pages i given }; heap = freed }

  w : IsKept s.heap v.order s.pool.page_index i page
  w = v.kept i page at

  -- The new state, by what has become of the list of pages.
  module _ (s' : Store) (order : List ℕ) (page' : Page)
      (r : IsRelinked s.pool.pages s'.pool.pages i page') (heap : s'.heap ≡ freed)
      (index : s'.pool.page_index ≡ s.pool.page_index) (distinct : IsDistinct order)
      (listed : IsListed s'.pool.pages none s'.pool.first_page_with_free_slot order)
      (others : (k : ℕ) → k ≢ i → has k order ≡ has k v.order) (member : has i order ≡ true)
      (previous following : Option ℕ)
      (same : page'
        ≡ counted (record given {
          previous_free_page = previous;
          next_free_page = following;
          on_free_page_list = true;
        })) where
    release-IsPool : IsPool s'
    release-IsPool =
        let give =
          give_slot-IsSlots page.next_free page.is_occupied page.first_free page.free_count
            page.storage w.sound j lt taken in
        let mark : IsMarked page' = rw same (ground (arith, give.1)) in
        record {
          laid =
              IsLaidOut-update s s' v.laid i page page' at r (ap (λ x. x.storage) same) index order
                distinct listed others
                (rw (same, heap)
                  (record {
                    sound = give.0;
                    marked = sym member;
                    indexed = w.indexed;
                    live = update-live s.heap page j none w.sound lt w.live;
                  }))
                (λ p far. rw heap (update-spared s.heap page j none w.sound lt p far))
                (λ p l. update-owned s.heap page j none w.sound lt p (rw heap at l));
          filled =
              IsMarked-update s.pool.pages s'.pool.pages i page' r mark
                (λ k p ne e. v.filled k p e);
        }

  -- The new state, whose map of live orders has lost one.
  abbrev pub Releases : Type 0
  Releases =
      (s' : Store) × (release (address page j) s ≡ (ok tt, s'))
      × IsPool s'
      × (s'.heap ≡ update s.heap (address page j) none)
      × (s'.pool.live_order_count ≡ sub_u64 s.pool.live_order_count 1)

  -- What the checks of the pointer come to.
  found : find_page (address page j / page_size * page_size) s.pool.page_index ≡ some i
  found = ap (λ b. find_page b s.pool.page_index) ((address-base page j w.sound lt).0) ∙ w.indexed

  begun_at : get_elem? begun.pool.pages i ≡ some given
  begun_at = get_elem?-set_self s.pool.pages i given (get_elem?-lt s.pool.pages i at)

  release_run :
      (pages : List Page) (first : Option ℕ) (p : Page)
      → when (given.free_count == 0) (add_to_free_page_list i) begun ≡ (
        ok tt,
        record begun {
          pool = record begun.pool { pages = pages; first_page_with_free_slot = first };
        },
      )
      → get_elem? pages i ≡ some p
      → release (address page j) s ≡ (
        ok tt,
        record {
          pool = record s.pool {
            pages = set pages i (counted p);
            first_page_with_free_slot = first;
            live_order_count = sub_u64 s.pool.live_order_count 1;
          };
          heap = freed;
        },
      )
  unfolding release get_page put_pool
  release_run pages first p run at_p =
      let based = address-base page j w.sound lt in
      let offset : address page j - address page j / page_size * page_size ≡ j * order_size =
        ap (λ b. address page j - b) based.0 ∙ based.1 in
      let quotient : j * order_size / order_size ≡ j = omega arith in
      let flag : get_elem? page.is_occupied j ≡ some true =
        get_elem?-get_or page.is_occupied j true (omega (arith, w.sound.flagged)) ∙ ap some taken in
      rw
        (
          test_of_ne (address page j) null (omega (arith, w.sound.somewhere)),
          found,
          at,
          offset,
          (==_iff (j * order_size % order_size) 0).1 (omega arith),
          quotient,
          leb_false slots_per_page j lt,
          flag,
          modify_page-ok i
              (λ page. record page {
                is_occupied = set page.is_occupied j false;
                next_free = set page.next_free j page.first_free;
                first_free = j;
              })
              (record s { heap = freed }) at,
          begun_at,
          run,
          modify_page-ok i counted
              (record begun {
                pool = record begun.pool { pages = pages; first_page_with_free_slot = first };
              })
              at_p,
        )
        refl
    where
      leb_false : (a b : ℕ) → b < a → leb a b ≡ false
      leb_false a b h = ground arith

  -- The page is on the list already, or it comes to its front.
  release_kept : (given.free_count == 0) ≡ false → Releases
  release_kept some_free =
      let on : page.on_free_page_list ≡ true = v.filled i page at ∙ ap not some_free in
      let same : counted given ≡ counted (record given { on_free_page_list = true }) =
        ap (λ b. counted (record given { on_free_page_list = b })) on in
      let run =
        release_run begun.pool.pages s.pool.first_page_with_free_slot given (rw some_free refl)
          begun_at in
      let listed =
        IsListed-set begun.pool.pages i given (counted given) none s.pool.first_page_with_free_slot
          v.order begun_at refl refl
          (IsListed-set s.pool.pages i page given none s.pool.first_page_with_free_slot v.order at
            refl refl v.listed) in
      (
        _,
        run,
        release-IsPool _ v.order (counted given)
            (IsRelinked-again s.pool.pages begun.pool.pages i given (counted given)
              (set-IsRelinked s.pool.pages i page given at))
            refl refl v.distinct listed (λ k ne. refl) (sym w.marked ∙ on) page.previous_free_page
            page.next_free_page same,
        refl,
        refl,
      )

  release_listed : (given.free_count == 0) ≡ true → Releases
  release_listed none_free =
      let off : page.on_free_page_list ≡ false = v.filled i page at ∙ ap not none_free in
      let listed =
        IsListed-set s.pool.pages i page given none s.pool.first_page_with_free_slot v.order at refl
          refl v.listed in
      let (pages', added_run, r, l) =
        add_to_free_page_list-Adds begun i given v.order begun_at off (sym w.marked ∙ off)
          v.distinct listed in
      let page' = record given {
        previous_free_page = none;
        next_free_page = s.pool.first_page_with_free_slot;
        on_free_page_list = true;
      } in
      (
        _,
        release_run pages' (some i) page' (rw none_free added_run) r.at_page,
        release-IsPool _ (i ∷ v.order) (counted page')
            (IsRelinked-set s.pool.pages (set pages' i (counted page')) i given (counted page')
              (IsRelinked-again begun.pool.pages pages' i page' (counted page') r))
            refl refl (sym w.marked ∙ off, v.distinct)
            (IsListed-set pages' i page' (counted page') none (some i) (i ∷ v.order) r.at_page refl
              refl l)
            (λ k ne. rw (test_of_ne k i ne) refl) (rw ((==_iff i i).1 refl) refl) none
            s.pool.first_page_with_free_slot refl,
        refl,
        refl,
      )

  pub release-Releases : Releases
  release-Releases = elim (Bool-cases (given.free_count == 0)) [
    | inl q ↦ release_listed q
    | inr q ↦ release_kept q
  ]

-- In a store that is a pool in order, the release of a pointer at which an order lives succeeds:
-- that order and no other is gone from memory, the count of live orders is less by one, as 64-bit
-- subtraction has it, and the store is a pool in order.
pub release_live-IsPool :
    (s : Store) (p : Ptr) (o : Order)
    → IsPool s
    → s.heap p ≡ some o
    → (s' : Store) × (release p s ≡ (ok tt, s'))
      × IsPool s'
      × (s'.heap ≡ update s.heap p none)
      × (s'.pool.live_order_count ≡ sub_u64 s.pool.live_order_count 1)
release_live-IsPool s p o v e =
    let alive : lives (s.heap p) ≡ true = ap lives e in
    let (i, (page, at, j, lt, place)) = v.owned p alive in
    let taken : get_or page.is_occupied j true ≡ true =
      sym ((v.kept i page at).live j lt) ∙ ap (λ a. lives (s.heap a)) (sym place) ∙ alive in
    subst
      (λ a.
        (s' : Store) × (release a s ≡ (ok tt, s'))
        × IsPool s'
        × (s'.heap ≡ update s.heap a none)
        × (s'.pool.live_order_count ≡ sub_u64 s.pool.live_order_count 1))
      (sym place) (release-Releases s v i page j at lt taken)

-- In a store that is a pool in order, the release of a pointer at which no order lives, be it
-- null, outside the pool, inside a slot or a free slot, throws invalid_argument and changes
-- nothing.
pub release-throws :
    (s : Store) (p : Ptr) → IsPool s → s.heap p ≡ none → release p s ≡ (throws invalid_argument, s)
unfolding release get_page
release-throws s p v e = elim (Bool-cases (p == null)) [
  | inl q ↦ rw q refl
  | inr q ↦ elim (Option-cases (find_page (p / page_size * page_size) s.pool.page_index)) [
    | inl none_there ↦ rw (q, none_there) refl
    | inr (i, there) ↦
        let (page, at, base) = v.known (p / page_size * page_size) i there in
        let offset = p - p / page_size * page_size in
        elim (Bool-cases (offset % order_size == 0)) [
          | inr f ↦ rw (q, there, at, f) refl
          | inl f ↦ elim (Bool-cases (leb slots_per_page (offset / order_size))) [
            | inl g ↦ rw (q, there, at, f, g) refl
            | inr g ↦
                let lt : offset / order_size < slots_per_page = ground arith in
                let place : p ≡ address page (offset / order_size) =
                  omega (arith, base, eq_of_test (offset % order_size) 0 f) in
                let w = v.kept i page at in
                let flag : get_elem? page.is_occupied (offset / order_size) ≡ some false =
                  get_elem?-get_or page.is_occupied (offset / order_size) true
                    (omega (arith, w.sound.flagged))
                  ∙ ap some (
                      sym (w.live (offset / order_size) lt)
                      ∙ ap (λ a. lives (s.heap a)) (sym place)
                      ∙ ap lives e) in
                rw (q, there, at, f, g, flag) refl
          ]
        ]
  ]
]
