-- ===== src/Pool/Create.antt =====
-- `OrderPool::createPage`.
use leka.Base.{
  ℕ, suc, ◌+◌, ◌*◌, ◌/◌, ◌%◌, ◌<◌, ◌≡◌, ◌≢◌, ◌⊎◌, refl, sym, ap, ◌∙◌, subst, inl, inr, true, false,
  not, ◌||◌, none, some, [], ◌∷◌, ◌++◌, arith, ◌==◌, length, get_elem?, get_or, Bool-cases,
  Option-cases, eq_of_test, test_of_ne, ==_iff, has, ◌∉◌, get_elem?-append, length-append,
}
use mathlib.Core.Option.{none-ne-some}
use leka.Base.Outcome.{Outcome, Exception, ok, throws, runtime_error, system_error, logic_error}
use leka.Pool.{
  page_size, slots_per_page, System, Page, Store, find_page, make_page, map_page, create_page,
  add_to_free_page_list, put_pool,
}
use leka.Pool.Fresh.{IsPage, make_page-IsPage, make_page-off, make_page-free, make_page-unused}
use leka.Pool.FreePages.{some_same, get_elem?-lt, IsListed-lt, IsListed-congr}
use leka.Pool.FreePages.Adding.{add_to_free_page_list-Adds}
use leka.Pool.Invariant.{
  lives, address, address-base, IsKept, IsLaidOut, IsPool, IsLaidOut-update, IsMarked-update,
}

-- A page behind the others, in the table of pages, and not yet on the list.
module _ (s : Store) (v : IsPool s) (page : Page) (sound : IsPage page)
    (off : page.on_free_page_list ≡ false)
    (unused : (j : ℕ) → j < slots_per_page → get_or page.is_occupied j true ≡ false)
    (new : find_page page.storage s.pool.page_index ≡ none) where
  abbrev pub last : ℕ
  last = length s.pool.pages

  abbrev pub appended : Store
  appended = record s {
    pool = record s.pool {
      pages = s.pool.pages ++ page ∷ [];
      page_index = (page.storage, last) ∷ s.pool.page_index;
    };
  }

  at_last : get_elem? appended.pool.pages last ≡ some page
  at_last = get_elem?-append s.pool.pages last page ∙ rw ((==_iff last last).1 refl) refl

  at_old : (k : ℕ) → k < last → get_elem? appended.pool.pages k ≡ get_elem? s.pool.pages k
  at_old k h = get_elem?-append s.pool.pages k page ∙ rw (test_of_ne k last (omega arith)) refl

  other_place :
      (k : ℕ) (old : Page) → get_elem? s.pool.pages k ≡ some old → old.storage ≢ page.storage
  other_place k old e q =
      none-ne-some k
        (sym new ∙ ap (λ b. find_page b s.pool.page_index) (sym q) ∙ (v.kept k old e).indexed)

  off_list : last ∉ v.order
  off_list = elim (Bool-cases (has last v.order)) [
    | inl m ↦ absurd (
        omega (
          arith,
          IsListed-lt s.pool.pages none s.pool.first_page_with_free_slot v.order last v.listed m,
        ))
    | inr n ↦ n
  ]

  -- Nothing lives on the new page.
  bare : (j : ℕ) → j < slots_per_page → lives (s.heap (address page j)) ≡ false
  bare j h = elim (Bool-cases (lives (s.heap (address page j)))) [
    | inr n ↦ n
    | inl l ↦
        let (k, (old, at_k, i, hi, e)) = v.owned (address page j) l in
        absurd (
          other_place k old at_k (
            sym ((address-base old i (v.kept k old at_k).sound hi).0)
            ∙ ap (λ a. a / page_size * page_size) (sym e)
            ∙ (address-base page j sound h).0))
  ]

  appended-IsKept :
      (k : ℕ) (p : Page)
      → get_elem? appended.pool.pages k ≡ some p
      → IsKept s.heap v.order appended.pool.page_index k p
  unfolding find_page
  appended-IsKept k p e = elim (Bool-cases (k == last)) [
    | inl q ↦
        let same : page ≡ p =
          some_same
            (sym at_last ∙ ap (get_elem? appended.pool.pages) (sym (eq_of_test k last q)) ∙ e) in
        rw (eq_of_test k last q) (
          subst (λ x. IsKept s.heap v.order appended.pool.page_index last x) same
            (record {
              sound = sound;
              marked = off ∙ sym off_list;
              indexed = rw ((==_iff page.storage page.storage).1 refl) refl;
              live = λ j h. bare j h ∙ sym (unused j h);
            }))
    | inr q ↦
        let at_k : get_elem? s.pool.pages k ≡ some p =
          sym (get_elem?-append s.pool.pages k page ∙ rw q refl) ∙ e in
        let w = v.kept k p at_k in
        record {
          sound = w.sound;
          marked = w.marked;
          indexed =
              rw (test_of_ne page.storage p.storage (λ z. other_place k p at_k (sym z))) w.indexed;
          live = w.live;
        }
  ]

  appended-IsLaidOut : IsLaidOut appended
  unfolding find_page
  appended-IsLaidOut = record {
    order = v.order;
    distinct = v.distinct;
    listed =
        IsListed-congr s.pool.pages appended.pool.pages none s.pool.first_page_with_free_slot
          v.order
          (λ k m.
            at_old k
              (IsListed-lt s.pool.pages none s.pool.first_page_with_free_slot v.order k v.listed m))
          v.listed;
    kept = appended-IsKept;
    known = λ base k e. elim (Bool-cases (page.storage == base)) [
      | inl q ↦ (
        page,
        ap (get_elem? appended.pool.pages) (sym (some_same (rw q at e))) ∙ at_last,
        eq_of_test page.storage base q,
      )
      | inr q ↦
          let (old, at_k, b) = v.known base k (rw q at e) in
          (old, at_old k (get_elem?-lt s.pool.pages k at_k) ∙ at_k, b)
    ];
    owned = λ p l.
        let (k, (old, at_k, j, h, e)) = v.owned p l in
        (k, (old, at_old k (get_elem?-lt s.pool.pages k at_k) ∙ at_k, j, h, e));
  }

  abbrev listed_page : Page
  listed_page = record page {
    previous_free_page = none;
    next_free_page = s.pool.first_page_with_free_slot;
    on_free_page_list = true;
  }

  pub appended-adds :
      page.free_count ≢ 0
      → (t : Store) × (add_to_free_page_list last appended ≡ (ok tt, t))
        × IsPool t
        × (t.heap ≡ s.heap)
        × (t.pool.first_page_with_free_slot ≡ some last)
        × (t.pool.live_order_count ≡ s.pool.live_order_count)
        × (length t.pool.pages ≡ suc last)
  unfolding appended-IsLaidOut
  appended-adds some_free =
      let laid = appended-IsLaidOut in
      let (pages', run, r, l) =
        add_to_free_page_list-Adds appended last page v.order at_last off off_list v.distinct
          laid.listed in
      let t = record appended {
        pool = record appended.pool { pages = pages'; first_page_with_free_slot = some last };
      } in
      let kept = appended-IsKept last page at_last in
      (
        t,
        run,
        record {
          laid =
              IsLaidOut-update appended t laid last page listed_page at_last r refl refl
                (last ∷ v.order) (off_list, v.distinct) l (λ k ne. rw (test_of_ne k last ne) refl)
                (record {
                  sound = sound;
                  marked = rw ((==_iff last last).1 refl) refl;
                  indexed = kept.indexed;
                  live = kept.live;
                })
                (λ p far. refl) (λ p alive. inl alive);
          filled =
              IsMarked-update appended.pool.pages pages' last listed_page r
                (rw (test_of_ne page.free_count 0 some_free) refl)
                (λ k p ne e. v.filled k p (sym (at_other k ne) ∙ e));
        },
        refl,
        refl,
        refl,
        omega (arith, r.long, length-append s.pool.pages (page ∷ [])),
      )
    where
      at_other : (k : ℕ) → k ≢ last → get_elem? appended.pool.pages k ≡ get_elem? s.pool.pages k
      at_other k ne = get_elem?-append s.pool.pages k page ∙ rw (test_of_ne k last ne) refl

-- The count of the system's answers is no part of what the pool promises.
with_calls-IsPool :
    (s : Store) (n : ℕ) → IsPool s → IsPool (record s { pool = record s.pool { mmap_calls = n } })
with_calls-IsPool s n v = record {
  laid = record {
    order = v.order;
    distinct = v.distinct;
    listed = v.listed;
    kept = v.kept;
    known = v.known;
    owned = v.owned;
  };
  filled = v.filled;
}

-- What a call that makes a page leaves: a page with a free slot at the head of the list, or a pool
-- with the pages and orders that it had.
abbrev pub Creates : Store → Outcome ℕ × Store → Type 0
Creates s result =
    ((i : ℕ) × (t : Store) × (result ≡ (ok i, t))
      × IsPool t
      × (t.heap ≡ s.heap)
      × (t.pool.first_page_with_free_slot ≡ some i)
      × (t.pool.live_order_count ≡ s.pool.live_order_count)
      × (length t.pool.pages ≡ suc (length s.pool.pages)))
    ⊎ ((e : Exception) × (t : Store) × (result ≡ (throws e, t))
        × IsPool t
        × (t.heap ≡ s.heap)
        × (t.pool.pages ≡ s.pool.pages)
        × (t.pool.live_order_count ≡ s.pool.live_order_count))

pub create_page-Creates :
    (system : System)
    → ((call a : ℕ) → system.mmap call ≡ some a → 0 < a)
    → (s : Store) → IsPool s
    → Creates s (create_page system s)
unfolding create_page map_page put_pool
create_page-Creates system maps s v =
    elim (Bool-cases
      (system.system_page_size == 0 || not (page_size % system.system_page_size == 0))) [
        | inl bad ↦ rw bad (inr (runtime_error, s, refl, v, refl, refl, refl))
        | inr fine ↦ elim (Option-cases (system.mmap s.pool.mmap_calls)) [
          | inl failed ↦
              rw (fine, failed)
                (inr (
                  system_error,
                  _,
                  refl,
                  with_calls-IsPool s (s.pool.mmap_calls + 1) v,
                  refl,
                  refl,
                  refl,
                ))
          | inr (a, mapped) ↦
              let page = make_page a in
              let w = with_calls-IsPool s (s.pool.mmap_calls + 1) v in
              elim (Option-cases (find_page page.storage s.pool.page_index)) [
                | inr (k, known) ↦
                    rw (fine, mapped, known) (inr (logic_error, _, refl, w, refl, refl, refl))
                | inl new ↦
                    let (t, run, pool, heap, first, count, more) =
                      appended-adds
                        (record s { pool = record s.pool { mmap_calls = s.pool.mmap_calls + 1 } }) w
                        page (make_page-IsPage a (maps s.pool.mmap_calls a mapped))
                        (make_page-off a) (make_page-unused a) new (make_page-free a) in
                    rw (fine, mapped, new, run)
                      (inl (length s.pool.pages, t, refl, pool, heap, first, count, more))
              ]
        ]
      ]
