-- ===== src/Pool/FreePages/Adding.antt =====
-- `OrderPool::addToFreePageList`.
use leka.Base.{
  ℕ, ◌<◌, ◌≡◌, ◌≢◌, refl, sym, ◌∙◌, inl, inr, true, false, none, some, List, [], ◌∷◌, arith, ◌==◌,
  if◌then◌else◌, length, get_elem?, set, Bool-cases, eq_of_test, ne_of_test, get_elem?-set_self,
  get_elem?-set_ne, length-set, ◌∉◌, IsDistinct, ne_of_mem,
}
use leka.Base.Outcome.{ok}
use leka.Pool.{Page, Store, modify_page?, get_page, put_pool, add_to_free_page_list}
use leka.Pool.FreePages.{
  IsListed, get_elem?-lt, map_previous_same, IsListed-congr, with_pages, modify_page-ok,
  modify_page?-ok, IsRelinked,
}

-- The call of `addToFreePageList` for a page that is not on the list.
module _ (s : Store) (i : ℕ) (page : Page) (is : List ℕ) (at : get_elem? s.pool.pages i ≡ some page)
    (off : page.on_free_page_list ≡ false) (out : i ∉ is) (distinct : IsDistinct is)
    (listed : IsListed s.pool.pages none s.pool.first_page_with_free_slot is) where
  abbrev pub added : Page
  added = record page {
    previous_free_page = none;
    next_free_page = s.pool.first_page_with_free_slot;
    on_free_page_list = true;
  }

  abbrev pages_2 : List Page
  pages_2 =
      set (set s.pool.pages i (record page { previous_free_page = none })) i (record page {
        previous_free_page = none;
        next_free_page = s.pool.first_page_with_free_slot;
      })

  inside : i < length s.pool.pages
  inside = get_elem?-lt s.pool.pages i at

  pages_2_ne : (k : ℕ) → k ≢ i → get_elem? pages_2 k ≡ get_elem? s.pool.pages k
  pages_2_ne k ne =
      get_elem?-set_ne _ i k _ (λ e. ne (sym e))
      ∙ get_elem?-set_ne s.pool.pages i k _ (λ e. ne (sym e))

  pages_2_self :
      get_elem? pages_2 i
      ≡ some (record page {
        previous_free_page = none;
        next_free_page = s.pool.first_page_with_free_slot;
      })
  pages_2_self =
      get_elem?-set_self _ i _ (
        omega
          (arith, inside, length-set s.pool.pages i (record page { previous_free_page = none })))

  long_2 : length pages_2 ≡ length s.pool.pages
  long_2 = length-set _ i _ ∙ length-set s.pool.pages i _

  -- What the call leaves.
  abbrev pub Adds : Type 0
  Adds =
      (pages' : List Page) × (add_to_free_page_list i s ≡ (
        ok tt,
        record s { pool = record s.pool { pages = pages'; first_page_with_free_slot = some i } },
      ))
      × IsRelinked s.pool.pages pages' i added
      × IsListed pages' none (some i) (i ∷ is)

  adds_run :
      (pages_3 : List Page)
      → modify_page? s.pool.first_page_with_free_slot
          (λ p. record p { previous_free_page = some i })
          (with_pages pages_2 s)
        ≡ (ok tt, with_pages pages_3 s)
      → get_elem? pages_3 i ≡ get_elem? pages_2 i
      → add_to_free_page_list i s ≡ (
        ok tt,
        record s {
          pool = record s.pool { pages = set pages_3 i added; first_page_with_free_slot = some i };
        },
      )
  unfolding add_to_free_page_list get_page put_pool
  adds_run pages_3 run same =
      rw
        (
          at,
          off,
          modify_page-ok i (λ p. record p { previous_free_page = none }) s at,
          modify_page-ok i (λ p. record p { next_free_page = s.pool.first_page_with_free_slot })
              (with_pages (set s.pool.pages i (record page { previous_free_page = none })) s)
              (get_elem?-set_self s.pool.pages i (record page { previous_free_page = none })
                inside),
          run,
          modify_page-ok i (λ p. record p { on_free_page_list = true })
              (record s {
                pool = record s.pool { pages = pages_3; first_page_with_free_slot = some i };
              })
              (same ∙ pages_2_self),
        )
        refl

  adds_alone :
      s.pool.first_page_with_free_slot ≡ none → IsListed s.pool.pages none none [] → is ≡ [] → Adds
  unfolding modify_page? IsListed
  adds_alone e l empty = (
    set pages_2 i added,
    adds_run pages_2 (rw e refl) refl,
    record {
      new = λ k x. x;
      at_page = get_elem?-set_self pages_2 i added (omega (arith, inside, long_2));
      others = λ k ne.
          get_elem?-set_ne pages_2 i k added (λ q. ne (sym q))
          ∙ pages_2_ne k ne
          ∙ map_previous_same (get_elem? s.pool.pages k);
      long = length-set pages_2 i added ∙ long_2;
    },
    rw empty
        (refl, added, get_elem?-set_self pages_2 i added (omega (arith, inside, long_2)), refl, e),
  )

  adds_before :
      (n : ℕ) (ns : List ℕ) (head : Page)
      → s.pool.first_page_with_free_slot ≡ some n
      → is ≡ n ∷ ns
      → get_elem? s.pool.pages n ≡ some head
      → IsListed s.pool.pages (some n) head.next_free_page ns
      → Adds
  unfolding modify_page? IsListed
  adds_before n ns head e full at_n rest =
      let apart : n ≢ i = ne_of_test n i (ground (arith, rw full at out)) in
      let away : i ∉ ns = ground (arith, rw full at out) in
      let away_n : n ∉ ns = (rw full at distinct).0 in
      let head' = record head { previous_free_page = some i } in
      let pages_3 = set pages_2 n head' in
      let in_2 : n < length pages_2 = omega (arith, long_2, get_elem?-lt s.pool.pages n at_n) in
      let long_3 : length pages_3 ≡ length pages_2 = length-set pages_2 n head' in
      let at_2 : get_elem? pages_2 n ≡ some head = pages_2_ne n apart ∙ at_n in
      (
        set pages_3 i added,
        adds_run pages_3
            (modify_page?-ok s.pool.first_page_with_free_slot n
              (λ p. record p { previous_free_page = some i }) (with_pages pages_2 s) e at_2)
            (get_elem?-set_ne pages_2 n i head' apart),
        record {
          new = λ k x. if k == n then some i else x;
          at_page = get_elem?-set_self pages_3 i added (omega (arith, inside, long_2, long_3));
          others = λ k ne.
              get_elem?-set_ne pages_3 i k added (λ q. ne (sym q)) ∙ elim (Bool-cases (k == n)) [
                | inl q ↦ rw (q, eq_of_test k n q, at_n) (get_elem?-set_self pages_2 n head' in_2)
                | inr q ↦ rw q (
                    get_elem?-set_ne pages_2 n k head' (λ w. ne_of_test k n q (sym w))
                    ∙ pages_2_ne k ne
                    ∙ map_previous_same (get_elem? s.pool.pages k))
              ];
          long = length-set pages_3 i added ∙ long_3 ∙ long_2;
        },
        rw full (
          refl,
          added,
          get_elem?-set_self pages_3 i added (omega (arith, inside, long_2, long_3)),
          refl,
          (
            e,
            head',
            get_elem?-set_ne pages_3 i n added (λ q. apart (sym q))
                ∙ get_elem?-set_self pages_2 n head' in_2,
            refl,
            IsListed-congr s.pool.pages (set pages_3 i added) (some n) head.next_free_page ns
                (λ k m.
                  get_elem?-set_ne pages_3 i k added (λ q. ne_of_mem ns m away (sym q))
                  ∙ get_elem?-set_ne pages_2 n k head' (λ q. ne_of_mem ns m away_n (sym q))
                  ∙ pages_2_ne k (ne_of_mem ns m away))
                rest,
          ),
        ),
      )

pub add_to_free_page_list-Adds :
    (s : Store) (i : ℕ) (page : Page) (is : List ℕ) (at : get_elem? s.pool.pages i ≡ some page)
    (off : page.on_free_page_list ≡ false) (out : i ∉ is) (distinct : IsDistinct is)
    (listed : IsListed s.pool.pages none s.pool.first_page_with_free_slot is)
    → Adds s i page is at off out distinct listed
unfolding IsListed
add_to_free_page_list-Adds s i page [] at off out distinct listed =
    adds_alone s i page [] at off out distinct listed listed refl refl
add_to_free_page_list-Adds s i page (n ∷ ns) at off out distinct (e, head, at_n, p, rest) =
    adds_before s i page (n ∷ ns) at off out distinct (e, head, at_n, p, rest) n ns head e refl at_n
      rest
