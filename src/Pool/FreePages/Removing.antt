-- ===== src/Pool/FreePages/Removing.antt =====
-- `OrderPool::removeFromFreePageList` for the head of the list.
use leka.Base.{
  ℕ, ◌<◌, ◌≡◌, ◌≢◌, refl, sym, ◌∙◌, inl, inr, true, false, none, some, List, [], ◌∷◌, arith, ◌==◌,
  if◌then◌else◌, length, get_elem?, set, Bool-cases, eq_of_test, ne_of_test, get_elem?-set_self,
  get_elem?-set_ne, length-set, ◌∉◌, IsDistinct, ne_of_mem,
}
use leka.Base.Outcome.{ok}
use leka.Pool.{Page, Store, modify_page?, get_page, put_pool, remove_from_free_page_list}
use leka.Pool.FreePages.{
  IsListed, get_elem?-lt, map_previous_same, IsListed-congr, modify_page-ok, modify_page?-ok,
  IsRelinked,
}

-- The call of `removeFromFreePageList` for the page at the head of the list.
module _ (s : Store) (i : ℕ) (page : Page) (is : List ℕ) (at : get_elem? s.pool.pages i ≡ some page)
    (on : page.on_free_page_list ≡ true) (first : page.previous_free_page ≡ none) (out : i ∉ is)
    (distinct : IsDistinct is) (rest : IsListed s.pool.pages (some i) page.next_free_page is) where
  abbrev pub removed : Page
  removed = record page {
    previous_free_page = none;
    next_free_page = none;
    on_free_page_list = false;
  }

  abbrev pub Removes : Type 0
  Removes =
      (pages' : List Page) × (remove_from_free_page_list i s ≡ (
        ok tt,
        record s {
          pool = record s.pool { pages = pages'; first_page_with_free_slot = page.next_free_page };
        },
      ))
      × IsRelinked s.pool.pages pages' i removed
      × IsListed pages' none page.next_free_page is

  abbrev alone_1 : Page
  alone_1 = record page { previous_free_page = none }

  abbrev alone_2 : Page
  alone_2 = record page { previous_free_page = none; next_free_page = none }

  abbrev cleared : List Page → List Page
  cleared pages_1 = set (set (set pages_1 i alone_1) i alone_2) i removed

  cleared_ne :
      (pages_1 : List Page) (k : ℕ) → k ≢ i → get_elem? (cleared pages_1) k ≡ get_elem? pages_1 k
  cleared_ne pages_1 k ne =
      get_elem?-set_ne _ i k _ (λ e. ne (sym e))
      ∙ get_elem?-set_ne _ i k _ (λ e. ne (sym e))
      ∙ get_elem?-set_ne pages_1 i k _ (λ e. ne (sym e))

  length-cleared : (pages_1 : List Page) → length (cleared pages_1) ≡ length pages_1
  length-cleared pages_1 = length-set _ i _ ∙ length-set _ i _ ∙ length-set pages_1 i _

  removes_run :
      (pages_1 : List Page)
      → modify_page? page.next_free_page
          (λ p. record p { previous_free_page = none })
          (record s { pool = record s.pool { first_page_with_free_slot = page.next_free_page } })
        ≡ (
          ok tt,
          record s {
            pool = record s.pool {
              pages = pages_1;
              first_page_with_free_slot = page.next_free_page;
            };
          },
        )
      → get_elem? pages_1 i ≡ some page
      → (remove_from_free_page_list i s ≡ (
        ok tt,
        record s {
          pool = record s.pool {
            pages = cleared pages_1;
            first_page_with_free_slot = page.next_free_page;
          };
        },
      ))
        × (get_elem? (cleared pages_1) i ≡ some removed)
  unfolding remove_from_free_page_list get_page put_pool
  removes_run pages_1 run at_1 =
      let lt = get_elem?-lt pages_1 i at_1 in
      let lt_1 : i < length (set pages_1 i alone_1) =
        omega (arith, lt, length-set pages_1 i alone_1) in
      let lt_2 : i < length (set (set pages_1 i alone_1) i alone_2) =
        omega (arith, lt_1, length-set (set pages_1 i alone_1) i alone_2) in
      let t = λ (pages : List Page). record s {
        pool = record s.pool { pages = pages; first_page_with_free_slot = page.next_free_page };
      } in
      (
        rw
            (
              at,
              on,
              first,
              run,
              modify_page-ok i (λ p. record p { previous_free_page = none }) (t pages_1) at_1,
              modify_page-ok i (λ p. record p { next_free_page = none }) (t (set pages_1 i alone_1))
                  (get_elem?-set_self pages_1 i alone_1 lt),
              modify_page-ok i (λ p. record p { on_free_page_list = false })
                  (t (set (set pages_1 i alone_1) i alone_2))
                  (get_elem?-set_self (set pages_1 i alone_1) i alone_2 lt_1),
            )
            (rw on refl),
        get_elem?-set_self (set (set pages_1 i alone_1) i alone_2) i removed lt_2,
      )

  removes_alone : page.next_free_page ≡ none → is ≡ [] → Removes
  unfolding modify_page? IsListed
  removes_alone e empty =
      let (run, self) = removes_run s.pool.pages (rw e refl) at in
      (
        cleared s.pool.pages,
        run,
        record {
          new = λ k x. x;
          at_page = self;
          others =
              λ k ne. cleared_ne s.pool.pages k ne ∙ map_previous_same (get_elem? s.pool.pages k);
          long = length-cleared s.pool.pages;
        },
        rw empty e,
      )

  removes_before :
      (n : ℕ) (ns : List ℕ) (head : Page)
      → page.next_free_page ≡ some n
      → is ≡ n ∷ ns
      → get_elem? s.pool.pages n ≡ some head
      → IsListed s.pool.pages (some n) head.next_free_page ns
      → Removes
  unfolding IsListed
  removes_before n ns head e full at_n rest' =
      let apart : n ≢ i = ne_of_test n i (ground (arith, rw full at out)) in
      let away : i ∉ ns = ground (arith, rw full at out) in
      let away_n : n ∉ ns = (rw full at distinct).0 in
      let head' = record head { previous_free_page = none } in
      let pages_1 = set s.pool.pages n head' in
      let at_1 : get_elem? pages_1 i ≡ some page =
        get_elem?-set_ne s.pool.pages n i head' apart ∙ at in
      let (run, self) =
        removes_run pages_1
          (modify_page?-ok page.next_free_page n (λ p. record p { previous_free_page = none })
            (record s { pool = record s.pool { first_page_with_free_slot = page.next_free_page } })
            e at_n)
          at_1 in
      let at_n' : get_elem? pages_1 n ≡ some head' =
        get_elem?-set_self s.pool.pages n head' (get_elem?-lt s.pool.pages n at_n) in
      (
        cleared pages_1,
        run,
        record {
          new = λ k x. if k == n then none else x;
          at_page = self;
          others = λ k ne. cleared_ne pages_1 k ne ∙ elim (Bool-cases (k == n)) [
            | inl q ↦ rw (q, eq_of_test k n q, at_n) at_n'
            | inr q ↦ rw q (
                get_elem?-set_ne s.pool.pages n k head' (λ w. ne_of_test k n q (sym w))
                ∙ map_previous_same (get_elem? s.pool.pages k))
          ];
          long = length-cleared pages_1 ∙ length-set s.pool.pages n head';
        },
        rw full (
          e,
          head',
          cleared_ne pages_1 n apart ∙ at_n',
          refl,
          IsListed-congr s.pool.pages (cleared pages_1) (some n) head.next_free_page ns
              (λ k m.
                cleared_ne pages_1 k (ne_of_mem ns m away)
                ∙ get_elem?-set_ne s.pool.pages n k head' (λ q. ne_of_mem ns m away_n (sym q)))
              rest',
        ),
      )

pub remove_from_free_page_list-Removes :
    (s : Store) (i : ℕ) (page : Page) (is : List ℕ) (at : get_elem? s.pool.pages i ≡ some page)
    (on : page.on_free_page_list ≡ true) (first : page.previous_free_page ≡ none) (out : i ∉ is)
    (distinct : IsDistinct is) (rest : IsListed s.pool.pages (some i) page.next_free_page is)
    → Removes s i page is at on first out distinct rest
unfolding IsListed
remove_from_free_page_list-Removes s i page [] at on first out distinct rest =
    removes_alone s i page [] at on first out distinct rest rest refl
remove_from_free_page_list-Removes s i page (n ∷ ns) at on first out distinct
      (e, head, at_n, p, rest) =
    removes_before s i page (n ∷ ns) at on first out distinct (e, head, at_n, p, rest) n ns head e
      refl at_n rest
