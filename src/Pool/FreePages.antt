-- ===== src/Pool/FreePages.antt =====
-- The list of the pages with a free slot.
pub mod Adding
pub mod Removing
use leka.Base.{
  ℕ, zero, suc, ◌<◌, ◌≡◌, ◌≢◌, refl, sym, ap, ◌∙◌, subst, inl, inr, true, false, Option, none, some,
  List, [], ◌∷◌, arith, ◌==◌, if◌then◌else◌, length, get_elem?, set, Bool-cases, eq_of_test,
  ne_of_test, ==_iff, get_elem?-set_self, get_elem?-set_ne, length-set, ◌∈◌, ◌∉◌, IsDistinct,
  ne_of_mem,
}
use mathlib.Core.Option.{none-ne-some}
use leka.Base.Outcome.{ok}
use leka.Pool.{
  Page, Store, modify_page, modify_page?, get_page, put_pool, add_to_free_page_list,
  remove_from_free_page_list,
}

pub IsListed : List Page → Option ℕ → Option ℕ → List ℕ → Type 0
IsListed pages previous current [] = current ≡ none
IsListed pages previous current (i ∷ is) =
    (current ≡ some i)
    × (page : Page) × (get_elem? pages i ≡ some page)
    × (page.previous_free_page ≡ previous)
    × IsListed pages (some i) page.next_free_page is

pub get_elem?-lt :
    {A : Type 0} (xs : List A) (i : ℕ) {a : A} → get_elem? xs i ≡ some a → i < length xs
get_elem?-lt [] i {a} e = absurd (none-ne-some a e)
get_elem?-lt (x ∷ xs) zero e = omega arith
get_elem?-lt (x ∷ xs) (suc i) e = omega (arith, get_elem?-lt xs i e)

pub some_same : {A : Type 0} {a b : A} → some a ≡ some b → a ≡ b
some_same {a = a} e = ap (λ o. elim o [ none ↦ a | some x ↦ x ]) e

pub IsListed-lt :
    (pages : List Page) (previous current : Option ℕ) (is : List ℕ) (k : ℕ)
    → IsListed pages previous current is
    → k ∈ is
    → k < length pages
unfolding IsListed
IsListed-lt pages previous current [] k l m = absurd (ground arith)
IsListed-lt pages previous current (i ∷ is) k (e, page, at, p, l) m = elim (Bool-cases (k == i)) [
  | inl q ↦ omega (arith, eq_of_test k i q, get_elem?-lt pages i at)
  | inr q ↦ IsListed-lt pages (some i) page.next_free_page is k l (rw q at m)
]

-- The head of a list that is not empty.
pub IsListed-head :
    (pages : List Page) (previous current : Option ℕ) (is : List ℕ) (i : ℕ)
    → IsListed pages previous current is
    → current ≡ some i
    → (page : Page) × (ks : List ℕ) × (is ≡ i ∷ ks)
      × (get_elem? pages i ≡ some page)
      × (page.previous_free_page ≡ previous)
      × IsListed pages (some i) page.next_free_page ks
unfolding IsListed
IsListed-head pages previous current [] i l e = absurd (none-ne-some i (sym l ∙ e))
IsListed-head pages previous current (k ∷ ks) i (c, page, at, p, l) e =
    let same : k ≡ i = some_same (sym c ∙ e) in
    (
      page,
      ks,
      ap (λ x. x ∷ ks) same,
      ap (get_elem? pages) (sym same) ∙ at,
      p,
      subst (λ x. IsListed pages (some x) page.next_free_page ks) same l,
    )

pub empty-IsListed : IsListed [] none none []
unfolding IsListed
empty-IsListed = refl

-- A list of pages in which only the entry's link to the page before it may have changed.
abbrev pub map_previous : (Option ℕ → Option ℕ) → Option Page → Option Page
map_previous f none = none
map_previous f (some page) = some (record page { previous_free_page = f page.previous_free_page })

map_previous_same : (o : Option Page) → o ≡ map_previous (λ x. x) o
map_previous_same none = refl
map_previous_same (some page) = refl

pub record IsRelinked (pages pages' : List Page) (i : ℕ) (page : Page) : Type 0 where
  pub new : ℕ → Option ℕ → Option ℕ
  pub at_page : get_elem? pages' i ≡ some page
  pub others : (k : ℕ) → k ≢ i → get_elem? pages' k ≡ map_previous (new k) (get_elem? pages k)
  pub long : length pages' ≡ length pages

-- The list looks only at its own pages.
pub IsListed-congr :
    (pages pages' : List Page) (previous current : Option ℕ) (is : List ℕ)
    → ((k : ℕ) → k ∈ is → get_elem? pages' k ≡ get_elem? pages k)
    → IsListed pages previous current is
    → IsListed pages' previous current is
unfolding IsListed
IsListed-congr pages pages' previous current [] same l = l
IsListed-congr pages pages' previous current (i ∷ is) same (e, page, at, p, l) = (
  e,
  page,
  same i (rw ((==_iff i i).1 refl) refl) ∙ at,
  p,
  IsListed-congr pages pages' (some i) page.next_free_page is (λ k m. same k (ground arith)) l,
)

-- Nor does it look at a page's slots.
pub IsListed-set :
    (pages : List Page) (i : ℕ) (page page' : Page) (previous current : Option ℕ) (is : List ℕ)
    → get_elem? pages i ≡ some page
    → page'.previous_free_page ≡ page.previous_free_page
    → page'.next_free_page ≡ page.next_free_page
    → IsListed pages previous current is
    → IsListed (set pages i page') previous current is
unfolding IsListed
IsListed-set pages i page page' previous current [] at before behind l = l
IsListed-set pages i page page' previous current (k ∷ ks) at before behind (e, other, at_k, p, l) =
    elim (Bool-cases (k == i)) [
      | inl q ↦
          let same : other ≡ page =
            some_same (sym at_k ∙ ap (get_elem? pages) (eq_of_test k i q) ∙ at) in
          (
            e,
            page',
            ap (get_elem? (set pages i page')) (eq_of_test k i q)
                ∙ get_elem?-set_self pages i page' (get_elem?-lt pages i at),
            before ∙ ap (λ x. x.previous_free_page) (sym same) ∙ p,
            subst (λ x. IsListed (set pages i page') (some k) x ks)
                (ap (λ x. x.next_free_page) same ∙ sym behind)
                (IsListed-set pages i page page' (some k) other.next_free_page ks at before behind
                  l),
          )
      | inr q ↦ (
        e,
        other,
        get_elem?-set_ne pages i k page' (λ w. ne_of_test k i q (sym w)) ∙ at_k,
        p,
        IsListed-set pages i page page' (some k) other.next_free_page ks at before behind l,
      )
    ]

pub IsRelinked-set :
    (pages pages' : List Page) (i : ℕ) (page page' : Page)
    → IsRelinked (set pages i page) pages' i page'
    → IsRelinked pages pages' i page'
IsRelinked-set pages pages' i page page' r = record {
  new = r.new;
  at_page = r.at_page;
  others = λ k ne.
      r.others k ne
      ∙ ap (map_previous (r.new k)) (get_elem?-set_ne pages i k page (λ e. ne (sym e)));
  long = r.long ∙ length-set pages i page;
}

-- A write to one page.
pub set-IsRelinked :
    (pages : List Page) (i : ℕ) (page page' : Page)
    → get_elem? pages i ≡ some page
    → IsRelinked pages (set pages i page') i page'
set-IsRelinked pages i page page' at = record {
  new = λ k x. x;
  at_page = get_elem?-set_self pages i page' (get_elem?-lt pages i at);
  others = λ k ne.
      get_elem?-set_ne pages i k page' (λ e. ne (sym e)) ∙ map_previous_same (get_elem? pages k);
  long = length-set pages i page';
}

-- Another write to the same page.
pub IsRelinked-again :
    (pages pages' : List Page) (i : ℕ) (page page' : Page)
    → IsRelinked pages pages' i page
    → IsRelinked pages (set pages' i page') i page'
IsRelinked-again pages pages' i page page' r = record {
  new = r.new;
  at_page = get_elem?-set_self pages' i page' (get_elem?-lt pages' i r.at_page);
  others = λ k ne. get_elem?-set_ne pages' i k page' (λ e. ne (sym e)) ∙ r.others k ne;
  long = length-set pages' i page' ∙ r.long;
}

abbrev pub with_pages : List Page → Store → Store
with_pages pages s = record s { pool = record s.pool { pages = pages } }

pub modify_page-ok :
    (i : ℕ) (f : Page → Page) (s : Store) {page : Page}
    → get_elem? s.pool.pages i ≡ some page
    → modify_page i f s ≡ (ok tt, with_pages (set s.pool.pages i (f page)) s)
unfolding modify_page get_page put_pool
modify_page-ok i f s e = rw e refl

pub modify_page?-ok :
    (o : Option ℕ) (i : ℕ) (f : Page → Page) (s : Store) {page : Page}
    → o ≡ some i
    → get_elem? s.pool.pages i ≡ some page
    → modify_page? o f s ≡ (ok tt, with_pages (set s.pool.pages i (f page)) s)
unfolding modify_page?
modify_page?-ok o i f s e at = rw (e, modify_page-ok i f s at) refl
