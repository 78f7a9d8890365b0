-- ===== src/Pool/Invariant.antt =====
-- What the pool of order_pool.cpp and the memory that it owns satisfy between calls.
use leka.Base.{
  ℕ, ◌+◌, ◌-◌, ◌*◌, ◌/◌, ◌<◌, ◌≡◌, ◌≢◌, ◌⊎◌, sym, ap, ◌∙◌, subst, inl, inr, Bool, true, false, not,
  Option, none, some, List, arith, ◌==◌, get_elem?, get_or, set, Bool-cases, eq_of_test, ne_of_test,
  has, IsDistinct, get_or-set_self, get_or-set_ne, Option-cases,
}
use mathlib.Core.Option.{none-ne-some}
use leka.Order.{Ptr, Order}
use leka.Memory.{Heap, update, update_self, update_ne}
use leka.Pool.{page_size, order_size, slots_per_page, Page, Store, find_page}
use leka.Pool.Fresh.{IsPage}
use leka.Pool.FreePages.{some_same, IsListed, IsRelinked, map_previous}

abbrev pub lives : Option Order → Bool
lives none = false
lives (some o) = true

abbrev pub address : Page → ℕ → Ptr
address page j = page.storage + j * order_size

-- Page `k` of the pool: it is in the table of pages, its mark says whether it is on the list
-- `order` of pages, and its taken slots are the ones that hold an order.
pub record IsKept (heap : Heap) (order : List ℕ) (index : List (ℕ × ℕ)) (k : ℕ) (page : Page)
    : Type 0 where
  pub sound : IsPage page
  pub marked : page.on_free_page_list ≡ has k order
  pub indexed : find_page page.storage index ≡ some k
  pub live :
      (j : ℕ) → j < slots_per_page → lives (heap (address page j)) ≡ get_or page.is_occupied j true

-- An address is that of a slot of page `k`.
abbrev pub IsSlotOf : List Page → ℕ → Ptr → Type 0
IsSlotOf pages k p =
    (page : Page) × (get_elem? pages k ≡ some page)
    × (j : ℕ) × (j < slots_per_page)
    × (p ≡ address page j)

pub record IsLaidOut (s : Store) : Type 0 where
  pub order : List ℕ
  pub distinct : IsDistinct order
  pub listed : IsListed s.pool.pages none s.pool.first_page_with_free_slot order
  pub kept :
      (k : ℕ) (page : Page)
      → get_elem? s.pool.pages k ≡ some page
      → IsKept s.heap order s.pool.page_index k page
  pub known :
      (base k : ℕ)
      → find_page base s.pool.page_index ≡ some k
      → (page : Page) × (get_elem? s.pool.pages k ≡ some page) × (page.storage ≡ base)
  pub owned : (p : Ptr) → lives (s.heap p) ≡ true → (k : ℕ) × IsSlotOf s.pool.pages k p

-- A page is on the list exactly if it has a free slot.
abbrev pub IsMarked : Page → Type 0
IsMarked page = page.on_free_page_list ≡ not (page.free_count == 0)

pub record IsPool (s : Store) : Type 0 where
  pub laid : IsLaidOut s
  pub open laid use *
  pub filled : (k : ℕ) (page : Page) → get_elem? s.pool.pages k ≡ some page → IsMarked page

-- The address of a slot tells its page and its slot.
pub address-base :
    (page : Page) (j : ℕ)
    → IsPage page
    → j < slots_per_page
    → (address page j / page_size * page_size ≡ page.storage)
      × (address page j - page.storage ≡ j * order_size)
address-base page j v h = (omega (arith, v.aligned), omega arith)

module _ (pages pages' : List Page) (i : ℕ) (page' : Page)
    (r : IsRelinked pages pages' i page') where
  -- The pages but one are those that were there, but for a link.
  pub relinked_from :
      (k : ℕ) (page : Page)
      → k ≢ i
      → get_elem? pages' k ≡ some page
      → (old : Page) × (previous : Option ℕ) × (get_elem? pages k ≡ some old)
        × (page ≡ record old { previous_free_page = previous })
  relinked_from k page ne e = elim (Option-cases (get_elem? pages k)) [
    | inl q ↦ absurd (none-ne-some page (sym (r.others k ne ∙ ap (map_previous (r.new k)) q) ∙ e))
    | inr (old, q) ↦ (
      old,
      r.new k old.previous_free_page,
      q,
      some_same (sym e ∙ r.others k ne ∙ ap (map_previous (r.new k)) q),
    )
  ]

  pub relinked_to :
      (k : ℕ) (old : Page)
      → k ≢ i
      → get_elem? pages k ≡ some old
      → get_elem? pages' k
        ≡ some (record old { previous_free_page = r.new k old.previous_free_page })
  relinked_to k old ne e = r.others k ne ∙ ap (map_previous (r.new k)) e

  pub IsMarked-update :
      IsMarked page'
      → ((k : ℕ) (page : Page) → k ≢ i → get_elem? pages k ≡ some page → IsMarked page)
      → (k : ℕ) (page : Page) → get_elem? pages' k ≡ some page
      → IsMarked page
  IsMarked-update mark marks k page e = elim (Bool-cases (k == i)) [
    | inl q ↦
        subst IsMarked
          (some_same (sym r.at_page ∙ sym (ap (get_elem? pages') (eq_of_test k i q)) ∙ e)) mark
    | inr q ↦
        let (old, previous, at_k, same) = relinked_from k page (ne_of_test k i q) e in
        rw same (marks k old (ne_of_test k i q) at_k)
  ]

-- A write to the slot of a page, in memory and in the flags.
module _ (h : Heap) (page : Page) (j : ℕ) (content : Option Order) (v : IsPage page)
    (lt : j < slots_per_page) where
  pub update-spared :
      (p : Ptr)
      → p / page_size * page_size ≢ page.storage
      → update h (address page j) content p ≡ h p
  update-spared p far =
      update_ne h (address page j) p content
        (λ e. far (ap (λ x. x / page_size * page_size) e ∙ (address-base page j v lt).0))

  pub update-live :
      ((k : ℕ) → k < slots_per_page → lives (h (address page k)) ≡ get_or page.is_occupied k true)
      → (k : ℕ) → k < slots_per_page
      → lives (update h (address page j) content (address page k))
        ≡ get_or (set page.is_occupied j (lives content)) k true
  update-live live k h_k = elim (Bool-cases (k == j)) [
    | inl q ↦
        rw (eq_of_test k j q, update_self h (address page j) content)
          (sym (get_or-set_self page.is_occupied j (lives content) true (omega (arith, v.flagged))))
    | inr q ↦
        ap lives (
          update_ne h (address page j) (address page k) content
            (λ e. ne_of_test k j q (omega (arith, e))))
        ∙ live k h_k
        ∙ sym (
            get_or-set_ne page.is_occupied j k (lives content) true (λ e. ne_of_test k j q (sym e)))
  ]

  pub update-owned :
      (p : Ptr)
      → lives (update h (address page j) content p) ≡ true
      → (lives (h p) ≡ true) ⊎ ((k : ℕ) × (k < slots_per_page) × (p ≡ address page k))
  update-owned p l = elim (Bool-cases (p == address page j)) [
    | inl q ↦ inr (j, lt, eq_of_test p (address page j) q)
    | inr q ↦ inl (
        ap lives (sym (update_ne h (address page j) p content (ne_of_test p (address page j) q)))
        ∙ l)
  ]

-- A new state in which one page, its slots and its place on the list may differ.
module _ (s s' : Store) (v : IsLaidOut s) (i : ℕ) (page page' : Page)
    (at : get_elem? s.pool.pages i ≡ some page) (r : IsRelinked s.pool.pages s'.pool.pages i page')
    (place : page'.storage ≡ page.storage) (index : s'.pool.page_index ≡ s.pool.page_index)
    (order : List ℕ) (distinct : IsDistinct order)
    (listed : IsListed s'.pool.pages none s'.pool.first_page_with_free_slot order)
    (others : (k : ℕ) → k ≢ i → has k order ≡ has k v.order)
    (kept : IsKept s'.heap order s.pool.page_index i page')
    (spared : (p : Ptr) → p / page_size * page_size ≢ page.storage → s'.heap p ≡ s.heap p)
    (owned : (p : Ptr)
      → lives (s'.heap p) ≡ true
      → (lives (s.heap p) ≡ true) ⊎ ((j : ℕ) × (j < slots_per_page) × (p ≡ address page j))) where
  -- Another page stands elsewhere.
  elsewhere :
      (k : ℕ) (other : Page)
      → k ≢ i
      → get_elem? s.pool.pages k ≡ some other
      → other.storage ≢ page.storage
  elsewhere k other ne e q = ne (
      some_same (
        sym (v.kept k other e).indexed
        ∙ ap (λ b. find_page b s.pool.page_index) q
        ∙ (v.kept i page at).indexed))

  kept_other :
      (k : ℕ) (other : Page) (previous : Option ℕ)
      → k ≢ i
      → get_elem? s.pool.pages k ≡ some other
      → IsKept s'.heap order s.pool.page_index k (record other { previous_free_page = previous })
  kept_other k other previous ne e =
      let w = v.kept k other e in
      record {
        sound = w.sound;
        marked = w.marked ∙ sym (others k ne);
        indexed = w.indexed;
        live = λ j h.
            ap lives (
              spared (address other j)
                (λ q. elsewhere k other ne e (sym ((address-base other j w.sound h).0) ∙ q)))
            ∙ w.live j h;
      }

  pub IsLaidOut-update : IsLaidOut s'
  IsLaidOut-update = record {
    order = order;
    distinct = distinct;
    listed = listed;
    kept = λ k p e. elim (Bool-cases (k == i)) [
      | inl q ↦
          let same : page' ≡ p =
            some_same (sym r.at_page ∙ sym (ap (get_elem? s'.pool.pages) (eq_of_test k i q)) ∙ e) in
          rw (index, eq_of_test k i q)
            (subst (λ x. IsKept s'.heap order s.pool.page_index i x) same kept)
      | inr q ↦
          let (old, previous, at_k, same) =
            relinked_from s.pool.pages s'.pool.pages i page' r k p (ne_of_test k i q) e in
          rw (index, same) (kept_other k old previous (ne_of_test k i q) at_k)
    ];
    known = λ base k e.
        let (old, at_k, b) = v.known base k (rw index at e) in
        elim (Bool-cases (k == i)) [
          | inl q ↦
              let same : old ≡ page =
                some_same (sym at_k ∙ ap (get_elem? s.pool.pages) (eq_of_test k i q) ∙ at) in
              (
                page',
                ap (get_elem? s'.pool.pages) (eq_of_test k i q) ∙ r.at_page,
                place ∙ sym (ap (λ x. x.storage) same) ∙ b,
              )
          | inr q ↦ (
            record old { previous_free_page = r.new k old.previous_free_page },
            relinked_to s.pool.pages s'.pool.pages i page' r k old (ne_of_test k i q) at_k,
            b,
          )
        ];
    owned = λ p l. elim (owned p l) [
      | inr (j, h, e) ↦ (i, (page', r.at_page, j, h, e ∙ ap (λ x. x + j * order_size) (sym place)))
      | inl l' ↦
          let (k, (old, at_k, j, h, e)) = v.owned p l' in
          elim (Bool-cases (k == i)) [
            | inl q ↦
                let same : old ≡ page =
                  some_same (sym at_k ∙ ap (get_elem? s.pool.pages) (eq_of_test k i q) ∙ at) in
                (
                  i,
                  (
                    page',
                    r.at_page,
                    j,
                    h,
                    e ∙ ap (λ x. x + j * order_size) (ap (λ x. x.storage) same ∙ sym place),
                  ),
                )
            | inr q ↦ (
              k,
              (
                record old { previous_free_page = r.new k old.previous_free_page },
                relinked_to s.pool.pages s'.pool.pages i page' r k old (ne_of_test k i q) at_k,
                j,
                h,
                e,
              ),
            )
          ]
    ];
  }
