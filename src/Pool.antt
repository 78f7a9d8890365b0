-- ===== src/Pool.antt =====
-- src/book/order_pool.cpp and include/lob/book/order_pool.hpp: orders in pages of 64 KiB. What the
-- operating system answers is a parameter: the system's page size, and the address of each mapping
-- in turn, or none where mmap fails. A page is named by its place in `pages`, and an order by its
-- address. std::unordered_map is an association list.
pub mod Slots
pub mod Fresh
pub mod FreePages
pub mod Invariant
pub mod Release
pub mod Create
pub mod Allocate
pub mod Reserve
use leka.Base.{
  ℕ, zero, suc, ◌+◌, ◌-◌, ◌*◌, ◌/◌, ◌%◌, Bool, true, false, not, ◌||◌, Option, none, some, List, [],
  ◌∷◌, ◌++◌, ◌==◌, leb, if◌then◌else◌, length, get_elem?, set, replicate,
}
use leka.Base.Outcome.{ok, fault, invalid_argument, logic_error, runtime_error, system_error}
use leka.Base.State.{Cmd, pure, lift, gets, puts, throw, throw_when, when, ◌>>=◌, ◌>>◌}
use leka.Types.{add_u64, sub_u64}
use leka.Order.{Ptr, null, Order}
use leka.Memory.{Heap, update}

abbrev pub page_size : ℕ
page_size = 65536

-- sizeof(Order), for which the header asserts 819 slots to a page.
abbrev pub order_size : ℕ
order_size = 80

abbrev pub slots_per_page : ℕ
slots_per_page = page_size / order_size

pub record System : Type 0 where
  pub system_page_size : ℕ
  pub mmap : (call : ℕ) → Option ℕ

pub record Page : Type 0 where
  pub storage : ℕ
  pub next_free : List ℕ
  pub is_occupied : List Bool
  pub first_free : ℕ
  pub free_count : ℕ
  pub previous_free_page : Option ℕ
  pub next_free_page : Option ℕ
  pub on_free_page_list : Bool

pub record Pool : Type 0 where
  pub pages : List Page
  pub page_index : List (ℕ × ℕ)
  pub first_page_with_free_slot : Option ℕ
  pub live_order_count : ℕ
  pub mmap_calls : ℕ

abbrev pub empty_pool : Pool
empty_pool = record {
  pages = [];
  page_index = [];
  first_page_with_free_slot = none;
  live_order_count = 0;
  mmap_calls = 0;
}

-- The pool and the memory that it hands out.
pub record Store : Type 0 where
  pub pool : Pool
  pub heap : Heap

-- The chain `1, 2, …, slots_per_page` that a new page's free list is.
unfoldable pub iota_from : ℕ → ℕ → List ℕ
iota_from start zero = []
iota_from start (suc n) = start ∷ iota_from (suc start) n

-- A mapping of two pages, aligned upwards to one.
unfoldable pub make_page : ℕ → Page
make_page address = record {
  storage = (address + page_size - 1) / page_size * page_size;
  next_free = iota_from 1 slots_per_page;
  is_occupied = replicate slots_per_page false;
  first_free = 0;
  free_count = slots_per_page;
  previous_free_page = none;
  next_free_page = none;
  on_free_page_list = false;
}

unfoldable pub find_page : ℕ → List (ℕ × ℕ) → Option ℕ
find_page base [] = none
find_page base ((b, page) ∷ rest) = if b == base then some page else find_page base rest

unfoldable pub get_page : ℕ → Cmd Store Page
get_page i s = (elim (get_elem? s.pool.pages i) [ none ↦ fault | some p ↦ ok p ], s)

unfoldable pub put_pool : (Pool → Pool) → Cmd Store (Unit {0})
put_pool f = puts (λ s. record s { pool = f s.pool })

-- A write to some members of page `i`.
unfoldable pub modify_page : ℕ → (Page → Page) → Cmd Store (Unit {0})
unfolding get_page put_pool
modify_page i f = do page ← get_page i; put_pool (λ p. record p { pages = set p.pages i (f page) })

-- The same through a page pointer that may be null.
unfoldable pub modify_page? : Option ℕ → (Page → Page) → Cmd Store (Unit {0})
unfolding modify_page
modify_page? none f = pure tt
modify_page? (some i) f = modify_page i f

unfoldable pub add_to_free_page_list : ℕ → Cmd Store (Unit {0})
unfolding modify_page modify_page? get_page put_pool
add_to_free_page_list i = do
  page ← get_page i
  first ← gets (λ s. s.pool.first_page_with_free_slot)
  when (not page.on_free_page_list) (do
    modify_page i (λ p. record p { previous_free_page = none })
    modify_page i (λ p. record p { next_free_page = first })
    modify_page? first (λ p. record p { previous_free_page = some i })
    put_pool (λ p. record p { first_page_with_free_slot = some i })
    modify_page i (λ p. record p { on_free_page_list = true }))

unfoldable pub remove_from_free_page_list : ℕ → Cmd Store (Unit {0})
unfolding modify_page modify_page? get_page put_pool
remove_from_free_page_list i = do
  page ← get_page i
  when page.on_free_page_list (do
    elim page.previous_free_page [
      | some before ↦ modify_page before (λ p. record p { next_free_page = page.next_free_page })
      | none ↦ put_pool (λ p. record p { first_page_with_free_slot = page.next_free_page })
    ]
    modify_page? page.next_free_page
        (λ p. record p { previous_free_page = page.previous_free_page })
    modify_page i (λ p. record p { previous_free_page = none })
    modify_page i (λ p. record p { next_free_page = none })
    modify_page i (λ p. record p { on_free_page_list = false }))

-- The part of `allocate` behind the choice of the page.
unfoldable pub fill_slot : Order → ℕ → Cmd Store Ptr
unfolding modify_page get_page put_pool remove_from_free_page_list
fill_slot order i = do
  page ← get_page i
  let index = page.first_free
  let p = page.storage + index * order_size
  puts (λ s. record s { heap = update s.heap p (some order) })
  next ← lift (elim (get_elem? page.next_free index) [ none ↦ fault | some n ↦ ok n ])
  modify_page i (λ p. record p {
    first_free = next;
    free_count = sub_u64 p.free_count 1;
    is_occupied = set p.is_occupied index true;
  })
  page ← get_page i
  when (page.free_count == 0) (remove_from_free_page_list i)
  put_pool (λ p. record p { live_order_count = add_u64 p.live_order_count 1 })
  pure p

module _ (system : System) where
  -- The constructor of a page.
  unfoldable pub map_page : Cmd Store Page
  unfolding put_pool make_page
  map_page = do
    throw_when (system.system_page_size == 0 || not (page_size % system.system_page_size == 0))
        runtime_error
    call ← gets (λ s. s.pool.mmap_calls)
    put_pool (λ p. record p { mmap_calls = p.mmap_calls + 1 })
    elim (system.mmap call) [ none ↦ throw system_error | some a ↦ pure (make_page a) ]

  unfoldable pub create_page : Cmd Store ℕ
  unfolding map_page put_pool find_page add_to_free_page_list
  create_page = do
    page ← map_page
    known ← gets (λ s. find_page page.storage s.pool.page_index)
    elim known [ none ↦ pure tt | some _ ↦ throw logic_error ]
    i ← gets (λ s. length s.pool.pages)
    put_pool (λ p. record p {
      pages = p.pages ++ page ∷ [];
      page_index = (page.storage, i) ∷ p.page_index;
    })
    add_to_free_page_list i
    pure i

  unfoldable pub allocate : Order → Cmd Store Ptr
  unfolding create_page fill_slot
  allocate order = do
    first ← gets (λ s. s.pool.first_page_with_free_slot)
    i ← elim first [ none ↦ create_page | some i ↦ pure i ]
    fill_slot order i

  -- `while (pages.size() < neededPages) createPage();`, each round making one page.
  unfoldable pub create_pages : ℕ → Cmd Store (Unit {0})
  unfolding create_page
  create_pages zero = pure tt
  create_pages (suc n) = do _ ← create_page; create_pages n

  unfoldable pub reserve : ℕ → Cmd Store (Unit {0})
  unfolding create_pages
  reserve order_count = do
    have ← gets (λ s. length s.pool.pages)
    let needed = sub_u64 (add_u64 order_count slots_per_page) 1 / slots_per_page
    create_pages (needed - have)

unfoldable pub release : Ptr → Cmd Store (Unit {0})
unfolding get_page modify_page put_pool find_page add_to_free_page_list
release p = do
  throw_when (p == null) invalid_argument
  let base = p / page_size * page_size
  known ← gets (λ s. find_page base s.pool.page_index)
  i ← elim known [ none ↦ throw invalid_argument | some i ↦ pure i ]
  page ← get_page i
  let offset = p - base
  throw_when (not (offset % order_size == 0)) invalid_argument
  let index = offset / order_size
  taken ←
      (if leb slots_per_page index
        then pure false
        else lift (elim (get_elem? page.is_occupied index) [ none ↦ fault | some b ↦ ok b ]))
  throw_when (not taken) invalid_argument
  puts (λ s. record s { heap = update s.heap p none })
  modify_page i (λ page. record page {
    is_occupied = set page.is_occupied index false;
    next_free = set page.next_free index page.first_free;
    first_free = index;
  })
  page ← get_page i
  when (page.free_count == 0) (add_to_free_page_list i)
  modify_page i (λ page. record page { free_count = add_u64 page.free_count 1 })
  put_pool (λ p. record p { live_order_count = sub_u64 p.live_order_count 1 })
