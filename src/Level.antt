-- ===== src/Level.antt =====
-- src/book/price_level.cpp and include/lob/book/price_level.hpp: the orders resting at one price,
-- a doubly linked queue whose links stand in the orders. `this` is the level's own address. Each
-- throw of these functions comes before their first write, so an exception leaves all as it was.
pub mod Segment
pub mod Invariant
pub mod Add
mod Bridge
pub mod Remove
pub mod Fill
use leka.Base.{
  ℕ, ◌-◌, Bool, true, false, not, Option, none, some, ◌==◌, ltb, if◌then◌else◌, ◌≡◌, ◌≢◌, refl,
  test_of_ne, arith,
}
use leka.Base.Outcome.{Outcome, ok, invalid_argument, overflow_error, ◌>>=◌, ◌>>◌, throw_if}
use leka.Types.{Price, Quantity, u64_max, add_u64, sub_u64, add_quantity}
use leka.Order.{Ptr, null, LevelRef, is_level, Order, is_fully_filled}
use leka.Memory.{Heap, update, load, modify, modify-ok}

pub record Level : Type 0 where
  pub price : Price
  pub head_order : Ptr
  pub tail_order : Ptr
  pub count : ℕ
  pub total_quantity : Quantity

abbrev pub make_level : Price → Level
make_level p = record {
  price = p;
  head_order = null;
  tail_order = null;
  count = 0;
  total_quantity = 0;
}

abbrev pub set_previous : Ptr → Order → Order
set_previous p o = record o { previous_order = p }

abbrev pub set_next : Ptr → Order → Order
set_next p o = record o { next_order = p }

abbrev pub set_level : Option LevelRef → Order → Order
set_level l o = record o { price_level = l }

abbrev pub has_level : Order → Bool
has_level o = elim o.price_level [ none ↦ false | some _ ↦ true ]

-- `if (p != nullptr) p->...;`
unfoldable pub modify_unless_null : Ptr → (Order → Order) → Heap → Outcome Heap
modify_unless_null p f h = if p == null then ok h else modify p f h

pub modify_unless_null-null :
    (p : Ptr) (f : Order → Order) (h : Heap) → p ≡ null → modify_unless_null p f h ≡ ok h
unfolding modify_unless_null
modify_unless_null-null p f h e = ground arith

pub modify_unless_null-ok :
    (p : Ptr) (f : Order → Order) (h : Heap) {o : Order}
    → p ≢ null
    → h p ≡ some o
    → modify_unless_null p f h ≡ ok (update h p (some (f o)))
unfolding modify_unless_null
modify_unless_null-ok p f h n e = rw (test_of_ne p null n, modify-ok h p f e) refl

-- The checks of `addOrder`, in their order.
unfoldable pub check_add : Level → Ptr → Heap → Outcome Order
check_add level p h = do
  throw_if (p == null) invalid_argument
  o ← load p h
  throw_if (not (o.price == level.price)) invalid_argument
  throw_if (has_level o) invalid_argument
  throw_if (is_fully_filled o) invalid_argument
  throw_if (ltb (u64_max - level.total_quantity) o.remaining_quantity) overflow_error
  ok o

unfoldable pub add_order : (this : LevelRef) → Level → Ptr → Heap → Outcome (Level × Heap)
add_order this level p h = do
  _ ← check_add level p h
  h ← modify p (set_previous level.tail_order) h
  h ← modify p (set_next null) h
  h ← modify_unless_null level.tail_order (set_next p) h
  let head = if level.tail_order == null then p else level.head_order
  o ← load p h
  h ← modify p (set_level (some this)) h
  ok (
    record level {
      head_order = head;
      tail_order = p;
      count = add_u64 level.count 1;
      total_quantity = add_quantity level.total_quantity o.remaining_quantity;
    },
    h,
  )

-- The checks of `removeOrder`.
unfoldable pub check_remove : (this : LevelRef) → Ptr → Heap → Outcome Order
check_remove this p h = do
  throw_if (p == null) invalid_argument
  o ← load p h
  throw_if (not (is_level o.price_level this)) invalid_argument
  ok o

unfoldable pub remove_order : (this : LevelRef) → Level → Ptr → Heap → Outcome (Level × Heap)
remove_order this level p h = do
  o ← check_remove this p h
  let previous = o.previous_order
  let next = o.next_order
  h ← modify_unless_null previous (set_next next) h
  let head = if previous == null then next else level.head_order
  h ← modify_unless_null next (set_previous previous) h
  let tail = if next == null then previous else level.tail_order
  o ← load p h
  h ← modify p (set_previous null) h
  h ← modify p (set_next null) h
  h ← modify p (set_level none) h
  ok (
    record level {
      head_order = head;
      tail_order = tail;
      count = sub_u64 level.count 1;
      total_quantity = sub_u64 level.total_quantity o.remaining_quantity;
    },
    h,
  )

unfoldable pub reduce_total_quantity : Quantity → Level → Outcome Level
reduce_total_quantity q level = do
  throw_if (ltb level.total_quantity q) invalid_argument
  ok (record level { total_quantity = level.total_quantity - q })

abbrev pub is_empty : Level → Bool
is_empty level = level.count == 0
