-- ===== src/Book.antt =====
-- src/book/order_book.cpp and include/lob/book/order_book.hpp: the resting orders and the three
-- structures that refer to them. A level is reached through its address (a side and an index); the
-- memory of the orders stands in the pool's store.
pub mod Construct
pub mod Add
pub mod Snapshot
pub mod Shown
pub mod Invariant
pub mod Unlinking
pub mod Places
pub mod Departure
pub mod Removal
pub mod Update
pub mod Arrival
pub mod Same
pub mod Rollback
pub mod Linking
pub mod Registering
pub mod Addition
pub mod Opening
pub mod Resizing
pub mod Shrinking
pub mod Reduction
pub mod Uncrossed
use leka.Base.{ℕ, ◌-◌, Bool, true, false, not, ◌||◌, Option, none, some, ◌==◌, ltb, if◌then◌else◌}
use leka.Base.Outcome.{
  Outcome, ok, throws, fault, out_of_fuel, Exception, invalid_argument, logic_error,
}
use leka.Base.State.{Cmd, pure, lift, gets, puts, throw, throw_when, when, catch, zoom, ◌>>=◌, ◌>>◌}
use leka.Types.{
  OrderId, Price, Quantity, Timestamp, SequenceNumber, OrderSide, buy, sell, OrderType, is_buy_side,
  is_limit_type, quantity_is_valid,
}
use leka.Order.{
  Ptr, null, LevelRef, Order, make_order, is_buy, order_is_valid, set_remaining_quantity,
}
use leka.Memory.{Heap, load, update}
use leka.Level
use leka.Level.{Level, is_empty, reduce_total_quantity}
use leka.Ladder.{
  Ladder, make_ladder, level_at, get_level, put_level, mark_occupied, mark_empty, best,
}
use leka.Index
use leka.Index.{Index, empty_index, find_order}
use leka.Pool
use leka.Pool.{Store, System, empty_pool, allocate, release}

pub record Book : Type 0 where
  pub store : Store
  pub index : Index
  pub bids : Ladder
  pub asks : Ladder

abbrev pub heap_of : Book → Heap
heap_of b = b.store.heap

abbrev pub by_side {ℓ} : {A : Type ℓ} → OrderSide → A → A → A
by_side buy for_buy for_sell = for_buy
by_side sell for_buy for_sell = for_sell

abbrev pub ladder_of : OrderSide → Book → Ladder
ladder_of side b = by_side side b.bids b.asks

abbrev pub put_ladder : OrderSide → Ladder → Book → Book
put_ladder side l b = record b { bids = by_side side l b.bids; asks = by_side side b.asks l }

abbrev pub put_heap : Heap → Book → Book
put_heap h b = record b { store = record b.store { heap = h } }

-- A command of the pool.
abbrev pub on_store : {A : Type 0} → Cmd Store A → Cmd Book A
on_store m = zoom (λ b. b.store) (λ s b. record b { store = s }) m

-- A command of the index.
abbrev pub on_index : {A : Type 0} → Cmd Index A → Cmd Book A
on_index m = zoom (λ b. b.index) (λ i b. record b { index = i }) m

-- A read that can fault.
abbrev pub reads : {A : Type 0} → (Book → Outcome A) → Cmd Book A
reads f b = (f b, b)

unfoldable pub read_order : Ptr → Cmd Book Order
read_order p = reads (λ b. load p (heap_of b))

unfoldable pub read_level : LevelRef → Cmd Book Level
read_level r = reads (λ b. get_level (ladder_of r.side b) r.index)

unfoldable pub write_level : LevelRef → Level → Cmd Book (Unit {0})
write_level r level = puts (λ b. put_ladder r.side (put_level (ladder_of r.side b) r.index level) b)

-- A call on a level that writes the level and the orders' links, or throws having written nothing.
unfoldable pub on_level : LevelRef → (Level → Heap → Outcome (Level × Heap)) → Cmd Book (Unit {0})
unfolding read_level write_level
on_level r f = do
  level ← read_level r
  (level', h) ← reads (λ b. f level (heap_of b))
  write_level r level'
  puts (put_heap h)

-- A call on a ladder that writes it, or throws having written nothing.
unfoldable pub on_ladder : OrderSide → (Ladder → Outcome Ladder) → Cmd Book (Unit {0})
on_ladder side f = do l ← reads (λ b. f (ladder_of side b)); puts (put_ladder side l)

-- The order leaves its level, and the level the set of occupied ones if it was the last there. The
-- lines stand in `removeOrder` and in the handler of `addOrderWithQuantities`.
unfoldable pub unlink_order : Ptr → LevelRef → OrderSide → Price → Cmd Book (Unit {0})
unfolding on_level read_level write_level on_ladder
unlink_order p r side price = do
  on_level r (λ l h. Level.remove_order r l p h)
  l ← read_level r
  when (is_empty l) (on_ladder side (mark_empty price))

module _ (hash : ℕ → ℕ) where
  unfoldable pub find : OrderId → Cmd Book Ptr
  find id = reads (λ b. find_order hash id b.index)

  -- `removeOrder`
  unfoldable pub remove_order : Ptr → Cmd Book (Unit {0})
  unfolding find read_order unlink_order
  remove_order p = do
    throw_when (p == null) invalid_argument
    o ← read_order p
    q ← find o.order_id
    throw_when (not (q == p)) logic_error
    level ← elim o.price_level [ none ↦ throw logic_error | some level ↦ pure level ]
    unlink_order p level o.order_side o.price
    i ← reads (λ b. Index.remove_order hash p (heap_of b) b.index)
    puts (λ b. record b { index = i })
    on_store (release p)

  unfoldable pub cancel_order : OrderId → Cmd Book Bool
  unfolding find remove_order
  cancel_order id = do
    p ← find id
    (if p == null then pure false else (do remove_order p; pure true))

  -- The last lines of `reduceOrder`, behind its checks.
  unfoldable pub shrink_order : Ptr → Order → Quantity → Cmd Book (Unit {0})
  unfolding read_order read_level write_level
  shrink_order p o new_quantity = do
    o' ← lift (set_remaining_quantity new_quantity o)
    puts (λ b. put_heap (update (heap_of b) p (some o')) b)
    level ← elim o.price_level [ none ↦ lift fault | some level ↦ pure level ]
    l ← read_level level
    l' ← lift (reduce_total_quantity (o.remaining_quantity - new_quantity) l)
    write_level level l'

  unfoldable pub reduce_order : OrderId → Quantity → Cmd Book Bool
  unfolding find read_order shrink_order
  reduce_order id target = do
    p ← find id
    (if p == null then pure false else (do
      o ← read_order p
      throw_when (target == 0 || ltb o.remaining_quantity target) invalid_argument
      when (not (target == o.remaining_quantity)) (shrink_order p o target)
      pure true))
