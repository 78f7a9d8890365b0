-- ===== src/Book/Add.antt =====
-- The insertion of a resting order: `addOrderWithQuantities` and the two functions that call it.
-- Its try block is cut where `addedToLevel` is set, since the handler does more from there on.
use leka.Base.{ℕ, Bool, not, ◌||◌, ltb}
use leka.Base.Outcome.{invalid_argument}
use leka.Base.State.{Cmd, pure, gets, puts, throw, throw_when, when, catch, ◌>>=◌, ◌>>◌}
use leka.Types.{
  OrderId, Price, Quantity, Timestamp, SequenceNumber, OrderSide, OrderType, is_limit_type,
  quantity_is_valid,
}
use leka.Order.{Ptr, LevelRef, make_order, order_is_valid}
use leka.Level
use leka.Level.{Level, is_empty}
use leka.Ladder.{level_at, mark_occupied}
use leka.Index
use leka.Index.Add
use leka.Pool
use leka.Pool.{System, allocate, release}
use leka.Book.{
  Book, heap_of, ladder_of, on_store, on_index, reads, read_order, read_level, write_level,
  on_level, on_ladder, unlink_order,
}

-- What the first part of the try block has found: the level, and whether it was empty.
pub record Linked : Type 0 where
  pub level : LevelRef
  pub was_empty : Bool

-- The try block up to `addedToLevel = true`.
unfoldable pub link_order : Ptr → Cmd Book Linked
unfolding read_order on_level read_level write_level order_is_valid
link_order p = do
  o ← read_order p
  throw_when (not (order_is_valid o)) invalid_argument
  (index, level) ← reads (λ b. level_at (ladder_of o.order_side b) o.price)
  let r : LevelRef = record { side = o.order_side; index = index }
  on_level r (λ l h. Level.add_order r l p h)
  pure (record { level = r; was_empty = is_empty level })

module _ (hash : ℕ → ℕ) (system : System) where
  -- The rest of the try block.
  unfoldable pub register_order : Ptr → Price → Linked → Cmd Book (Unit {0})
  unfolding on_ladder
  register_order p price linked = do
    when linked.was_empty (on_ladder linked.level.side (mark_occupied price))
    h ← gets heap_of
    on_index (Add.add_order hash p h)

  unfoldable pub add_order_with_quantities :
      OrderId
      → Price
      → (original remaining : Quantity) → Timestamp
      → OrderSide
      → OrderType
      → SequenceNumber
      → Cmd Book Ptr
  unfolding link_order unlink_order register_order
  add_order_with_quantities id price original remaining timestamp side type sequence = do
    throw_when (not (is_limit_type type)) invalid_argument
    throw_when
        (not (quantity_is_valid original)
          || not (quantity_is_valid remaining)
          || ltb original remaining)
        invalid_argument
    p ←
        on_store
          (allocate system (make_order id price original remaining timestamp side type sequence))
    linked ← catch (link_order p) (λ e. do on_store (release p); throw e)
    catch (register_order p price linked)
        (λ e. do unlink_order p linked.level linked.level.side price; on_store (release p); throw e)
    pure p

  -- `addOrder`
  unfoldable pub add_order :
      OrderId → Price → Quantity → Timestamp → OrderSide → OrderType → SequenceNumber → Cmd Book Ptr
  unfolding add_order_with_quantities
  add_order id price quantity timestamp side type sequence =
      add_order_with_quantities id price quantity quantity timestamp side type sequence

  unfoldable pub add_resting_remainder :
      OrderId
      → Price
      → (original remaining : Quantity) → Timestamp
      → OrderSide
      → OrderType
      → SequenceNumber
      → Cmd Book Ptr
  unfolding add_order_with_quantities
  add_resting_remainder id price original remaining timestamp side type sequence =
      add_order_with_quantities id price original remaining timestamp side type sequence

-- `reserveOrderCapacity`
unfoldable pub reserve_order_capacity : (hash : ℕ → ℕ) → System → ℕ → Cmd Book (Unit {0})
reserve_order_capacity hash system order_count = do
  on_store (Pool.reserve system order_count)
  i ← reads (λ b. Index.reserve hash order_count b.index)
  puts (λ b. record b { index = i })
