-- ===== src/Engine.antt =====
-- src/matching/matching_engine.cpp and include/lob/matching: the events of a caller, and the loop
-- that matches an incoming order against the best opposing level. The engine's state is the book,
-- the sequence counter and the caller's buffer of executions.
pub mod Accounting
pub mod Events
pub mod Guards
pub mod Priority
pub mod Best
pub mod Round
pub mod Spread
pub mod Steps
pub mod Matching
pub mod Arrivals
pub mod Orders
pub mod Handling
pub mod Session
use leka.Base.{
  ℕ, zero, suc, ◌-◌, Bool, true, false, not, ◌&&◌, ◌||◌, Option, none, some, List, [], ◌∷◌, ◌++◌,
  ◌==◌, ltb, if◌then◌else◌, min, length,
}
use leka.Base.Outcome.{Outcome, ok, throws, fault, out_of_fuel, invalid_argument, logic_error}
use leka.Base.State.{Cmd, pure, lift, gets, puts, throw_when, when, zoom, ◌>>=◌, ◌>>◌}
use leka.Types.{
  OrderId, Price, Quantity, Timestamp, SequenceNumber, OrderSide, buy, sell, OrderType, limit,
  market, is_limit_type, order_id_is_valid, price_is_valid, quantity_is_valid, timestamp_is_valid,
}
use leka.Order.{Ptr, null, LevelRef, Order, reduce_remaining_quantity, is_fully_filled}
use leka.Order.Event.{OrderEvent, new, cancel, reduce}
use leka.Order.IdGenerator.{SequenceNumberGenerator, generate_sequence_number}
use leka.Memory.{update}
use leka.Level.{Level, reduce_total_quantity}
use leka.Ladder.{best}
use leka.Pool.{System}
use leka.Book.{
  Book, heap_of, ladder_of, put_heap, reads, read_order, read_level, write_level, find,
  remove_order, cancel_order, reduce_order,
}
use leka.Book.Add.{add_resting_remainder}

pub record Execution : Type 0 where
  pub incoming_order_id : OrderId
  pub resting_order_id : OrderId
  pub execution_price : Price
  pub execution_quantity : Quantity

-- `Execution::isValid`
unfoldable pub execution_is_valid : Execution → Bool
execution_is_valid e =
    order_id_is_valid e.incoming_order_id
    && order_id_is_valid e.resting_order_id
    && price_is_valid e.execution_price
    && quantity_is_valid e.execution_quantity

pub record Engine : Type 0 where
  pub book : Book
  pub generator : SequenceNumberGenerator
  pub out : List Execution

-- A command of the book.
abbrev pub on_book : {A : Type 0} → Cmd Book A → Cmd Engine A
on_book m = zoom (λ e. e.book) (λ b e. record e { book = b }) m

abbrev pub emplace_back : Execution → Cmd Engine (Unit {0})
emplace_back x = puts (λ e. record e { out = e.out ++ x ∷ [] })

abbrev pub opposite : OrderSide → OrderSide
opposite buy = sell
opposite sell = buy

-- The address of a best level, with what it holds.
abbrev pub locate : OrderSide → Outcome (Option (ℕ × Level)) → Outcome (Option (LevelRef × Level))
locate side (ok none) = ok none
locate side (ok (some (i, l))) = ok (some (record { side = side; index = i }, l))
locate side (throws e) = throws e
locate side fault = fault
locate side out_of_fuel = out_of_fuel

-- `getBestAsk` for a buyer, `getBestBid` for a seller.
unfoldable pub best_opposing : OrderSide → Cmd Book (Option (LevelRef × Level))
best_opposing side = reads (λ b. locate (opposite side) (best (ladder_of (opposite side) b)))

-- The test by which a limit order stops at a price that it does not accept.
unfoldable pub stops_at : OrderSide → OrderType → (limit_price best_price : Price) → Bool
stops_at side market limit_price best_price = false
stops_at buy limit limit_price best_price = ltb limit_price best_price
stops_at sell limit limit_price best_price = ltb best_price limit_price

-- The checks before an order is matched. Those of lines 97 to 102, for a side other than BUY and SELL
-- and a type other than LIMIT and MARKET, have no case here: the data types have no other values.
unfoldable pub check_incoming :
    OrderId → Price → Quantity → Timestamp → OrderType → Cmd Engine (Unit {0})
check_incoming id price quantity timestamp type = do
  throw_when
      (not (order_id_is_valid id)
        || not (quantity_is_valid quantity)
        || not (timestamp_is_valid timestamp))
      invalid_argument
  throw_when (is_limit_type type && not (price_is_valid price)) invalid_argument
  throw_when (not (is_limit_type type) && price_is_valid price) invalid_argument

-- `sequenceNumberGenerator.generate()`
unfoldable pub next_sequence : Cmd Engine SequenceNumber
next_sequence = do
  g ← gets (λ e. e.generator)
  (n, g') ← lift (generate_sequence_number g)
  puts (λ e. record e { generator = g' })
  pure n

module _ (hash : ℕ → ℕ) where
  -- The lines behind `emplace_back`: the resting order and its level, or its removal.
  unfoldable pub settle_fill : LevelRef → Ptr → Order → Quantity → Cmd Book (Unit {0})
  settle_fill r p o quantity = do
    o' ← lift (reduce_remaining_quantity quantity o)
    puts (λ b. put_heap (update (heap_of b) p (some o')) b)
    (if is_fully_filled o' then remove_order hash p else (do
      level ← read_level r
      level' ← lift (reduce_total_quantity quantity level)
      write_level r level'))

  -- The loop's body from `restingOrder` on. The answer is what is left of the incoming order.
  unfoldable pub execute : OrderId → LevelRef → Level → (remaining : ℕ) → Cmd Engine ℕ
  execute id r level remaining = do
    throw_when (level.head_order == null) logic_error
    let p = level.head_order
    o ← on_book (read_order p)
    let quantity = min remaining o.remaining_quantity
    emplace_back (record {
      incoming_order_id = id;
      resting_order_id = o.order_id;
      execution_price = o.price;
      execution_quantity = quantity;
    })
    on_book (settle_fill r p o quantity)
    pure (remaining - quantity)

  -- One round at the best opposing level, if there is one; `rest` are the rounds that follow.
  unfoldable pub match_best :
      OrderId
      → Price
      → OrderSide
      → OrderType
      → (remaining : ℕ) → (rest : ℕ → Cmd Engine ℕ) → Option (LevelRef × Level)
      → Cmd Engine ℕ
  match_best id price side type remaining rest none = pure remaining
  match_best id price side type remaining rest (some (r, level)) =
      if stops_at side type price level.price
      then pure remaining
      else (execute id r level remaining >>= rest)

  -- The matching loop. The answer is what is left of the incoming order.
  unfoldable pub match_loop :
      (fuel : ℕ) → OrderId → Price → OrderSide → OrderType → (remaining : ℕ) → Cmd Engine ℕ
  match_loop zero id price side type remaining = lift out_of_fuel
  match_loop (suc fuel) id price side type remaining =
      let rest = match_loop fuel id price side type in
      if remaining == 0
      then pure remaining
      else (on_book (best_opposing side) >>= match_best id price side type remaining rest)

  module _ (system : System) where
    -- Each round but the last takes an order off the book or fills the incoming one.
    abbrev pub match_fuel : Engine → ℕ
    match_fuel e = suc (suc e.book.store.pool.live_order_count)

    -- What is left of a limit order rests in the book.
    unfoldable pub rest_remainder :
        OrderId
        → Price
        → Quantity
        → Timestamp
        → OrderSide
        → OrderType
        → SequenceNumber
        → (remaining : ℕ) → Cmd Engine (Unit {0})
    rest_remainder id price quantity timestamp side type sequence remaining =
        when (not (remaining == 0) && is_limit_type type) (do
          _ ← on_book (
              add_resting_remainder hash system id price quantity remaining timestamp side limit
                sequence)
          pure tt)

    unfoldable pub match_order :
        OrderId → Price → Quantity → Timestamp → OrderSide → OrderType → Cmd Engine (Unit {0})
    match_order id price quantity timestamp side type = do
      check_incoming id price quantity timestamp type
      p ← on_book (find hash id)
      throw_when (not (p == null)) logic_error
      sequence ← next_sequence
      fuel ← gets match_fuel
      remaining ← match_loop fuel id price side type quantity
      rest_remainder id price quantity timestamp side type sequence remaining

    -- The switch of `processEvent`.
    unfoldable pub dispatch : OrderEvent → Cmd Engine ℕ
    dispatch (new o) = do
      match_order o.order_id o.price o.quantity o.timestamp o.order_side o.order_type
      gets (λ e. length e.out)
    dispatch (cancel c) = do
      throw_when (not (order_id_is_valid c.order_id)) invalid_argument
      _ ← on_book (cancel_order hash c.order_id)
      pure 0
    dispatch (reduce c) = do
      throw_when (not (order_id_is_valid c.order_id)) invalid_argument
      _ ← on_book (reduce_order hash c.order_id c.new_quantity)
      pure 0

    -- `processEvent` with a buffer; the answer is the number of executions.
    unfoldable pub process_event : OrderEvent → Cmd Engine ℕ
    process_event event = do puts (λ e. record e { out = [] }); dispatch event

    -- The convenience form: the caller sees the executions only if nothing is thrown.
    unfoldable pub process_event_by_value : OrderEvent → Cmd Engine (List Execution)
    process_event_by_value event = do _ ← process_event event; gets (λ e. e.out)

    -- `processOrder` with a buffer.
    unfoldable pub process_order :
        OrderId → Price → Quantity → Timestamp → OrderSide → OrderType → Cmd Engine ℕ
    process_order id price quantity timestamp side type = do
      puts (λ e. record e { out = [] })
      match_order id price quantity timestamp side type
      gets (λ e. length e.out)
