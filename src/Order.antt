-- ===== src/Order.antt =====
-- src/order/order.cpp and include/lob/order/order.hpp: an order, resting or incoming, with the
-- links of its price level's queue.
pub mod Event
pub mod IdGenerator
pub mod Generated
use leka.Base.{
  ℕ, ◌-◌, Bool, true, false, not, ◌&&◌, ◌||◌, Option, none, some, ltb, leb, ◌==◌, ==_iff, ◌≡◌, refl,
}
use leka.Base.Outcome.{Outcome, ok, throws, invalid_argument, ◌>>=◌, ◌>>◌, throw_if}
use leka.Types.{
  OrderId, Price, Quantity, Timestamp, SequenceNumber, OrderSide, OrderType, order_id_is_valid,
  price_is_valid, quantity_is_valid, timestamp_is_valid, sequence_number_is_valid, is_buy_side,
  is_limit_type, same_side, same_side_self,
}

-- The address of an order; 0 is nullptr.
abbrev pub Ptr : Type 0
Ptr = ℕ

abbrev pub null : Ptr
null = 0

-- The address of a price level: a ladder never moves its levels, so a side and an index name one.
pub record LevelRef : Type 0 where
  pub side : OrderSide
  pub index : ℕ

-- Whether an order's level pointer (`none` is nullptr) is the given level.
abbrev pub is_level : Option LevelRef → LevelRef → Bool
is_level none l = false
is_level (some k) l = same_side k.side l.side && k.index == l.index

pub is_level_self : (l : LevelRef) → is_level (some l) l ≡ true
is_level_self l = rw (same_side_self l.side, (==_iff l.index l.index).1 refl) refl

pub record Order : Type 0 where
  pub order_id : OrderId
  pub price : Price
  pub original_quantity : Quantity
  pub remaining_quantity : Quantity
  pub timestamp : Timestamp
  pub order_side : OrderSide
  pub order_type : OrderType
  pub sequence_number : SequenceNumber
  pub next_order : Ptr
  pub previous_order : Ptr
  pub price_level : Option LevelRef

-- The constructor with explicit original and remaining quantities.
abbrev pub make_order :
    OrderId
    → Price
    → Quantity
    → Quantity
    → Timestamp
    → OrderSide
    → OrderType
    → SequenceNumber
    → Order
make_order id p original remaining t side type n = record {
  order_id = id;
  price = p;
  original_quantity = original;
  remaining_quantity = remaining;
  timestamp = t;
  order_side = side;
  order_type = type;
  sequence_number = n;
  next_order = null;
  previous_order = null;
  price_level = none;
}

abbrev pub is_buy : Order → Bool
is_buy o = is_buy_side o.order_side

abbrev pub is_sell : Order → Bool
is_sell o = not (is_buy_side o.order_side)

abbrev pub is_limit : Order → Bool
is_limit o = is_limit_type o.order_type

abbrev pub is_market : Order → Bool
is_market o = not (is_limit_type o.order_type)

abbrev pub is_fully_filled : Order → Bool
is_fully_filled o = o.remaining_quantity == 0

unfoldable pub order_is_valid : Order → Bool
order_is_valid o =
    order_id_is_valid o.order_id
    && quantity_is_valid o.original_quantity
    && leb o.remaining_quantity o.original_quantity
    && timestamp_is_valid o.timestamp
    && sequence_number_is_valid o.sequence_number
    && (is_buy o || is_sell o)
    && (is_limit o || is_market o)
    && (is_market o || price_is_valid o.price)

unfoldable pub reduce_remaining_quantity : Quantity → Order → Outcome Order
reduce_remaining_quantity q o = do
  throw_if (ltb o.remaining_quantity q) invalid_argument
  ok (record o { remaining_quantity = o.remaining_quantity - q })

unfoldable pub set_remaining_quantity : Quantity → Order → Outcome Order
set_remaining_quantity q o = do
  throw_if (not (quantity_is_valid q)) invalid_argument
  throw_if (ltb o.original_quantity q) invalid_argument
  ok (record o { remaining_quantity = q })
