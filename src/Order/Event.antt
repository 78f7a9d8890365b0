-- ===== src/Order/Event.antt =====
-- src/order/order_event.cpp and include/lob/order/order_event.hpp: the commands that a caller
-- submits. The variant is a data type, its index the event type.
use leka.Base.Outcome.{Outcome, ok, throws, logic_error}
use leka.Types.{OrderId, Price, Quantity, Timestamp, OrderSide, OrderType}

pub data OrderEventType : Type 0 where
  new_type cancel_type reduce_type : OrderEventType

pub record NewOrder : Type 0 where
  pub order_id : OrderId
  pub price : Price
  pub quantity : Quantity
  pub timestamp : Timestamp
  pub order_side : OrderSide
  pub order_type : OrderType

pub record CancelOrder : Type 0 where
  pub order_id : OrderId

pub record ReduceOrder : Type 0 where
  pub order_id : OrderId
  pub new_quantity : Quantity

pub data OrderEvent : Type 0 where
  new : NewOrder → OrderEvent
  cancel : CancelOrder → OrderEvent
  reduce : ReduceOrder → OrderEvent

unfoldable pub get_event_type : OrderEvent → OrderEventType
get_event_type (new _) = new_type
get_event_type (cancel _) = cancel_type
get_event_type (reduce _) = reduce_type

unfoldable pub get_new_order : OrderEvent → Outcome NewOrder
get_new_order (new o) = ok o
get_new_order _ = throws logic_error

unfoldable pub get_cancel_order : OrderEvent → Outcome CancelOrder
get_cancel_order (cancel o) = ok o
get_cancel_order _ = throws logic_error

unfoldable pub get_reduce_order : OrderEvent → Outcome ReduceOrder
get_reduce_order (reduce o) = ok o
get_reduce_order _ = throws logic_error
