-- ===== src/Types.antt =====
-- The value types of include/lob/types and the two enumerations of include/lob/order. Each wrapper
-- class holds one uint64_t; the model keeps the number and states its range where it matters.
use leka.Base.{ℕ, ◌+◌, ◌-◌, ◌%◌, ◌^◌, Bool, true, false, not, ◌==◌, ◌≡◌, refl}

-- The number of values of a uint64_t, and the greatest of them.
abbrev pub u64_size : ℕ
u64_size = 2 ^ 64

abbrev pub u64_max : ℕ
u64_max = 2 ^ 64 - 1

-- uint64_t addition and subtraction.
abbrev pub add_u64 : ℕ → ℕ → ℕ
add_u64 a b = (a + b) % u64_size

abbrev pub sub_u64 : ℕ → ℕ → ℕ
sub_u64 a b = (a + u64_size - b) % u64_size

abbrev pub OrderId : Type 0
OrderId = ℕ

abbrev pub Price : Type 0
Price = ℕ

abbrev pub Quantity : Type 0
Quantity = ℕ

abbrev pub Timestamp : Type 0
Timestamp = ℕ

abbrev pub SequenceNumber : Type 0
SequenceNumber = ℕ

abbrev pub order_id_is_valid : OrderId → Bool
order_id_is_valid id = not (id == 0)

abbrev pub price_is_valid : Price → Bool
price_is_valid price = not (price == 0)

abbrev pub quantity_is_valid : Quantity → Bool
quantity_is_valid quantity = not (quantity == 0)

abbrev pub timestamp_is_valid : Timestamp → Bool
timestamp_is_valid timestamp = not (timestamp == 0)

abbrev pub sequence_number_is_valid : SequenceNumber → Bool
sequence_number_is_valid n = not (n == 0)

-- `Quantity::operator+` adds as a uint64_t does.
abbrev pub add_quantity : Quantity → Quantity → Quantity
add_quantity a b = add_u64 a b

pub data OrderSide : Type 0 where
  buy sell : OrderSide

pub data OrderType : Type 0 where
  limit market : OrderType

abbrev pub is_buy_side : OrderSide → Bool
is_buy_side buy = true
is_buy_side sell = false

abbrev pub is_limit_type : OrderType → Bool
is_limit_type limit = true
is_limit_type market = false

abbrev pub same_side : OrderSide → OrderSide → Bool
same_side buy buy = true
same_side sell sell = true
same_side _ _ = false

pub same_side_self : (s : OrderSide) → same_side s s ≡ true
same_side_self buy = refl
same_side_self sell = refl
