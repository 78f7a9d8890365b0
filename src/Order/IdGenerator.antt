-- ===== src/Order/IdGenerator.antt =====
-- src/order/order_id_generator.cpp and src/matching/sequence_number_generator.cpp: two counters
-- that throw at their last value. The state is the last value handed out.
use leka.Base.{ℕ, ◌==◌}
use leka.Base.Outcome.{Outcome, ok, overflow_error, ◌>>◌, throw_if}
use leka.Types.{OrderId, SequenceNumber, u64_max, add_u64}

pub record OrderIdGenerator : Type 0 where
  pub current_id : ℕ

pub record SequenceNumberGenerator : Type 0 where
  pub current_sequence : ℕ

unfoldable pub generate_order_id : OrderIdGenerator → Outcome (OrderId × OrderIdGenerator)
generate_order_id g = do
  throw_if (g.current_id == u64_max) overflow_error
  let id = add_u64 g.current_id 1
  ok (id, record { current_id = id })

unfoldable pub generate_sequence_number :
    SequenceNumberGenerator → Outcome (SequenceNumber × SequenceNumberGenerator)
generate_sequence_number g = do
  throw_if (g.current_sequence == u64_max) overflow_error
  let n = add_u64 g.current_sequence 1
  ok (n, record { current_sequence = n })
