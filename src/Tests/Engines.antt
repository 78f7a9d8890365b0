-- ===== src/Tests/Engines.antt =====
-- A small engine with the identity as hash, prices 100 to 107, and three orders to sell that rest
-- in the book, on which the theorems of the engine are used; and the runs of the unit tests.
use leka.Base.{arith, true, false, none, some, ℕ, ◌+◌, ◌*◌, ◌≡◌, refl, [], ◌∷◌}
use leka.Order.{null}
use leka.Base.Outcome.{ok, throws, invalid_argument}
use leka.Types.{OrderSide, buy, sell, OrderType, limit, market}
use leka.Order.Event.{OrderEvent, new}
use leka.Pool.{System, empty_pool}
use leka.Book.{Book}
use leka.Index.{empty_index, find_order}
use leka.Ladder.{empty_ladder}
use leka.Engine.{Engine, Execution, process_event, match_loop}
use leka.Engine.Accounting.{Accounted, match_loop-Accounted}
use leka.Engine.Guards.{process_event_refuses}
use leka.Engine.Events.{Within, process_event-Within}

abbrev pub system : System
system = record { system_page_size = 4096; mmap = λ n. some (1048576 + n * 131072) }

abbrev pub identity : ℕ → ℕ
identity n = n

abbrev pub order : ℕ → ℕ → ℕ → OrderSide → OrderType → OrderEvent
order id price quantity side type = new (record {
  order_id = id;
  price = price;
  quantity = quantity;
  timestamp = 1;
  order_side = side;
  order_type = type;
})

abbrev pub small_engine : Engine
small_engine = record {
  book = record {
    store = record { pool = empty_pool; heap = λ _. none };
    index = empty_index;
    bids = empty_ladder 100 1 107 8 true;
    asks = empty_ladder 100 1 107 8 false;
  };
  generator = record { current_sequence = 0 };
  out = [];
}

-- The engine behind the first, the second and the third of three orders to sell.
abbrev pub first : Engine
first = (process_event identity system (order 1 100 40 sell limit) small_engine).1

abbrev pub second : Engine
second = (process_event identity system (order 2 100 30 sell limit) first).1

abbrev pub resting : Engine
resting = (process_event identity system (order 3 102 50 sell limit) second).1

abbrev pub fill : ℕ → ℕ → ℕ → Execution
fill resting price quantity = record {
  incoming_order_id = 10;
  resting_order_id = resting;
  execution_price = price;
  execution_quantity = quantity;
}

-- A buyer for 150 at 105 takes the three orders in the order of their prices, and of their arrival; its
-- identifier is not in the index before.
pub sweep :
    ((process_event identity system (order 10 105 150 buy limit) resting).1.out
      ≡ fill 1 100 40 ∷ fill 2 100 30 ∷ fill 3 102 50 ∷ [])
    × (find_order identity 10 resting.book.index ≡ ok null)
    × (resting.generator.current_sequence ≡ 3)
unfolding leka.Ladder.level_price leka.Ladder.make_levels leka.Ladder.empty_ladder
    leka.Ladder.make_ladder leka.Ladder.to_index leka.Ladder.index_of leka.Ladder.get_level
    leka.Ladder.put_level leka.Ladder.level_at leka.Ladder.is_nonzero leka.Ladder.countr_zero
    leka.Ladder.get_word leka.Ladder.scan_words leka.Ladder.next_set_bit leka.Ladder.put_bit
    leka.Ladder.mark_occupied leka.Ladder.mark_empty leka.Ladder.best leka.Ladder.for_each_occupied
    leka.Index.get_slot leka.Index.next_slot leka.Index.in_cyclic_range leka.Index.index_for
    leka.Index.probe leka.Index.find_slot leka.Index.free_slot leka.Index.rehash leka.Index.grow
    leka.Index.grow_if_needed leka.Index.double_capacity leka.Index.reserve leka.Index.insert_probe
    leka.Index.insert leka.Index.shift_back leka.Index.remove_order leka.Index.find_order
    leka.Index.Add.add_order leka.Pool.iota_from leka.Pool.make_page leka.Pool.find_page
    leka.Pool.get_page leka.Pool.put_pool leka.Pool.modify_page leka.Pool.modify_page?
    leka.Pool.add_to_free_page_list leka.Pool.remove_from_free_page_list leka.Pool.map_page
    leka.Pool.create_page leka.Pool.allocate leka.Pool.create_pages leka.Pool.reserve
    leka.Pool.release leka.Book.read_order leka.Book.read_level leka.Book.write_level
    leka.Book.on_level leka.Book.on_ladder leka.Book.find leka.Book.remove_order
    leka.Book.cancel_order leka.Book.shrink_order leka.Book.reduce_order leka.Book.Add.link_order
    leka.Book.unlink_order leka.Book.Add.register_order leka.Book.Add.add_order_with_quantities
    leka.Book.Add.add_order leka.Book.Add.add_resting_remainder leka.Book.Add.reserve_order_capacity
    leka.Book.Construct.make_book leka.Book.Construct.default_book leka.Level.modify_unless_null
    leka.Level.check_add leka.Level.add_order leka.Level.check_remove leka.Level.remove_order
    leka.Level.reduce_total_quantity leka.Order.order_is_valid leka.Order.reduce_remaining_quantity
    leka.Order.set_remaining_quantity leka.Order.IdGenerator.generate_order_id
    leka.Order.IdGenerator.generate_sequence_number leka.Memory.update leka.Memory.load
    leka.Memory.modify leka.Engine.execution_is_valid leka.Engine.best_opposing leka.Engine.stops_at
    leka.Engine.check_incoming leka.Engine.next_sequence leka.Engine.settle_fill leka.Engine.execute
    leka.Engine.match_best leka.Engine.match_loop leka.Engine.rest_remainder leka.Engine.match_order
    leka.Engine.dispatch leka.Engine.process_event leka.Engine.process_event_by_value
    leka.Engine.process_order
sweep = (refl, refl, refl)

match_loop-Accounted_example :
    Accounted 10 150 resting.out (match_loop identity 5 10 105 buy limit 150 resting)
match_loop-Accounted_example = match_loop-Accounted identity 10 5 105 buy limit 150 resting

process_event-Within_example :
    Within 10 150 [] (process_event identity system (order 10 105 150 buy limit) resting)
process_event-Within_example =
    process_event-Within identity system (order 10 105 150 buy limit) resting

-- a market order with a price
process_event_refuses_example :
    process_event identity system (order 10 105 150 buy market) resting
    ≡ (throws invalid_argument, record resting { out = [] })
process_event_refuses_example =
    process_event_refuses identity system (order 10 105 150 buy market) resting
      (λ p. omega (arith, p.3))
