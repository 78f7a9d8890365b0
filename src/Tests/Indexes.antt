-- ===== src/Tests/Indexes.antt =====
-- A table of 16 slots: its last slot, and a probe run that wraps around.
use leka.Base.{
  refl, ◌+◌, ◌*◌, ◌<◌, ◌≤◌, ◌==◌, List, [], ◌∷◌, length, replicate, set, if◌then◌else◌, ◌≡◌, ◌≢◌,
  ltb, leb, ◌&&◌, arith, some, none,
}
use leka.Base.Outcome.{ok}
use leka.Types.{sell, limit, OrderId}
use leka.Order.{Ptr, null, Order, make_order}
use leka.Memory.{Heap}
use leka.Index.{
  Slot, Index, empty_slot, empty_index, reserve, in_cyclic_range, index_for, next_slot,
}
use leka.Index.Cyclic.{steps, slots_in_table, in_cyclic_range-steps}
use leka.Index.Table.{Represents, with_slots}
use leka.Index.Insertion.{update_map, set-IsLaid}
use leka.Index.Rehash.{replicate-IsPlaced}
use leka.Index.Resize.{reserve-Represents}
use leka.Index.Session.{Call, Answer, answers, map_answer, map_answers, session_lem}
use leka.Index.Slots.{taken}

in_cyclic_range-steps_example :
    in_cyclic_range 1 14 3 ≡ (ltb 0 (steps 16 14 1) && leb (steps 16 14 1) (steps 16 14 3))
in_cyclic_range-steps_example =
    in_cyclic_range-steps 1 14 3 16 (omega arith) (omega arith) (omega arith)

abbrev table : List Slot
table = replicate 16 (record { key = 0; value = 0 })

-- the last slot of a table of 16
slots_in_table_example :
    (index_for (λ n. n) 500 (length table) < length table)
    × (next_slot table 15 ≡ (if 15 + 1 == length table then 0 else 15 + 1))
slots_in_table_example = slots_in_table (λ n. n) table 4 500 15 refl (omega arith)

-- Orders 5 and 21, whose keys share a slot of 16.
abbrev order_at : OrderId → Order
order_at id = make_order id 100 50 50 1 sell limit id

abbrev heap : Heap
heap a = if a == 80 then some (order_at 5) else if a == 160 then some (order_at 21) else none

-- A table that holds order 5.
abbrev one_order : Index
one_order = record {
  slots = set (replicate 16 empty_slot) 5 (record { key = 5; value = 80 });
  count = 1;
}

abbrev one_entry : OrderId → Ptr
one_entry = update_map (λ _. null) 5 80

one_order-Represents : Represents (λ n. n) one_order one_entry
unfolding taken index_for steps
one_order-Represents =
    with_slots 4
      (record {
        sized = refl;
        laid =
            set-IsLaid (λ n. n) 16 (replicate 16 empty_slot) (λ _. null)
              (record { key = 5; value = 80 }) 5 refl ((replicate-IsPlaced (λ n. n) 4).laid)
              (omega arith) (λ e. absurd (omega arith)) refl refl (λ x hx lt. absurd (omega arith));
      })
      refl (omega arith)

reserve_example :
    (t : Index) × (reserve (λ n. n) 100 one_order ≡ ok t)
    × Represents (λ n. n) t one_entry
    × (100 * 2 ≤ length t.slots)
    × (t.count ≡ 1)
reserve_example =
    reserve-Represents (λ n. n) 100 one_order one_entry (omega arith) one_order-Represents

-- Both orders come, the first one leaves, and its place is looked up.
abbrev calls : List Call
calls =
    Call.add 80 ∷ Call.add 160 ∷ Call.add 80 ∷ Call.remove 80 ∷ Call.find 21 ∷ Call.remove 80 ∷ []

session_example : answers (λ n. n) heap calls empty_index ≡ ok (map_answers heap calls (λ _. null))
session_example =
    session_lem (λ n. n) heap calls
      (
        (some_pointer, order_at 5, refl),
        (
          (other_pointer, order_at 21, refl),
          (
            (some_pointer, order_at 5, refl),
            ((some_pointer, order_at 5, refl), (tt, ((some_pointer, order_at 5, refl), tt))),
          ),
        ),
      )
      (omega arith)
  where
    some_pointer : 80 ≢ null
    some_pointer e = absurd (omega arith)

    other_pointer : 160 ≢ null
    other_pointer e = absurd (omega arith)

abbrev expected : List Answer
expected =
    Answer.done
    ∷ Answer.done
    ∷ Answer.refused
    ∷ Answer.done
    ∷ Answer.at_pointer 160
    ∷ Answer.refused
    ∷ []

calls_answered : map_answers heap calls (λ _. null) ≡ expected
unfolding map_answers map_answer
calls_answered = refl
