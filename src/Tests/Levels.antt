-- ===== src/Tests/Levels.antt =====
-- A price level at 100 with three sell orders, and a fourth that joins it.
use leka.Base.{
  ℕ, ◌+◌, ◌<◌, ◌≡◌, refl, none, some, List, [], ◌∷◌, arith, ◌==◌, if◌then◌else◌, All-mem,
}
use leka.Base.Outcome.{ok}
use leka.Types.{sell, limit}
use leka.Order.{Ptr, null, LevelRef, Order}
use leka.Memory.{Heap}
use leka.Level.{Level, add_order, remove_order}
use leka.Level.Segment.{nil, cons}
use leka.Level.Invariant.{view, Rests, IsQueue, IsFunded, depth, remaining_at}
use leka.Level.Add.{Added, add_order-Added}
use leka.Level.Remove.{Removed, remove_order-Removed}
use leka.Level.Fill.{filled_heap, total_after_fill}

abbrev this : LevelRef
this = record { side = sell; index = 0 }

abbrev resting : (id remaining next previous : ℕ) → Order
resting id remaining next previous = record {
  order_id = id;
  price = 100;
  original_quantity = 50;
  remaining_quantity = remaining;
  timestamp = 1;
  order_side = sell;
  order_type = limit;
  sequence_number = id;
  next_order = next;
  previous_order = previous;
  price_level = some this;
}

abbrev incoming : Order
incoming = record (resting 4 15 null null) { price_level = none }

-- addresses 80, 160 and 240 are linked, 320 is not
abbrev heap : Heap
heap a =
    if a == 80
    then some (resting 1 40 160 null)
    else if a == 160
    then some (resting 2 30 240 80)
    else if a == 240
    then some (resting 3 50 null 160)
    else if a == 320
    then some incoming
    else none

abbrev level : Level
level = record { price = 100; head_order = 80; tail_order = 240; count = 3; total_quantity = 120 }

abbrev queue : List Ptr
queue = 80 ∷ 160 ∷ 240 ∷ []

level-IsQueue : IsQueue this heap level queue
unfolding view
level-IsQueue = record {
  chain = cons (resting 1 40 160 null) refl refl refl (
      cons (resting 2 30 240 80) refl refl refl
        (cons (resting 3 50 null 160) refl refl refl (nil refl refl)));
  distinct = ground arith;
  no_null = refl;
  counted = refl;
  machine = omega arith;
  owned =
      All-mem (λ a. Rests this 100 (view heap a)) queue
        (
          record { order = resting 1 40 null null; holds = refl; level = refl; at_price = refl },
          (
            record { order = resting 2 30 null null; holds = refl; level = refl; at_price = refl },
            (
              record {
                order = resting 3 50 null null;
                holds = refl;
                level = refl;
                at_price = refl;
              },
              tt,
            ),
          ),
        );
}

level-IsFunded : IsFunded heap level queue
unfolding depth remaining_at view
level-IsFunded = record {
  positive =
      All-mem (λ a. 0 < remaining_at heap a) queue (omega arith, (omega arith, (omega arith, tt)));
  covered = omega arith;
  bounded = omega arith;
}

add_order-Added_example :
    (r : Level × Heap) × (add_order this level 320 heap ≡ ok r)
    × Added this heap level 320 incoming queue r
add_order-Added_example =
    add_order-Added this heap level 320 incoming queue refl (ground arith) refl level-IsQueue
      level-IsFunded

-- the order in the middle leaves
remove_order-Removed_example :
    (r : Level × Heap) × (remove_order this level 160 heap ≡ ok r)
    × Removed this heap level 160 (resting 2 30 240 80) (80 ∷ []) (240 ∷ []) r
remove_order-Removed_example =
    remove_order-Removed this heap level 160 (resting 2 30 240 80) (80 ∷ []) (240 ∷ [])
      level-IsQueue refl refl

-- the head is filled: 120 stays on record for the 80 that rest
total_after_fill_example :
    (r : Level × Heap) × (remove_order this level 80
        (filled_heap this heap level 80 (resting 1 40 160 null) (160 ∷ 240 ∷ []))
      ≡ ok r)
    × (r.0.total_quantity ≡ 120)
    × (depth r.1 (160 ∷ 240 ∷ []) + 40 ≡ depth heap queue)
total_after_fill_example =
    total_after_fill this heap level 80 (resting 1 40 160 null) (160 ∷ 240 ∷ []) level-IsQueue refl
      (omega arith)
