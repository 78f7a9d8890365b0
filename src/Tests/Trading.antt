-- ===== src/Tests/Trading.antt =====
-- The engine with three orders in its book is one whose parts agree, and the theorems on such engines
-- are used on it.
use leka.Base.{ℕ, ◌<◌, ◌^◌, ◌≡◌, ◌⊎◌, sym, ap, ◌∙◌, arith, Option, none, some, [], ◌∷◌, true, false}
use leka.Base.Outcome.{Exception, Outcome, ok, throws, fault, out_of_fuel, invalid_argument}
use leka.Types.{OrderId, OrderSide, Quantity, buy, sell, limit}
use leka.Order.{Ptr, null, Order, make_order}
use leka.Ladder.Construct.{IsRange, empty_ladder-Constructed}
use leka.Index.Table.{find_order_lem}
use leka.Book.{Book, heap_of, ladder_of, cancel_order, reduce_order}
use leka.Book.Add.{add_order_with_quantities}
use leka.Book.Construct.{make_book}
use leka.Book.Invariant.{Queues, IsBook}
use leka.Book.Opening.{no_queues, no_orders, opened-IsBook, make_book-IsBook}
use leka.Book.Departure.{Leaves}
use leka.Book.Removal.{cancel_order_cases}
use leka.Book.Shrinking.{Shrinks}
use leka.Book.Reduction.{reduce_order_cases}
use leka.Book.Arrival.{Arrives}
use leka.Book.Rollback.{Unchanged}
use leka.Book.Linking.{Refused}
use leka.Book.Addition.{add_order_with_quantities_cases}
use leka.Engine.{Engine, process_event, match_order, match_loop}
use leka.Engine.Steps.{Matched}
use leka.Engine.Matching.{match_loop-Matched}
use leka.Engine.Arrivals.{Ends, numbered, match_order-Trades}
use leka.Engine.Orders.{Sound}
use leka.Engine.Handling.{process_event-Sound}
use leka.Engine.Session.{AllReturn, new_engine, new_engine-AllReturn}
use leka.Tests.Engines.{system, identity, order, small_engine, first, second, resting, sweep}

range : IsRange 100 1 8
range = record {
  min_pos = omega arith;
  tick_pos = omega arith;
  count_pos = omega arith;
  machine = omega arith;
  fits = omega arith;
}

positive : (call a : ℕ) → system.mmap call ≡ some a → 0 < a
positive call a e = omega (arith, ap mapped e)
  where
    mapped : Option ℕ → ℕ
    mapped none = 0
    mapped (some a) = a

small-IsBook : IsBook identity small_engine.book no_queues no_orders
small-IsBook =
    opened-IsBook 100 1 8 small_engine.book.bids small_engine.book.asks
      (empty_ladder-Constructed 100 1 8 true range) (empty_ladder-Constructed 100 1 8 false range)
      identity

first-Sound :
    Sound identity small_engine.book
      (process_event identity system (order 1 100 40 sell limit) small_engine)
first-Sound =
    process_event-Sound identity system positive (order 1 100 40 sell limit) small_engine no_queues
      no_orders small-IsBook (omega arith)

second-Sound :
    Sound identity first.book (process_event identity system (order 2 100 30 sell limit) first)
second-Sound =
    process_event-Sound identity system positive (order 2 100 30 sell limit) first
      first-Sound.queues first-Sound.map first-Sound.book (omega (arith, first-Sound.more))

pub third-Sound :
    Sound identity second.book (process_event identity system (order 3 102 50 sell limit) second)
third-Sound =
    process_event-Sound identity system positive (order 3 102 50 sell limit) second
      second-Sound.queues second-Sound.map second-Sound.book
      (omega (arith, first-Sound.more, second-Sound.more))

abbrev pub resting_queues : Queues
resting_queues = third-Sound.queues

abbrev pub resting_map : OrderId → Ptr
resting_map = third-Sound.map

few : resting.book.index.count < 2 ^ 53
few = omega (arith, first-Sound.more, second-Sound.more, third-Sound.more)

abbrev from_ok : {A : Type 0} → A → Outcome A → A
from_ok a (ok b) = b
from_ok a (throws e) = a
from_ok a fault = a
from_ok a out_of_fuel = a

-- No order has the identifier 10.
fresh : resting_map 10 ≡ null
fresh = ap (from_ok null) (
    sym (find_order_lem identity resting.book.index resting_map 10 third-Sound.book.represents)
    ∙ sweep.1)

process_event-Sound_example :
    Sound identity resting.book (process_event identity system (order 10 105 150 buy limit) resting)
process_event-Sound_example =
    process_event-Sound identity system positive (order 10 105 150 buy limit) resting resting_queues
      resting_map third-Sound.book few

match_order-Trades_example :
    (left : ℕ) × (em : Engine) × (w : Matched identity
      (numbered resting)
      resting_queues
      resting_map
      10
      105
      buy
      limit
      150
      left
      em)
    × Ends identity system positive 10 105 150 1 buy limit resting em left w.queues w.map
        (match_order identity system 10 105 150 1 buy limit resting)
match_order-Trades_example =
    match_order-Trades identity system positive 10 105 150 1 buy limit resting resting_queues
      resting_map third-Sound.book few (omega arith) (omega arith) (omega arith) (omega arith) fresh
      (omega (arith, sweep.2))

match_loop-Matched_example :
    (left : ℕ) × (e' : Engine) × (match_loop identity 5 10 105 buy limit 150 resting
      ≡ (ok left, e'))
    × Matched identity resting resting_queues resting_map 10 105 buy limit 150 left e'
match_loop-Matched_example =
    match_loop-Matched identity 10 105 buy limit 5 150 resting resting_queues resting_map
      third-Sound.book (omega (arith, first-Sound.more, second-Sound.more, third-Sound.more))

new_engine-AllReturn_example :
    (b : Book) × (make_book 100 1 8 ≡ ok b)
    × AllReturn identity system
        (order 1 100 40 sell limit ∷ order 10 105 150 buy limit ∷ order 1 90 10 buy limit ∷ [])
        (new_engine b)
new_engine-AllReturn_example =
    new_engine-AllReturn identity system 100 1 8
      (order 1 100 40 sell limit ∷ order 10 105 150 buy limit ∷ order 1 90 10 buy limit ∷ [])
      positive range (omega arith)

make_book-IsBook_example :
    (b : Book) × (make_book 100 1 8 ≡ ok b)
    × IsBook identity b no_queues no_orders
    × ((s : OrderSide) → (ladder_of s b).level_count ≡ 8)
    × ((a : Ptr) → heap_of b a ≡ none)
    × (b.index.count ≡ 0)
make_book-IsBook_example = make_book-IsBook identity 100 1 8 range

cancel_order_example :
    ((resting_map 2 ≡ null) × (cancel_order identity 2 resting.book ≡ (ok false, resting.book)))
    ⊎ ((o : Order) × (heap_of resting.book (resting_map 2) ≡ some o)
        × (o.order_id ≡ 2)
        × (b' : Book) × (q' : Queues) × (cancel_order identity 2 resting.book ≡ (ok true, b'))
        × Leaves identity resting.book resting_queues resting_map (resting_map 2) o b' q')
cancel_order_example =
    cancel_order_cases identity resting.book resting_queues resting_map 2 third-Sound.book

abbrev target : Quantity
target = 20

reduce_order_example :
    ((resting_map 2 ≡ null)
      × (reduce_order identity 2 target resting.book ≡ (ok false, resting.book)))
    ⊎ ((o : Order) × (heap_of resting.book (resting_map 2) ≡ some o)
        × (o.order_id ≡ 2)
        × ((((target ≡ 0) ⊎ (o.remaining_quantity < target))
              × (reduce_order identity 2 target resting.book
                  ≡ (throws invalid_argument, resting.book)))
            ⊎ ((target ≡ o.remaining_quantity)
                × (reduce_order identity 2 target resting.book ≡ (ok true, resting.book)))
            ⊎ ((0 < target)
                × (target < o.remaining_quantity)
                × (b' : Book) × (reduce_order identity 2 target resting.book ≡ (ok true, b'))
                × Shrinks identity resting.book resting_queues resting_map
                    (resting_map 2)
                    o
                    target
                    b')))
reduce_order_example =
    reduce_order_cases identity resting.book resting_queues resting_map 2 target third-Sound.book

add_order_with_quantities_example :
    ((p : Ptr) × (b' : Book) × (q' : Queues) × (add_order_with_quantities identity system 10 99 80
          70 1 buy limit 4 resting.book
        ≡ (ok p, b'))
      × Arrives identity resting.book resting_queues resting_map
          (make_order 10 99 80 70 1 buy limit 4)
          p
          b'
          q')
    ⊎ ((e : Exception) × (b' : Book) × (add_order_with_quantities identity system 10 99 80 70 1 buy
            limit 4 resting.book
          ≡ (throws e, b'))
        × Unchanged identity resting.book resting_queues resting_map b'
        × Refused resting.book resting_map (make_order 10 99 80 70 1 buy limit 4) e)
add_order_with_quantities_example =
    add_order_with_quantities_cases identity system resting.book resting_queues resting_map 10 99 80
      70 1 buy limit 4 positive third-Sound.book few
