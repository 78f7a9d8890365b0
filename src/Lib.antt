-- ===== src/Lib.antt =====
-- A model of leka, a limit order book with a matching engine, and proofs about it.
--
-- The program. Orders rest in price levels, intrusive FIFO queues (src/book/price_level.cpp), which
-- stand in two ladders of prices with a bitset of the occupied levels (src/book/price_ladder.cpp).
-- An open-addressing table finds an order by its identifier (src/index/order_index.cpp), and paged
-- storage owns the orders (src/book/order_pool.cpp). The order book keeps the four in step
-- (src/book/order_book.cpp), and the matching engine executes incoming orders against the best
-- opposing level, head first, through the book (src/matching/matching_engine.cpp).
--
-- The files.
--   Base       lists, Boolean tests and arithmetic shared by all; Base.Outcome and Base.State are
--              results with exceptions, and commands that keep what they wrote before a throw;
--              Base.Masks is about masks of ones.
--   Types      include/lob/types and the enumerations of include/lob/order: 64-bit values as
--              natural numbers, wrap-around written out in add_u64 and sub_u64.
--   Order      src/order/order.cpp; Order.Event is src/order/order_event.cpp, Order.IdGenerator
--              both generators, Order.Generated many calls of them. A pointer to an order is an
--              address, 0 the null pointer; a pointer to a level is its side and index, which is
--              what a stable address stands for.
--   Memory     the heap, from addresses to orders.
--   Level      PriceLevel; Level.Invariant says when a level is the queue of a list of orders, and
--              Level.Segment, Add, Bridge, Remove and Fill prove its operations.
--   Ladder     PriceLadder; a word of the bitset is the list of its bits, lowest first.
--              Ladder.Words and Occupancy are about the bitset, Best about the marks, Traversal
--              about the visit of the occupied levels, Prices and Construct about the price
--              range.
--   Index      OrderIndex, with the hash of an identifier as a parameter; Index.Add its
--              addOrder. Index.Cyclic and Ring are about the way around the table, Slots about
--              reading and writing it, Probe about the loops that search it, Table about what it
--              stands for. Insertion, Insert and Adds are about an addition, Growth, Rehash and
--              Resize about a larger table, Shift and Removal about a removal, and Session about
--              any sequence of calls.
--   Pool       OrderPool; mmap and the page size of the system are parameters. Pool.Slots is about
--              the free list of a page, Fresh about a new page, FreePages about the list of pages
--              with a free slot, and Invariant ties them to the table of pages and the memory;
--              Create, Allocate, Release and Reserve are about the calls.
--   Book       OrderBook; Book.Construct, Add and Snapshot are parts of it, and Book.Shown is about
--              the snapshot. Book.Invariant says when the parts of a book agree, for given queues
--              and a given map of identifiers; Unlinking, Places, Update and Resizing are about one
--              level of such a book, Same about sides that differ in links only, Departure and
--              Removal about a removal, Shrinking and Reduction about a reduction, Arrival,
--              Linking, Rollback, Registering and Addition about an addition, Opening about the
--              constructor, and Uncrossed about the two sides.
--   Engine     MatchingEngine and Execution; Engine.Accounting is about the matching loop on any
--              state and Engine.Events and Engine.Guards about the handler around it. Priority is
--              price and time priority apart from the structures that keep it; Best, Round,
--              Spread, Steps and Matching are about the loop on a book whose parts agree, Arrivals,
--              Orders and Handling about events on it, and Session about sequences of events.
--   Queue      SpscEventQueue (include/lob/concurrency/spsc_event_queue.hpp), its calls cut where
--              the other thread can see a difference. Queue.System is the two threads as a step
--              relation, Cursor the cursors modulo 2^64, Invariant what holds in every state,
--              Producing and Consuming the steps of the threads, Safety what follows, Calls whole
--              calls, and Teardown the destructor.
--   Itch       tools/itch/itch_to_csv.cpp, how it writes prices and times, with std::to_chars as a
--              parameter; Itch.RoundTrip reads them back.
--   Tests      runs, and the theorems at concrete inputs.
--
-- Names. A method `PriceLadder::markEmpty` is `mark_empty` of the module Ladder, and a member
-- `bestIndex` the field `best_index`. An exception is the outcome `throws`; reading where nothing
-- lives is `fault`.
--
-- Fuel. A probe of the index runs on the number of its slots, since a probe that comes around has
-- seen them all. The matching loop runs on two rounds more than the number of live orders, since
-- each round but the last fills the incoming order or takes a resting one off the book. Running
-- out is the outcome `out_of_fuel`, apart from every result of the code.
--
-- The doubling of the table's capacity runs on 64 rounds, enough for a request of at most 2^53
-- orders. Up to that number the doubles in which the source compares the load of the table are
-- exact; the model compares whole numbers, and its theorems ask for the bound. The destructor
-- of the queue runs on one round more than the queue has slots.
--
-- Threads. A step of the queue is one access that the other thread may notice. An acquire load may
-- return any cursor from the one last seen on; that the writes before a release store are seen by
-- who sees the store is the memory model's, and lies in the order of the steps.
--
-- Not modelled. The checks for values of an enumeration that are none of its enumerators, of which
-- matchOrder has two: the data types are closed. The programs under tools but for Itch, benchmarks,
-- tests, destructors but the queue's, allocation failure of the standard containers, and the
-- placeholders that are empty files. The static counter of sequence numbers belongs to the one
-- engine of the model.
pub mod Base
pub mod Types
pub mod Order
pub mod Memory
pub mod Level
pub mod Ladder
pub mod Index
pub mod Pool
pub mod Book
pub mod Engine
pub mod Queue
pub mod Itch
mod Tests
