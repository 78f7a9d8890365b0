-- ===== src/Tests/Books.antt =====
-- The snapshot of a book with three orders to sell on two levels and nothing to buy.
use leka.Base.{◌≡◌, []}
use leka.Base.Outcome.{ok}
use leka.Book.Snapshot.{BookSnapshot, capture_snapshot}
use leka.Book.Shown.{Shows, capture_snapshot-Shows}
use leka.Tests.Engines.{identity, resting}
use leka.Tests.Trading.{resting_queues, resting_map, third-Sound}

-- What an earlier capture has left.
abbrev stale : BookSnapshot
stale = record {
  sequence = 7;
  ts_ns = 9;
  best_bid_raw = 100;
  best_ask_raw = 105;
  bids = [];
  asks = [];
  bid_level_count = 1;
  ask_level_count = 1;
}

capture_snapshot-Shows_example :
    (s : BookSnapshot) × (capture_snapshot resting.book stale 10 ≡ ok s)
    × Shows resting.book resting_queues 10 stale s
capture_snapshot-Shows_example =
    capture_snapshot-Shows identity resting.book resting_queues resting_map stale 10
      third-Sound.book
