-- ===== src/Book/Snapshot.antt =====
-- include/lob/book/order_book_snapshot.hpp and `OrderBook::captureSnapshot`: the top of the book as
-- a viewer sees it. The two fields that the caller sets are kept as they were.
use leka.Base.{ℕ, List, [], ◌∷◌, map}
use leka.Base.Outcome.{Outcome, ok, ◌>>=◌}
use leka.Level.{Level}
use leka.Ladder.{for_each_occupied}
use leka.Book.{Book}

pub record BookSnapshotLevel : Type 0 where
  pub price_raw : ℕ
  pub quantity : ℕ
  pub order_count : ℕ

pub record BookSnapshot : Type 0 where
  pub sequence : ℕ
  pub ts_ns : ℕ
  pub best_bid_raw : ℕ
  pub best_ask_raw : ℕ
  pub bids : List BookSnapshotLevel
  pub asks : List BookSnapshotLevel
  pub bid_level_count : ℕ
  pub ask_level_count : ℕ

-- `BookSnapshot::reset`
unfoldable pub reset : BookSnapshot → BookSnapshot
reset s = record {
  sequence = 0;
  ts_ns = 0;
  best_bid_raw = 0;
  best_ask_raw = 0;
  bids = [];
  asks = [];
  bid_level_count = 0;
  ask_level_count = 0;
}

abbrev pub snapshot_level : Level → BookSnapshotLevel
snapshot_level l = record {
  price_raw = l.price;
  quantity = l.total_quantity;
  order_count = l.count;
}

abbrev pub front_price : List BookSnapshotLevel → ℕ
front_price [] = 0
front_price (l ∷ _) = l.price_raw

unfoldable pub capture_snapshot : Book → BookSnapshot → (depth : ℕ) → Outcome BookSnapshot
capture_snapshot b out depth = do
  bid_levels ← for_each_occupied b.bids depth b.bids.best_index
  ask_levels ← for_each_occupied b.asks depth b.asks.best_index
  let bids = map snapshot_level bid_levels
  let asks = map snapshot_level ask_levels
  ok (record out {
    bids = bids;
    asks = asks;
    best_bid_raw = front_price bids;
    best_ask_raw = front_price asks;
    bid_level_count = b.bids.occupied;
    ask_level_count = b.asks.occupied;
  })
