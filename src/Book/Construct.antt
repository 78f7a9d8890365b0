-- ===== src/Book/Construct.antt =====
-- The constructors of `OrderBook`: a ladder for each side over the same range of prices.
use leka.Base.{ℕ, true, false, none}
use leka.Base.Outcome.{Outcome, ok, ◌>>=◌}
use leka.Types.{Price}
use leka.Ladder.{make_ladder}
use leka.Index.{empty_index}
use leka.Pool.{empty_pool}
use leka.Book.{Book}

abbrev pub default_level_count : ℕ
default_level_count = 65536

unfoldable pub make_book : Price → Price → ℕ → Outcome Book
make_book min tick count = do
  bids ← make_ladder min tick count true
  asks ← make_ladder min tick count false
  ok (record {
    store = record { pool = empty_pool; heap = λ _. none };
    index = empty_index;
    bids = bids;
    asks = asks;
  })

-- `OrderBook()`
unfoldable pub default_book : Outcome Book
unfolding make_book
default_book = make_book 1 1 default_level_count
