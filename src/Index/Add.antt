-- ===== src/Index/Add.antt =====
-- `OrderIndex::addOrder` as a whole: the table grows before the probe, so a duplicate key leaves it
-- grown.
use leka.Base.{ℕ, ◌==◌}
use leka.Base.Outcome.{invalid_argument}
use leka.Base.State.{Cmd, lift, gets, puts, throw_when, ◌>>=◌, ◌>>◌}
use leka.Order.{Ptr, null}
use leka.Memory.{Heap, load}
use leka.Index.{Index, grow_if_needed, insert}

module _ (hash : ℕ → ℕ) where
  unfoldable pub add_order : Ptr → Heap → Cmd Index (Unit {0})
  add_order p h = do
    throw_when (p == null) invalid_argument
    old ← gets (λ t. t)
    grown ← lift (grow_if_needed hash old)
    puts (λ _. grown)
    o ← lift (load p h)
    t ← lift (insert hash o.order_id p grown)
    puts (λ _. t)
