-- ===== src/Engine/Session.antt =====
-- The engine over a whole sequence of events, the caller going on after an exception.
use leka.Base.{ℕ, ◌+◌, ◌<◌, ◌≤◌, ◌^◌, ◌≡◌, sym, ◌∙◌, some, List, [], ◌∷◌, arith, length}
use mathlib.Core.Option.{none-ne-some}
use leka.Base.Outcome.{ok}
use leka.Types.{OrderId}
use leka.Order.{Ptr}
use leka.Order.Event.{OrderEvent}
use leka.Pool.{System}
use leka.Ladder.Construct.{IsRange}
use leka.Book.{Book, heap_of}
use leka.Book.Construct.{make_book}
use leka.Book.Invariant.{Queues, IsBook}
use leka.Book.Opening.{no_queues, no_orders, make_book-IsBook}
use leka.Book.Places.{view-none}
use leka.Book.Uncrossed.{IsUncrossed}
use leka.Engine.{Engine, process_event}
use leka.Engine.Orders.{Returns}
use leka.Engine.Handling.{process_event-Sound}

-- An engine over a new book.
abbrev pub new_engine : Book → Engine
new_engine b = record { book = b; generator = record { current_sequence = 0 }; out = [] }

-- After each event the caller has an answer or an exception, and the book is not crossed.
abbrev pub AllReturn : (hash : ℕ → ℕ) → System → List OrderEvent → Engine → Type 0
AllReturn hash system [] e = Unit {0}
AllReturn hash system (x ∷ xs) e =
    Returns (process_event hash system x e).0
    × IsUncrossed (heap_of (process_event hash system x e).1.book)
    × AllReturn hash system xs (process_event hash system x e).1

module _ (hash : ℕ → ℕ) (system : System) where
  AllReturn-of :
      (events : List OrderEvent) (e : Engine) (q : Queues) (m : OrderId → Ptr)
      → ((call a : ℕ) → system.mmap call ≡ some a → 0 < a)
      → IsBook hash e.book q m
      → IsUncrossed (heap_of e.book)
      → e.book.index.count + length events ≤ 2 ^ 53
      → AllReturn hash system events e
  AllReturn-of [] e q m maps v u small = tt
  AllReturn-of (x ∷ xs) e q m maps v u small =
      let w = process_event-Sound hash system maps x e q m v (omega arith) in
      (
        w.returns,
        w.uncrossed u,
        AllReturn-of xs (process_event hash system x e).1 w.queues w.map maps w.book (w.uncrossed u)
            (omega (arith, w.more)),
      )

  -- For a valid range of prices and a system that maps no page at address 0, the constructor
  -- makes a book, and an engine over it handles every sequence of at most 2^53 events: each event
  -- returns or throws, with no fault and no loop that runs out of rounds, and after each of them
  -- every resting buy order has a lower price than every resting sell order. This holds for every
  -- hash function, and also after events that have thrown.
  pub new_engine-AllReturn :
      (min tick count : ℕ) (events : List OrderEvent)
      → ((call a : ℕ) → system.mmap call ≡ some a → 0 < a)
      → IsRange min tick count
      → length events ≤ 2 ^ 53
      → (b : Book) × (make_book min tick count ≡ ok b) × AllReturn hash system events (new_engine b)
  new_engine-AllReturn min tick count events maps range small =
      let (b, run, v, _, empty, none_counted) = make_book-IsBook hash min tick count range in
      (
        b,
        run,
        AllReturn-of events (new_engine b) no_queues no_orders maps v
            (λ a c bid ask e.
              absurd (none-ne-some bid (sym (view-none (heap_of b) a (empty a)) ∙ e)))
            (omega (arith, none_counted, small)),
      )
