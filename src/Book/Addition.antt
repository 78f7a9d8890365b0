-- ===== src/Book/Addition.antt =====
-- `OrderBook::addOrderWithQuantities` on a book whose parts agree: it adds the order, or throws and
-- leaves the book as it was.
use leka.Base.{
  ℕ, ◌<◌, ◌^◌, ◌≡◌, ◌≢◌, ◌⊎◌, refl, ap, ◌∙◌, inl, inr, not, ◌||◌, ltb, none, some, arith,
  Bool-cases,
}
use leka.Base.Outcome.{ok, throws, Exception, invalid_argument}
use leka.Base.State.{Cmd, pure, throw, catch, and_then, handle, ◌>>=◌, ◌>>◌}
use leka.Types.{
  add_u64, OrderId, Price, Quantity, Timestamp, SequenceNumber, OrderSide, OrderType, is_limit_type,
  quantity_is_valid,
}
use leka.Order.{Ptr, null, Order, make_order}
use leka.Memory.{update}
use leka.Level.Invariant.{view_congr}
use leka.Pool.{Store, System, release}
use leka.Pool.Allocate.{allocate_cases}
use leka.Pool.Invariant.{IsPool}
use leka.Book.{ladder_of, Book, heap_of, on_store, unlink_order}
use leka.Book.Add.{Linked, link_order, register_order, add_order_with_quantities}
use leka.Book.Invariant.{Queues, IsBook}
use leka.Book.Update.{IsBook-store}
use leka.Book.Arrival.{Arrives}
use leka.Book.Linking.{
  Refused, wrong_type, bad_quantity, no_room, release-given, link_order_cases, given,
}
use leka.Book.Same.{SameSide-refl}
use leka.Book.Rollback.{Unchanged}
use leka.Book.Registering.{finish_cases}

-- What `addOrderWithQuantities` does with the slot that it has been given, cut behind the first handler.
module _ (hash : ℕ → ℕ) (system : System) (price : Price) (p : Ptr) where
  abbrev give_up : Exception → Cmd Book Linked
  give_up e = do on_store (release p); throw e

  abbrev go_on : Linked → Cmd Book Ptr
  go_on linked = do
    catch (register_order hash system p price linked)
        (λ e. do unlink_order p linked.level linked.level.side price; on_store (release p); throw e)
    pure p

  abbrev attach : Cmd Book Ptr
  attach = do linked ← catch (link_order p) give_up; go_on linked

-- The order `o` in the slot `p` of the store `t`, which held none.
module _ (hash : ℕ → ℕ) (b : Book) (q : Queues) (m : OrderId → Ptr) (v : IsBook hash b q m)
    (o : Order) (free : o.price_level ≡ none) (unfilled : 0 < o.remaining_quantity) (p : Ptr)
    (t : Store) (pool : IsPool t) (not_null : p ≢ null) (vacant : heap_of b p ≡ none)
    (heap : t.heap ≡ update (heap_of b) p (some o))
    (living : t.pool.live_order_count ≡ add_u64 b.store.pool.live_order_count 1) where
  abbrev side : OrderSide
  side = o.order_side

  attach_cases :
      (system : System)
      → b.index.count < 2 ^ 53
      → ((b' : Book) × (q' : Queues) × (attach hash system o.price p (given b t) ≡ (ok p, b'))
          × Arrives hash b q m o p b' q')
        ⊎ ((e : Exception) × (b' : Book) × (attach hash system o.price p (given b t)
              ≡ (throws e, b'))
            × Unchanged hash b q m b'
            × Refused b m o e)
  attach_cases system small =
      elim (link_order_cases hash b q m v o free unfilled p t pool not_null vacant heap living) [
        | inl (e, run, refused) ↦
            let (b', releases, unchanged) =
              release-given hash b q m v o free unfilled p t pool not_null vacant heap living in
            inr (
              e,
              b',
              ap
                    (λ r.
                      and_then (handle r (give_up hash system o.price p))
                        (go_on hash system o.price p))
                    run
                  ∙ ap (λ r. and_then (and_then r (λ _. throw e)) (go_on hash system o.price p))
                      releases,
              unchanged,
              refused,
            )
        | inr (i, lt, level', h, w) ↦
            let start =
              ap
                (λ r.
                  and_then (handle r (give_up hash system o.price p)) (go_on hash system o.price p))
                w.run in
            elim (finish_cases hash b q m v o free unfilled p t pool not_null vacant heap living i
              lt level' h w system small) [
                | inl (b', q', run, arrives) ↦ inl (b', q', start ∙ run, arrives)
                | inr (e, b', run, unchanged, refused) ↦
                    inr (e, b', start ∙ run, unchanged, refused)
              ]
      ]

module _ (hash : ℕ → ℕ) (system : System) (b : Book) (q : Queues) (m : OrderId → Ptr) where
  -- On a book whose parts agree, with fewer than 2^53 orders, and a system that maps no page at
  -- address 0, an addition either answers a pointer at which no order lived, and the order is
  -- then the last of the queue of its price and in the map, the other orders being as they were
  -- but for links, or it throws, and leaves the same queues, map and orders, and on both sides
  -- the same prices, the same price, aggregate quantity and number of orders of each level and
  -- the same marks, so that only links, the pages of the pool and the slots of the index may
  -- differ. It throws only for an order that is not a limit order, has bad quantities or is not
  -- valid, for a price out of range or off the grid, for an aggregate past 64 bits, for an
  -- identifier that is taken, and, with the exception of the pool, where no page has a free slot.
  pub add_order_with_quantities_cases :
      (id : OrderId) (price : Price) (original remaining : Quantity) (timestamp : Timestamp)
      (side : OrderSide) (type : OrderType) (sequence : SequenceNumber)
      → ((call a : ℕ) → system.mmap call ≡ some a → 0 < a)
      → IsBook hash b q m
      → b.index.count < 2 ^ 53
      → ((p : Ptr) × (b' : Book) × (q' : Queues) × (add_order_with_quantities hash system id price
              original remaining timestamp side type sequence b
            ≡ (ok p, b'))
          × Arrives hash b q m
              (make_order id price original remaining timestamp side type sequence)
              p
              b'
              q')
        ⊎ ((e : Exception) × (b' : Book) × (add_order_with_quantities hash system id price original
                remaining timestamp side type sequence b
              ≡ (throws e, b'))
            × Unchanged hash b q m b'
            × Refused b m (make_order id price original remaining timestamp side type sequence) e)
  unfolding add_order_with_quantities
  add_order_with_quantities_cases id price original remaining timestamp side type sequence maps v
        small =
      let o = make_order id price original remaining timestamp side type sequence in
      let wrong =
        not (quantity_is_valid original)
        || not (quantity_is_valid remaining)
        || ltb original remaining in
      let same : Unchanged hash b q m b = record {
        book = v;
        same = λ a. refl;
        sides = λ s. SameSide-refl (ladder_of s b);
        count = refl;
      } in
      elim (Bool-cases (is_limit_type type)) [
        | inr market ↦ inr (invalid_argument, b, rw market refl, same, wrong_type market)
        | inl limit ↦ elim (Bool-cases wrong) [
          | inl bad ↦ inr (invalid_argument, b, rw (limit, bad) refl, same, bad_quantity bad)
          | inr fine ↦ elim (allocate_cases system b.store o maps v.pool) [
            | inl (p, t, run, pool, ne, vacant, heap, living) ↦
                let start : add_order_with_quantities hash system id price original remaining
                      timestamp side type sequence b
                    ≡ attach hash system price p (record b { store = t }) =
                  rw (limit, fine, run) refl in
                elim (attach_cases hash b q m v o refl (ground (arith, fine)) p t pool ne vacant
                  heap living system small) [
                    | inl (b', q', run, arrives) ↦ inl (p, b', q', start ∙ run, arrives)
                    | inr (e, b', run, unchanged, refused) ↦
                        inr (e, b', start ∙ run, unchanged, refused)
                  ]
            | inr (full, e, t, run, pool, heap, _, living) ↦ inr (
              e,
              record b { store = t },
              rw (limit, fine, run) refl,
              record {
                book = IsBook-store hash b q m t v pool (λ a. ap (λ h. h a) heap) living;
                same = λ a. view_congr (heap_of b) t.heap a (ap (λ h. h a) heap);
                sides = λ side. SameSide-refl (ladder_of side b);
                count = refl;
              },
              no_room full,
            )
          ]
        ]
      ]
