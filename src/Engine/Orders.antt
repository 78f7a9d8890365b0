-- ===== src/Engine/Orders.antt =====
-- `matchOrder` on a book whose parts agree, whatever the order: they agree behind it, and it returns or
-- throws.
use leka.Base.{
  ℕ, ◌+◌, ◌<◌, ◌≤◌, ◌^◌, ◌≡◌, ◌≢◌, ◌⊎◌, refl, sym, subst, inl, inr, not, ◌&&◌, ◌||◌, some, arith,
  ◌==◌, Bool-cases, eq_of_test, ne_of_test, test_of_ne,
}
use leka.Base.Outcome.{
  Outcome, ok, throws, fault, out_of_fuel, Exception, invalid_argument, logic_error, overflow_error,
}
use leka.Types.{
  OrderId, Price, Quantity, Timestamp, OrderSide, OrderType, is_limit_type, order_id_is_valid,
  price_is_valid, quantity_is_valid, timestamp_is_valid, u64_max,
}
use leka.Order.{Ptr, null}
use leka.Index.Table.{find_order_lem}
use leka.Pool.{System}
use leka.Book.Uncrossed.{IsUncrossed, Unchanged-IsUncrossed, Arrives-IsUncrossed}
use leka.Book.{heap_of, Book, find}
use leka.Book.Invariant.{Queues, IsBook}
use leka.Engine.{Engine, check_incoming, match_order}
use leka.Engine.Arrivals.{done, rests, refused, next_sequence-throws, match_order-Ends}

-- A call that has come back, with an answer or with an exception.
abbrev pub Returns : {A : Type 0} → Outcome A → Type 0
Returns (ok a) = Unit {0}
Returns (throws x) = Unit {0}
Returns fault = ⊥
Returns out_of_fuel = ⊥

-- What every event leaves.
pub record Sound {A : Type 0} (hash : ℕ → ℕ) (b : Book) (result : Outcome A × Engine) : Type 0 where
  pub queues : Queues
  pub map : OrderId → Ptr
  pub book : IsBook hash result.1.book queues map
  pub more : result.1.book.index.count ≤ b.index.count + 1
  pub uncrossed : IsUncrossed (heap_of b) → IsUncrossed (heap_of result.1.book)
  pub returns : Returns result.0

check_incoming_cases :
    (id : OrderId) (price : Price) (quantity : Quantity) (timestamp : Timestamp) (type : OrderType)
    (e : Engine)
    → (check_incoming id price quantity timestamp type e ≡ (ok tt, e))
      ⊎ (check_incoming id price quantity timestamp type e ≡ (throws invalid_argument, e))
unfolding check_incoming
check_incoming_cases id price quantity timestamp type e =
    elim (Bool-cases (
      not (order_id_is_valid id)
      || not (quantity_is_valid quantity)
      || not (timestamp_is_valid timestamp))) [
        | inl a ↦ inr (rw a refl)
        | inr a ↦ elim (Bool-cases (is_limit_type type && not (price_is_valid price))) [
          | inl b ↦ inr (rw (a, b) refl)
          | inr b ↦ elim (Bool-cases (not (is_limit_type type) && price_is_valid price)) [
            | inl c ↦ inr (rw (a, b, c) refl)
            | inr c ↦ inl (rw (a, b, c) refl)
          ]
        ]
      ]

module _ (hash : ℕ → ℕ) (system : System)
    (maps : (call a : ℕ) → system.mmap call ≡ some a → 0 < a) where
  -- A call that has thrown and left the book.
  pub thrown :
      {A : Type 0} (x : Exception) (e : Engine) (q : Queues) (m : OrderId → Ptr)
      → IsBook hash e.book q m
      → Sound {A = A} hash e.book (throws x, e)
  thrown x e q m v = record {
    queues = q;
    map = m;
    book = v;
    more = omega arith;
    uncrossed = λ u. u;
    returns = tt;
  }

  module _ (id : OrderId) (price : Price) (quantity : Quantity) (timestamp : Timestamp)
      (side : OrderSide) (type : OrderType) (e : Engine) (q : Queues) (m : OrderId → Ptr)
      (v : IsBook hash e.book q m) (small : e.book.index.count < 2 ^ 53) where
    match_order-found :
        check_incoming id price quantity timestamp type e ≡ (ok tt, e)
        → m id ≢ null
        → match_order hash system id price quantity timestamp side type e ≡ (throws logic_error, e)
    unfolding match_order find
    match_order-found checked there =
        rw
          (
            checked,
            find_order_lem hash e.book.index m id v.represents,
            test_of_ne (m id) null there,
          )
          refl

    match_order-exhausted :
        check_incoming id price quantity timestamp type e ≡ (ok tt, e)
        → m id ≡ null
        → e.generator.current_sequence ≡ u64_max
        → match_order hash system id price quantity timestamp side type e
          ≡ (throws overflow_error, e)
    unfolding match_order find
    match_order-exhausted checked fresh is_last =
        rw
          (
            checked,
            find_order_lem hash e.book.index m id v.represents,
            fresh,
            next_sequence-throws e is_last,
          )
          refl

    match_order-unchecked :
        check_incoming id price quantity timestamp type e ≡ (throws invalid_argument, e)
        → match_order hash system id price quantity timestamp side type e
          ≡ (throws invalid_argument, e)
    unfolding match_order
    match_order-unchecked bad = rw bad refl

    match_order-traded :
        check_incoming id price quantity timestamp type e ≡ (ok tt, e)
        → m id ≡ null
        → e.generator.current_sequence ≢ u64_max
        → Sound hash e.book (match_order hash system id price quantity timestamp side type e)
    match_order-traded checked fresh ne =
        let (left, em, w, ends) =
          match_order-Ends hash system maps id price quantity timestamp side type e q m v small
            checked fresh ne in
        elim ends [
          | done _ run ↦ subst (Sound hash e.book) (sym run) (record {
            queues = w.queues;
            map = w.map;
            book = w.book;
            more = omega (arith, w.fewer);
            uncrossed = w.uncrossed;
            returns = tt;
          })
          | rests _ some_left p b q' run arrives ↦ subst (Sound hash e.book) (sym run) (record {
            queues = q';
            map = _;
            book = arrives.book;
            more = omega (arith, w.fewer, arrives.count);
            uncrossed = λ u. Arrives-IsUncrossed arrives (w.beyond some_left) (w.uncrossed u);
            returns = tt;
          })
          | refused _ _ x b run unchanged why ↦ subst (Sound hash e.book) (sym run) (record {
            queues = w.queues;
            map = w.map;
            book = unchanged.book;
            more = omega (arith, w.fewer, unchanged.count);
            uncrossed = λ u. Unchanged-IsUncrossed unchanged (w.uncrossed u);
            returns = tt;
          })
        ]

    pub match_order-Sound :
        Sound hash e.book (match_order hash system id price quantity timestamp side type e)
    match_order-Sound = elim (check_incoming_cases id price quantity timestamp type e) [
      | inr bad ↦
          subst (Sound hash e.book) (sym (match_order-unchecked bad))
            (thrown invalid_argument e q m v)
      | inl checked ↦ elim (Bool-cases (m id == null)) [
        | inr there ↦
            subst (Sound hash e.book)
              (sym (match_order-found checked (ne_of_test (m id) null there)))
              (thrown logic_error e q m v)
        | inl z ↦
            let fresh = eq_of_test (m id) null z in
            elim (Bool-cases (e.generator.current_sequence == u64_max)) [
              | inl n ↦
                  subst (Sound hash e.book)
                    (sym (
                      match_order-exhausted checked fresh
                        (eq_of_test e.generator.current_sequence u64_max n)))
                    (thrown overflow_error e q m v)
              | inr n ↦
                  match_order-traded checked fresh
                    (ne_of_test e.generator.current_sequence u64_max n)
            ]
      ]
    ]
