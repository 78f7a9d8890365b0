-- ===== src/Index/Insert.antt =====
-- The two ways in which `insert` ends: an entry more, or the refusal of a key that is there.
use leka.Base.{
  ℕ, ◌+◌, ◌<◌, ◌≡◌, ◌≢◌, refl, sym, ◌∙◌, subst, List, arith, length, set, length-set, ==_iff,
  test_of_ne,
}
use leka.Base.Outcome.{ok, throws, logic_error}
use leka.Types.{OrderId, add_u64}
use leka.Order.{Ptr, null}
use leka.Index.{Slot, Index, insert}
use leka.Index.Cyclic.{steps}
use leka.Index.Slots.{at, Taken, taken, taken-set}
use leka.Index.Table.{home, IsLaid, IsPlaced, found_value, stop_lem, insert_probe_lem}
use leka.Index.Insertion.{update_map, set-IsLaid}

-- An entry more in a table of the same size.
pub record Grown (hash : ℕ → ℕ) (k : ℕ) (slots : List Slot) (m : OrderId → Ptr) (r : List Slot)
    : Type 0 where
  pub placed : IsPlaced hash k r m
  pub more : taken r ≡ taken slots + 1
  pub same : length r ≡ length slots

pub set-Grown :
    (hash : ℕ → ℕ) (k : ℕ) (slots : List Slot) (m : OrderId → Ptr) (s : Slot) (i : ℕ)
    → IsPlaced hash k slots m
    → i < length slots
    → s.value ≢ null
    → m s.key ≡ null
    → (at slots i).value ≡ null
    → ((x : ℕ)
        → x < length slots
        → steps (length slots) (home hash slots s.key) x
          < steps (length slots) (home hash slots s.key) i
        → Taken slots x)
    → Grown hash k slots (update_map m s.key s.value) (set slots i s)
set-Grown hash k slots m s i v hi ne fresh free way = record {
  placed = record {
    sized = length-set slots i s ∙ v.sized;
    laid =
        subst (λ n. IsLaid hash n (set slots i s) (update_map m s.key s.value))
          (sym (length-set slots i s))
          (set-IsLaid hash (length slots) slots m s i refl v.laid hi ne fresh free way);
  };
  more = ground (
    arith,
    taken-set slots i s hi,
    test_of_ne s.value null ne,
    (==_iff (at slots i).value null).1 free,
  );
  same = length-set slots i s;
}

module _ (hash : ℕ → ℕ) (k : ℕ) (t : Index) (m : OrderId → Ptr) (key : OrderId) (p : Ptr)
    (v : IsPlaced hash k t.slots m) (room : taken t.slots < length t.slots) (ne : p ≢ null) where
  pub insert-Grown :
      m key ≡ null
      → (r : List Slot) × (insert hash key p t
          ≡ ok (record { slots = r; count = add_u64 t.count 1 }))
        × Grown hash k t.slots (update_map m key p) r
  unfolding insert
  insert-Grown fresh =
      let (i, f) = stop_lem hash k t.slots m v key room in
      let free : (at t.slots i).value ≡ null = found_value hash k t.slots m v key i f ∙ fresh in
      (
        set t.slots i (record { key = key; value = p }),
        rw (insert_probe_lem hash k t.slots m v key i f, (==_iff (at t.slots i).value null).1 free)
            refl,
        set-Grown hash k t.slots m (record { key = key; value = p }) i v f.inside ne fresh free
            (λ x hx lt q. ground (arith, f.before x hx lt, (==_iff (at t.slots x).value null).1 q)),
      )

  pub insert-throws : m key ≢ null → insert hash key p t ≡ throws logic_error
  unfolding insert
  insert-throws present =
      let (i, f) = stop_lem hash k t.slots m v key room in
      rw
        (
          insert_probe_lem hash k t.slots m v key i f,
          test_of_ne (at t.slots i).value null
              (λ q. present (sym (found_value hash k t.slots m v key i f) ∙ q)),
        )
        refl
