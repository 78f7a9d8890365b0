-- ===== src/Index.antt =====
-- src/index/order_index.cpp and include/lob/index/order_index.hpp: the open-addressed table from
-- order ids to orders. `hash` is std::hash<uint64_t>, which the library leaves unspecified. The
-- load factor test `count + 1 <= size * 0.5` on doubles is exact below 2^53, and is written over
-- the naturals. A probe that has seen every slot goes round for ever: it is out of fuel.
pub mod Add
pub mod Cyclic
pub mod Ring
pub mod Slots
pub mod Probe
pub mod Table
pub mod Insertion
pub mod Insert
pub mod Growth
pub mod Rehash
pub mod Resize
pub mod Adds
pub mod Shift
pub mod Removal
pub mod Session
use Prim.Native.Nat.{bit_and}
use leka.Base.{
  ℕ, zero, suc, ◌+◌, ◌-◌, ◌*◌, ◌/◌, Bool, true, false, not, ◌&&◌, ◌||◌, Option, none, some, List,
  [], ◌∷◌, ◌==◌, ltb, leb, if◌then◌else◌, length, get_elem?, set, replicate,
}
use leka.Base.Outcome.{
  Outcome, ok, throws, fault, out_of_fuel, invalid_argument, logic_error, ◌>>=◌, ◌>>◌, throw_if,
}
use leka.Base.State.{Cmd}
use leka.Types.{OrderId, add_u64, sub_u64}
use leka.Order.{Ptr, null}
use leka.Memory.{Heap, load}

pub record Slot : Type 0 where
  pub key : OrderId
  pub value : Ptr

abbrev pub empty_slot : Slot
empty_slot = record { key = 0; value = null }

pub record Index : Type 0 where
  pub slots : List Slot
  pub count : ℕ

abbrev pub initial_capacity : ℕ
initial_capacity = 16

abbrev pub empty_index : Index
empty_index = record { slots = []; count = 0 }

-- `slots[index]`
unfoldable pub get_slot : List Slot → ℕ → Outcome Slot
get_slot slots index = elim (get_elem? slots index) [ none ↦ fault | some s ↦ ok s ]

-- `(index + 1) & (slots.size() - 1)`
unfoldable pub next_slot : List Slot → ℕ → ℕ
next_slot slots index = bit_and (index + 1) (length slots - 1)

unfoldable pub in_cyclic_range : (k i j : ℕ) → Bool
in_cyclic_range k i j = if leb i j then ltb i k && leb k j else ltb i k || leb k j

module _ (hash : ℕ → ℕ) where
  unfoldable pub index_for : OrderId → (capacity : ℕ) → ℕ
  index_for id capacity = bit_and (hash id) (capacity - 1)

  -- The loop of `findSlot`: the slot of the id, or the empty one where it would go.
  unfoldable pub probe : (fuel : ℕ) → List Slot → OrderId → ℕ → Outcome ℕ
  probe zero slots id index = out_of_fuel
  probe (suc fuel) slots id index =
      let rest = probe fuel slots id (next_slot slots index) in
      do
        s ← get_slot slots index
        if s.value == null then ok index else if s.key == id then ok index else rest

  -- `none` is the (size_t)-1 of a table without slots.
  unfoldable pub find_slot : OrderId → List Slot → Outcome (Option ℕ)
  find_slot id [] = ok none
  find_slot id (s ∷ slots) = do
    index ← probe (length (s ∷ slots)) (s ∷ slots) id (index_for id (length (s ∷ slots)))
    ok (some index)

  -- The loop that looks for an empty slot while entries move to a larger table.
  unfoldable pub free_slot : (fuel : ℕ) → List Slot → ℕ → Outcome ℕ
  free_slot zero slots index = out_of_fuel
  free_slot (suc fuel) slots index =
      let rest = free_slot fuel slots (next_slot slots index) in
      do s ← get_slot slots index; if s.value == null then ok index else rest

  -- The loop over the old slots, `grown` being the new table.
  unfoldable pub rehash : List Slot → (grown : List Slot) → Outcome (List Slot)
  rehash [] grown = ok grown
  rehash (s ∷ slots) grown = elim (s.value == null) [
    | true ↦ rehash slots grown
    | false ↦ (do
      index ← free_slot (length grown) grown (index_for s.key (length grown))
      rehash slots (set grown index s))
  ]

  -- The doubling of a table that has slots.
  unfoldable pub grow : Index → Outcome Index
  grow t = if leb ((t.count + 1) * 2) (length t.slots) then ok t else (do
    grown ← rehash t.slots (replicate (length t.slots * 2) empty_slot)
    ok (record t { slots = grown }))

  unfoldable pub grow_if_needed : Index → Outcome Index
  grow_if_needed t =
      if length t.slots == 0
      then ok (record t { slots = replicate initial_capacity empty_slot })
      else grow t

  -- `while (orderCount > capacity * MaxLoadFactor) capacity *= 2;`
  unfoldable pub double_capacity : (fuel : ℕ) → (order_count capacity : ℕ) → Outcome ℕ
  double_capacity zero n capacity = out_of_fuel
  double_capacity (suc fuel) n capacity =
      let rest = double_capacity fuel n (capacity * 2) in
      if ltb capacity (n * 2) then rest else ok capacity

  unfoldable pub reserve : ℕ → Index → Outcome Index
  reserve n t = do
    let size = length t.slots
    let start = if size == 0 then initial_capacity else size
    capacity ← double_capacity 64 n start
    (if not (size == 0) && leb capacity size then ok t else (do
      grown ← rehash t.slots (replicate capacity empty_slot)
      ok (record t { slots = grown })))

  -- The probe of `addOrder`: the empty slot for a key that is not there yet.
  unfoldable pub insert_probe : (fuel : ℕ) → List Slot → OrderId → ℕ → Outcome ℕ
  insert_probe zero slots key index = out_of_fuel
  insert_probe (suc fuel) slots key index =
      let rest = insert_probe fuel slots key (next_slot slots index) in
      do
        s ← get_slot slots index
        if s.value == null then ok index else if s.key == key then throws logic_error else rest

  -- The part of `addOrder` behind the growth of the table.
  unfoldable pub insert : OrderId → Ptr → Index → Outcome Index
  insert key p t = do
    index ← insert_probe (length t.slots) t.slots key (index_for key (length t.slots))
    ok (record {
      slots = set t.slots index (record { key = key; value = p });
      count = add_u64 t.count 1;
    })

  -- The loop of the backward-shift deletion.
  unfoldable pub shift_back : (fuel : ℕ) → List Slot → (vacated scan : ℕ) → Outcome (List Slot)
  shift_back zero slots vacated scan = out_of_fuel
  shift_back (suc fuel) slots vacated scan = elim (get_slot slots scan) [
    | throws e ↦ throws e
    | fault ↦ fault
    | out_of_fuel ↦ out_of_fuel
    | ok s ↦ elim (s.value == null) [
      | true ↦ ok slots
      | false ↦ elim (in_cyclic_range (index_for s.key (length slots)) vacated scan) [
        | true ↦ shift_back fuel slots vacated (next_slot slots scan)
        | false ↦
            shift_back fuel (set (set slots vacated s) scan empty_slot) scan (next_slot slots scan)
      ]
    ]
  ]

  unfoldable pub remove_order : Ptr → Heap → Index → Outcome Index
  remove_order p h t = do
    throw_if (p == null) invalid_argument
    o ← load p h
    found ← find_slot o.order_id t.slots
    hole ← elim found [ none ↦ throws logic_error | some hole ↦ ok hole ]
    s ← get_slot t.slots hole
    throw_if (s.value == null) logic_error
    throw_if (not (s.value == p)) logic_error
    let emptied = set t.slots hole empty_slot
    slots ← shift_back (length emptied) emptied hole (next_slot emptied hole)
    ok (record { slots = slots; count = sub_u64 t.count 1 })

  -- A pointer, null where the id is absent.
  unfoldable pub find_order : OrderId → Index → Outcome Ptr
  find_order id t = do
    found ← find_slot id t.slots
    elim found [ none ↦ ok null | some index ↦ (do s ← get_slot t.slots index; ok s.value) ]
