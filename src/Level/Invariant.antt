-- ===== src/Level/Invariant.antt =====
-- What a price level and the orders on it satisfy between calls.
use leka.Base.{
  ◌+◌, ◌≤◌, ◌<◌, ◌≡◌, refl, ap, Option, none, some, List, [], ◌∷◌, ◌++◌, arith, length, ◌∈◌, ◌∉◌,
  IsDistinct,
}
use leka.Types.{Price, Quantity, u64_max}
use leka.Order.{Ptr, null, LevelRef, Order}
use leka.Memory.{Heap, update, update_self}
use leka.Level.{Level}
use leka.Level.Segment.{Segment}

-- An order without its links.
abbrev pub contents : Order → Order
contents o = record o { next_order = null; previous_order = null }

-- What an address holds, but for the links.
abbrev pub strip : Option Order → Option Order
strip none = none
strip (some o) = some (contents o)

unfoldable pub view : Heap → Ptr → Option Order
view h a = strip (h a)

pub view-some : (h : Heap) (a : Ptr) {o : Order} → h a ≡ some o → view h a ≡ some (contents o)
unfolding view
view-some h a e = ap strip e

pub view_congr : (h g : Heap) (a : Ptr) → g a ≡ h a → view g a ≡ view h a
unfolding view
view_congr h g a e = ap strip e

-- The quantity that an address has left; 0 where no order lives.
abbrev remaining_of : Option Order → Quantity
remaining_of none = 0
remaining_of (some o) = o.remaining_quantity

unfoldable pub remaining_at : Heap → Ptr → Quantity
unfolding view
remaining_at h a = remaining_of (view h a)

pub remaining_at-some :
    (h : Heap) (a : Ptr) {o : Order} → h a ≡ some o → remaining_at h a ≡ o.remaining_quantity
unfolding remaining_at
remaining_at-some h a e = ap (λ c. remaining_of (strip c)) e

pub remaining_at_congr :
    (h g : Heap) (a : Ptr) → view g a ≡ view h a → remaining_at g a ≡ remaining_at h a
unfolding remaining_at
remaining_at_congr h g a e = ap remaining_of e

-- The quantity that the listed orders have left together.
unfoldable pub depth : Heap → List Ptr → Quantity
depth h [] = 0
depth h (x ∷ xs) = remaining_at h x + depth h xs

pub depth-cons :
    (h : Heap) (a : Ptr) (xs : List Ptr) → depth h (a ∷ xs) ≡ remaining_at h a + depth h xs
unfolding depth
depth-cons h a xs = refl

pub depth-one : (h : Heap) (a : Ptr) → depth h (a ∷ []) ≡ remaining_at h a
unfolding depth
depth-one h a = omega arith

pub depth-append : (h : Heap) (xs ys : List Ptr) → depth h (xs ++ ys) ≡ depth h xs + depth h ys
unfolding depth
depth-append h [] ys = omega arith
depth-append h (x ∷ xs) ys = omega (arith, depth-append h xs ys)

pub depth_congr :
    (h g : Heap) (xs : List Ptr)
    → ((a : Ptr) → a ∈ xs → view g a ≡ view h a)
    → depth g xs ≡ depth h xs
unfolding depth remaining_at
depth_congr h g [] same = refl
depth_congr h g (x ∷ xs) same = omega (
  arith,
  ap remaining_of (same x (ground arith)),
  depth_congr h g xs (λ a i. same a (ground arith)),
)

-- The order at `a` rests on the level `this`, whose price it has.
pub record Rests (this : LevelRef) (price : Price) (c : Option Order) : Type 0 where
  pub order : Order
  pub holds : c ≡ some order
  pub level : order.price_level ≡ some this
  pub at_price : order.price ≡ price

-- The level at `this` is the queue of the distinct orders `xs`, oldest first.
pub record IsQueue (this : LevelRef) (h : Heap) (level : Level) (xs : List Ptr) : Type 0 where
  pub chain : Segment h level.tail_order null null level.head_order xs
  pub distinct : IsDistinct xs
  pub no_null : null ∉ xs
  pub counted : level.count ≡ length xs
  pub machine : level.count ≤ u64_max
  pub owned : (a : Ptr) → a ∈ xs → Rests this level.price (view h a)

-- Each of the orders has some quantity left, and the aggregate, a uint64_t, covers them all.
pub record IsFunded (h : Heap) (level : Level) (xs : List Ptr) : Type 0 where
  pub positive : (a : Ptr) → a ∈ xs → 0 < remaining_at h a
  pub covered : depth h xs ≤ level.total_quantity
  pub bounded : level.total_quantity ≤ u64_max

pub length-le-depth :
    (h : Heap) (xs : List Ptr)
    → ((a : Ptr) → a ∈ xs → 0 < remaining_at h a)
    → length xs ≤ depth h xs
unfolding depth
length-le-depth h [] pos = omega arith
length-le-depth h (x ∷ xs) pos =
    omega (arith, pos x (ground arith), length-le-depth h xs (λ a i. pos a (ground arith)))

pub view_self : (h : Heap) (p : Ptr) (o : Order) → view (update h p (some o)) p ≡ some (contents o)
view_self h p o = view-some (update h p (some o)) p (update_self h p _)
