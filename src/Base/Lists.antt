-- ===== src/Base/Lists.antt =====
-- Lists measured and indexed by native numbers, under the library's names, and membership as a
-- Boolean, on which the tactics split.
use Prim.Native.Nat.{ℕ, zero, suc, ◌+◌, ◌-◌, ◌<◌}
use mathlib.Core.Path.{◌≡◌, refl, ap, sym, subst}
use mathlib.Core.Logic.{◌≢◌, inl, inr}
use mathlib.Core.Bool.{Bool, true, false, ◌||◌}
use mathlib.Core.List.{List, [], ◌∷◌, ◌++◌}
use mathlib.Core.Option.{Option, none, some}
use native.Mathlib.Omega.{arith}
use leka.Base.Tests.{◌==◌, if◌then◌else◌, Bool-cases, eq_of_test}

module _ {ℓ} {A : Type ℓ} where
  abbrev pub length : List A → ℕ
  length [] = 0
  length (x ∷ xs) = suc (length xs)

  abbrev pub get_elem? : List A → ℕ → Option A
  get_elem? [] i = none
  get_elem? (x ∷ xs) zero = some x
  get_elem? (x ∷ xs) (suc i) = get_elem? xs i

  abbrev pub get_or : List A → ℕ → A → A
  get_or [] i d = d
  get_or (x ∷ xs) zero d = x
  get_or (x ∷ xs) (suc i) d = get_or xs i d

  -- A write out of bounds changes nothing.
  abbrev pub set : List A → ℕ → A → List A
  set [] i v = []
  set (x ∷ xs) zero v = v ∷ xs
  set (x ∷ xs) (suc i) v = x ∷ set xs i v

  abbrev pub take : ℕ → List A → List A
  take zero xs = []
  take (suc n) [] = []
  take (suc n) (x ∷ xs) = x ∷ take n xs

  abbrev pub drop : ℕ → List A → List A
  drop zero xs = xs
  drop (suc n) [] = []
  drop (suc n) (x ∷ xs) = drop n xs

  abbrev pub replicate : ℕ → A → List A
  replicate zero a = []
  replicate (suc n) a = a ∷ replicate n a

module _ {ℓ} {A : Type ℓ} where
  pub length-append : (xs ys : List A) → length (xs ++ ys) ≡ length xs + length ys
  length-append [] ys = omega arith
  length-append (x ∷ xs) ys = omega (arith, length-append xs ys)

  pub length-set : (xs : List A) (i : ℕ) (v : A) → length (set xs i v) ≡ length xs
  length-set [] i v = refl
  length-set (x ∷ xs) zero v = refl
  length-set (x ∷ xs) (suc i) v = ap suc (length-set xs i v)

  pub length-replicate : (n : ℕ) (a : A) → length (replicate n a) ≡ n
  length-replicate zero a = refl
  length-replicate (suc n) a = ap suc (length-replicate n a)

  pub get_elem?-set_self :
      (xs : List A) (i : ℕ) (v : A) → i < length xs → get_elem? (set xs i v) i ≡ some v
  get_elem?-set_self [] i v h = elim h [ ]
  get_elem?-set_self (x ∷ xs) zero v h = refl
  get_elem?-set_self (x ∷ xs) (suc i) v h = get_elem?-set_self xs i v (omega arith)

  pub get_elem?-set_ne :
      (xs : List A) (i j : ℕ) (v : A) → i ≢ j → get_elem? (set xs i v) j ≡ get_elem? xs j
  get_elem?-set_ne [] i j v h = refl
  get_elem?-set_ne (x ∷ xs) zero zero v h = absurd (h refl)
  get_elem?-set_ne (x ∷ xs) zero (suc j) v h = refl
  get_elem?-set_ne (x ∷ xs) (suc i) zero v h = refl
  get_elem?-set_ne (x ∷ xs) (suc i) (suc j) v h = get_elem?-set_ne xs i j v (λ e. h (ap suc e))

  pub get_or-set_self :
      (xs : List A) (i : ℕ) (v d : A) → i < length xs → get_or (set xs i v) i d ≡ v
  get_or-set_self [] i v d h = elim h [ ]
  get_or-set_self (x ∷ xs) zero v d h = refl
  get_or-set_self (x ∷ xs) (suc i) v d h = get_or-set_self xs i v d (omega arith)

  pub get_or-set_ne :
      (xs : List A) (i j : ℕ) (v d : A) → i ≢ j → get_or (set xs i v) j d ≡ get_or xs j d
  get_or-set_ne [] i j v d h = refl
  get_or-set_ne (x ∷ xs) zero zero v d h = absurd (h refl)
  get_or-set_ne (x ∷ xs) zero (suc j) v d h = refl
  get_or-set_ne (x ∷ xs) (suc i) zero v d h = refl
  get_or-set_ne (x ∷ xs) (suc i) (suc j) v d h = get_or-set_ne xs i j v d (λ e. h (ap suc e))

  pub get_elem?-append :
      (xs : List A) (i : ℕ) (v : A)
      → get_elem? (xs ++ v ∷ []) i ≡ (if i == length xs then some v else get_elem? xs i)
  get_elem?-append [] zero v = refl
  get_elem?-append [] (suc i) v = ground arith
  get_elem?-append (x ∷ xs) zero v = ground arith
  get_elem?-append (x ∷ xs) (suc i) v = ground (arith, get_elem?-append xs i v)

  pub length-drop : (n : ℕ) (xs : List A) → length (drop n xs) ≡ length xs - n
  length-drop zero xs = omega arith
  length-drop (suc n) [] = omega arith
  length-drop (suc n) (x ∷ xs) = omega (arith, length-drop n xs)

  pub get_or-drop : (n i : ℕ) (xs : List A) (d : A) → get_or (drop n xs) i d ≡ get_or xs (n + i) d
  get_or-drop zero i xs d = ap (λ k. get_or xs k d) (omega arith)
  get_or-drop (suc n) i [] d = refl
  get_or-drop (suc n) i (x ∷ xs) d = ground (arith, get_or-drop n i xs d, suc_add n i x xs d)
    where
      suc_add :
          (n i : ℕ) (x : A) (xs : List A) (d : A)
          → get_or (x ∷ xs) (suc n + i) d ≡ get_or xs (n + i) d
      suc_add n i x xs d =
          ap (λ k. get_or (x ∷ xs) k d) {x = suc n + i} {y = suc (n + i)} (omega arith)

-- Membership of a number in a list.
abbrev pub has : ℕ → List ℕ → Bool
has a [] = false
has a (x ∷ xs) = (a == x) || has a xs

infix 40 ◌∈◌ ◌∉◌
abbrev pub ◌∈◌ : ℕ → List ℕ → Type 0
a ∈ xs = has a xs ≡ true

abbrev pub ◌∉◌ : ℕ → List ℕ → Type 0
a ∉ xs = has a xs ≡ false

-- No number stands twice in the list.
abbrev pub IsDistinct : List ℕ → Type 0
IsDistinct [] = Unit {0}
IsDistinct (x ∷ xs) = (x ∉ xs) × IsDistinct xs

pub has-append : (k : ℕ) (front back : List ℕ) → has k (front ++ back) ≡ (has k front || has k back)
has-append k [] back = refl
has-append k (f ∷ front) back = ground (arith, has-append k front back)

pub ne_of_mem : {a b : ℕ} (xs : List ℕ) → a ∈ xs → b ∉ xs → a ≢ b
ne_of_mem xs i n e = ground (arith, ap (λ k. has k xs) e)

pub IsDistinct-snoc : (p : ℕ) (xs : List ℕ) → IsDistinct xs → p ∉ xs → IsDistinct (xs ++ p ∷ [])
IsDistinct-snoc p [] d n = (refl, tt)
IsDistinct-snoc p (x ∷ xs) (out, d) n =
    (ground (arith, has-append x xs (p ∷ [])), IsDistinct-snoc p xs d (ground arith))

-- Leaving one out of the middle.
pub IsDistinct-middle :
    (p : ℕ) (xs ys : List ℕ)
    → IsDistinct (xs ++ p ∷ ys)
    → (p ∉ xs) × (p ∉ ys) × IsDistinct (xs ++ ys)
IsDistinct-middle p [] ys (out, d) = (refl, out, d)
IsDistinct-middle p (x ∷ xs) ys (out, d) =
    let (a, b, c) = IsDistinct-middle p xs ys d in
    (
      ground (arith, has-append x xs (p ∷ ys)),
      b,
      (ground (arith, has-append x xs (p ∷ ys), has-append x xs ys), c),
    )

has_congr : (a b : ℕ) (xs : List ℕ) → a ≡ b → has a xs ≡ has b xs
has_congr a b xs e = ap (λ k. has k xs) e

pub IsDistinct-append :
    (xs ys : List ℕ)
    → IsDistinct (xs ++ ys)
    → IsDistinct xs × IsDistinct ys × ((a : ℕ) → a ∈ xs → a ∉ ys)
IsDistinct-append [] ys d = (tt, d, λ a i. absurd (ground arith))
IsDistinct-append (x ∷ xs) ys (out, d) =
    let (dx, dy, apart) = IsDistinct-append xs ys d in
    (
      (ground (arith, has-append x xs ys), dx),
      dy,
      λ a i. ground (arith, has-append x xs ys, apart a, has_congr a x ys),
    )

-- A property of every member, by recursion and by membership.
abbrev pub All {κ} : (ℕ → Type κ) → List ℕ → Type κ
All P [] = Unit
All P (x ∷ xs) = P x × All P xs

pub All-mem {κ} : (P : ℕ → Type κ) (xs : List ℕ) → All P xs → (a : ℕ) → a ∈ xs → P a
All-mem P [] h a i = absurd (ground arith)
All-mem P (x ∷ xs) h a i = elim (Bool-cases (a == x)) [
  | inl e ↦ subst P (sym (eq_of_test a x e)) h.0
  | inr e ↦ All-mem P xs h.1 a (ground arith)
]
