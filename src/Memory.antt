-- ===== src/Memory.antt =====
-- The memory that orders live in: what an `Order*` points at. Reading or writing through a pointer
-- that holds no live order is a fault.
use leka.Base.{
  ◌≡◌, refl, ◌≢◌, Option, none, some, ◌==◌, if◌then◌else◌, arith, sym, ap, ◌∙◌, inl, inr,
  Bool-cases, eq_of_test,
}
use std.Path.{fun_ext}
use leka.Base.Outcome.{Outcome, ok, fault, ◌>>=◌}
use leka.Order.{Ptr, Order}

abbrev pub Heap : Type 0
Heap = Ptr → Option Order

unfoldable pub update : Heap → Ptr → Option Order → Heap
update h p c a = if a == p then c else h a

-- `*p`
unfoldable pub load : Ptr → Heap → Outcome Order
load p h = elim (h p) [ none ↦ fault | some o ↦ ok o ]

-- A write of some fields of `*p`.
unfoldable pub modify : Ptr → (Order → Order) → Heap → Outcome Heap
modify p f h = do o ← load p h; ok (update h p (some (f o)))

pub update_self : (h : Heap) (p : Ptr) (c : Option Order) → update h p c p ≡ c
unfolding update
update_self h p c = ground arith

pub update_ne : (h : Heap) (p a : Ptr) (c : Option Order) → a ≢ p → update h p c a ≡ h a
unfolding update
update_ne h p a c n = ground arith

-- To write what stands there changes nothing.
pub update_same : (h : Heap) (p : Ptr) {c : Option Order} → h p ≡ c → update h p c ≡ h
unfolding update
update_same h p {c} e = fun_ext (λ a. elim (Bool-cases (a == p)) [
  | inl q ↦ rw q (sym e ∙ ap h (sym (eq_of_test a p q)))
  | inr q ↦ rw q refl
])

pub load-ok : (h : Heap) (p : Ptr) {o : Order} → h p ≡ some o → load p h ≡ ok o
unfolding load
load-ok h p e = ground arith

pub modify-ok :
    (h : Heap) (p : Ptr) (f : Order → Order) {o : Order}
    → h p ≡ some o
    → modify p f h ≡ ok (update h p (some (f o)))
unfolding modify
modify-ok h p f e = rw (load-ok h p e) refl
