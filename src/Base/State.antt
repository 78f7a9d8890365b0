-- ===== src/Base/State.antt =====
-- Commands over a state that can throw: what has been written before an exception stays written.
use mathlib.Core.Bool.{Bool, true, false}
use mathlib.Core.Path.{◌≡◌, refl}
use leka.Base.Outcome.{Outcome, ok, throws, fault, out_of_fuel, Exception}

abbrev pub Cmd : Type 0 → Type 0 → Type 0
Cmd S A = S → Outcome A × S

abbrev pub pure : {S A : Type 0} → A → Cmd S A
pure a s = (ok a, s)

-- A call that changes no state.
abbrev pub lift : {S A : Type 0} → Outcome A → Cmd S A
lift m s = (m, s)

abbrev pub and_then : {S A B : Type 0} → Outcome A × S → (A → Cmd S B) → Outcome B × S
and_then (ok a, s) f = f a s
and_then (throws e, s) f = (throws e, s)
and_then (fault, s) f = (fault, s)
and_then (out_of_fuel, s) f = (out_of_fuel, s)

-- A sequence of three commands.
pub and_then_assoc :
    {S A B C : Type 0} (r : Outcome A × S) (f : A → Cmd S B) (g : B → Cmd S C)
    → and_then r (λ a s. and_then (f a s) g) ≡ and_then (and_then r f) g
and_then_assoc (ok a, s) f g = refl
and_then_assoc (throws e, s) f g = refl
and_then_assoc (fault, s) f g = refl
and_then_assoc (out_of_fuel, s) f g = refl

infixl 5 ◌>>=◌ ◌>>◌
abbrev pub ◌>>=◌ : {S A B : Type 0} → Cmd S A → (A → Cmd S B) → Cmd S B
◌>>=◌ m f s = and_then (m s) f

abbrev pub ◌>>◌ : {S B : Type 0} → Cmd S (Unit {0}) → Cmd S B → Cmd S B
m >> n = m >>= λ _. n

abbrev pub gets : {S A : Type 0} → (S → A) → Cmd S A
gets f s = (ok (f s), s)

abbrev pub puts : {S : Type 0} → (S → S) → Cmd S (Unit {0})
puts f s = (ok tt, f s)

abbrev pub throw : {S A : Type 0} → Exception → Cmd S A
throw e s = (throws e, s)

abbrev pub throw_when : {S : Type 0} → Bool → Exception → Cmd S (Unit {0})
throw_when true e = throw e
throw_when false e = pure tt

abbrev pub when : {S : Type 0} → Bool → Cmd S (Unit {0}) → Cmd S (Unit {0})
when true m = m
when false m = pure tt

abbrev pub handle : {S A : Type 0} → Outcome A × S → (Exception → Cmd S A) → Outcome A × S
handle (throws e, s) f = f e s
handle (ok a, s) f = (ok a, s)
handle (fault, s) f = (fault, s)
handle (out_of_fuel, s) f = (out_of_fuel, s)

-- `try { m } catch (...) { f }`
abbrev pub catch : {S A : Type 0} → Cmd S A → (Exception → Cmd S A) → Cmd S A
catch m f s = handle (m s) f

abbrev pub put_back : {S T A : Type 0} → (T → S → S) → S → Outcome A × T → Outcome A × S
put_back set s (r, t) = (r, set t s)

-- A command on a part of the state.
abbrev pub zoom : {S T A : Type 0} → (S → T) → (T → S → S) → Cmd T A → Cmd S A
zoom get set m s = put_back set s (m (get s))
