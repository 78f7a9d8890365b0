-- ===== src/Base/Outcome.antt =====
-- What a C++ call can come to, and the chaining of calls.
use mathlib.Core.Bool.{Bool, true, false}

-- The classes of the exceptions that the library throws; the message text is left out.
pub data Exception : Type 0 where
  invalid_argument logic_error overflow_error out_of_range runtime_error system_error : Exception

-- `fault` is undefined behaviour: a null or dangling pointer, or an index outside a vector.
-- `out_of_fuel` is a loop that has used up the rounds that the model gives it.
pub data Outcome (A : Type 0) : Type 0 where
  ok : A → Outcome A
  throws : Exception → Outcome A
  fault : Outcome A
  out_of_fuel : Outcome A

infixl 5 ◌>>=◌ ◌>>◌
abbrev pub ◌>>=◌ : {A B : Type 0} → Outcome A → (A → Outcome B) → Outcome B
ok a >>= f = f a
throws x >>= _ = throws x
fault >>= _ = fault
out_of_fuel >>= _ = out_of_fuel

abbrev pub ◌>>◌ : {B : Type 0} → Outcome (Unit {0}) → Outcome B → Outcome B
m >> n = m >>= λ _. n

-- `if (bad) throw e;`
abbrev pub throw_if : Bool → Exception → Outcome (Unit {0})
throw_if true e = throws e
throw_if false e = ok tt
