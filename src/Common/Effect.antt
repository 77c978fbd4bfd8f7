-- ===== src/Common/Effect.antt =====
-- C++ control flow: a computation over a state returns a value or throws, and what it wrote to the
-- state before it threw stays written.
pub mod Rules
pub mod Post
use mathlib.Core.Path.{◌≡◌, refl}
use mathlib.Core.Logic.{◌⊎◌, inl, inr}
use ccfolio.Common.Text.{Str}

-- The classes that the program's handlers tell apart. All derive from `std::exception`;
-- `connection_lost` is one of ODB's, the last four are the standard library's.
pub data Exception : Type 0 where
  json_error odb_error connection_lost : Str → Exception
  runtime_error logic_error invalid_argument bad_optional_access : Str → Exception

-- `e.what()`
unfoldable pub what : Exception → Str
what (json_error m) = m
what (odb_error m) = m
what (connection_lost m) = m
what (runtime_error m) = m
what (logic_error m) = m
what (invalid_argument m) = m
what (bad_optional_access m) = m

pub data Outcome {ℓ} (A : Type ℓ) : Type ℓ where
  ok : A → Outcome A
  throw : Exception → Outcome A

abbrev pub M : Type 0 → Type 0 → Type 0
M S A = S → Outcome A × S

abbrev pub pure : {S A : Type 0} → A → M S A
pure a s = (ok a, s)

abbrev pub raise : {S A : Type 0} → Exception → M S A
raise e s = (throw e, s)

-- A result that does not touch the state.
abbrev pub lift : {S A : Type 0} → Outcome A → M S A
lift o s = (o, s)

abbrev pub continue : {S A B : Type 0} → (A → M S B) → Outcome A × S → Outcome B × S
continue f (ok a, s) = f a s
continue f (throw e, s) = (throw e, s)

infixl 5 ◌>>=◌ ◌>>◌
abbrev pub ◌>>=◌ : {S A B : Type 0} → M S A → (A → M S B) → M S B
◌>>=◌ m f s = continue f (m s)

abbrev pub ◌>>◌ : {S A B : Type 0} → M S A → M S B → M S B
m >> k = m >>= λ _. k

-- `try { m } catch (...) { handler(e) }`, where the handler is given by cases on the exception's
-- class and rethrows what the source does not catch.
abbrev pub recover : {S A : Type 0} → (Exception → M S A) → Outcome A × S → Outcome A × S
recover h (ok a, s) = (ok a, s)
recover h (throw e, s) = h e s

abbrev pub try_catch : {S A : Type 0} → M S A → (Exception → M S A) → M S A
try_catch m h s = recover h (m s)

pub Outcome-cases {ℓ} :
    {A : Type ℓ} (o : Outcome A) → ((a : A) × (o ≡ ok a)) ⊎ ((e : Exception) × (o ≡ throw e))
Outcome-cases (ok a) = inl (a, refl)
Outcome-cases (throw e) = inr (e, refl)

-- A computation that ended with an exception.
abbrev pub Throws : {A : Type 0} → Outcome A → Type 0
Throws o = (e : Exception) × (o ≡ throw e)
