-- ===== src/Common/Text.antt =====
-- `std::string` as the list of its bytes.
use Prim.Native.Nat.{ℕ}
use Prim.Native.Char.{code}
use Prim.Native.String.{String}
use mathlib.Core.Path.{◌≡◌, refl}
use mathlib.Core.Logic.{◌↔◌}
use mathlib.Core.Bool.{Bool, true, false, ◌&&◌}
use mathlib.Core.List.{List, [], ◌∷◌}
use native.Mathlib.Omega.{arith}
use ccfolio.Common.Tests.{◌==◌}

abbrev pub Str : Type 0
Str = List ℕ

-- A literal of the source. It stays shut, so that a proof does not spell it out.
unfoldable pub text : String → Str
text String.[] = []
text (String.◌∷◌ c s) = code c ∷ text s

-- `==` on strings
unfoldable pub str_eq : Str → Str → Bool
str_eq [] [] = true
str_eq (a ∷ s) (b ∷ t) = a == b && str_eq s t
str_eq _ _ = false

pub str_eq_iff : (s t : Str) → (str_eq s t ≡ true) ↔ (s ≡ t)
unfolding str_eq
str_eq_iff [] [] = (λ _. refl, λ _. refl)
str_eq_iff [] (b ∷ t) = ground arith
str_eq_iff (a ∷ s) [] = ground arith
str_eq_iff (a ∷ s) (b ∷ t) = ground (arith, str_eq_iff s t)

pub str_eq_refl : (s : Str) → str_eq s s ≡ true
str_eq_refl s = (str_eq_iff s s).1 refl
