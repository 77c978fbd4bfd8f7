-- ===== src/Common/Effect/Rules.antt =====
-- Steps of a computation: forwards, from how the first part ended, and backwards, from how all ended.
use mathlib.Core.Path.{◌≡◌, refl, ap}
use mathlib.Core.Logic.{◌⊎◌, inl, inr}
use ccfolio.Common.Effect.{Exception, Outcome, ok, throw, M, continue, recover}

pub ok_inj {ℓ} : {A : Type ℓ} {a b : A} → ok a ≡ ok b → a ≡ b
ok_inj e = cc

throw_inj {ℓ} : {A : Type ℓ} {x y : Exception} → ◌≡◌ {A = Outcome A} (throw x) (throw y) → x ≡ y
throw_inj e = cc

module _ {S A : Type 0} where
  -- A step after one that has returned, and after one that has thrown.
  pub continue_returned :
      {B : Type 0} (f : A → M S B) (r : Outcome A × S) (a : A) → r.0 ≡ ok a → continue f r ≡ f a r.1
  continue_returned f (ok b, s) a e = ap (λ x. f x s) (ok_inj e)
  continue_returned f (throw x, s) a e = cc

  pub recover_returned :
      (h : Exception → M S A) (r : Outcome A × S) (a : A) → r.0 ≡ ok a → recover h r ≡ r
  recover_returned h (ok b, s) a e = refl
  recover_returned h (throw x, s) a e = cc

  pub recover-eq-ok :
      (h : Exception → M S A) (r : Outcome A × S) (a : A)
      → (recover h r).0 ≡ ok a
      → (r.0 ≡ ok a) ⊎ ((x : Exception) × (r.0 ≡ throw x) × ((h x r.1).0 ≡ ok a))
  recover-eq-ok h (ok b, s) a e = inl e
  recover-eq-ok h (throw x, s) a e = inr (x, refl, e)

  pub continue-continue :
      {B C : Type 0} (f : A → M S B) (g : B → M S C) (r : Outcome A × S)
      → continue g (continue f r) ≡ continue (λ a s. continue g (f a s)) r
  continue-continue f g (ok a, s) = refl
  continue-continue f g (throw x, s) = refl
