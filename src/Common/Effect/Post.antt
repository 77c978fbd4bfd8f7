-- ===== src/Common/Effect/Post.antt =====
-- What holds of every value that a computation returns, and computations that always return.
use mathlib.Core.Path.{◌≡◌, refl}
use mathlib.Core.Bool.{Bool, true, false}
use ccfolio.Common.Tests.{if◌then◌else◌}
use ccfolio.Common.Effect.{Exception, Outcome, ok, throw, M, recover}

module _ {S A : Type 0} (P : A → Type 0) where
  abbrev pub Post : Outcome A × S → Type 0
  Post (ok a, s) = P a
  Post (throw x, s) = Unit

  abbrev pub Ends : Outcome A × S → Type 0
  Ends r = (a : A) × (r.0 ≡ ok a) × P a

  pub Post-if :
      (b : Bool) (m k : M S A) (s : S) → Post (m s) → Post (k s) → Post ((if b then m else k) s)
  Post-if true m k s hm hk = hm
  Post-if false m k s hm hk = hk

  pub Ends-recover :
      (h : Exception → M S A) (r : Outcome A × S)
      → Post r
      → ((x : Exception) (s : S) → Ends (h x s))
      → Ends (recover h r)
  Ends-recover h (ok a, s) p e = (a, refl, p)
  Ends-recover h (throw x, s) p e = e x s
