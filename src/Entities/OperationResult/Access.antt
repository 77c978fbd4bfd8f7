-- ===== src/Entities/OperationResult/Access.antt =====
-- app/Entities/OperationResult.h: reading the two parts of a result.
use ccfolio.Common.{◌≡◌, ◌⊎◌, refl, true, false, inl, inr}
use ccfolio.Common.Text.{Str}
use ccfolio.Common.Effect.{ok, Throws}
use ccfolio.Entities.OperationResult.{
  OperationStatus, OperationResult, success, failure, is_success, get_result, get_error_message,
}

module _ {T : Type 0} where
  abbrev GivesValue : OperationResult T → Type 0
  GivesValue r = (is_success r ≡ true) × (get_result r ≡ ok r.result) × Throws (get_error_message r)

  abbrev GivesMessage : OperationResult T → Type 0
  GivesMessage r =
      (is_success r ≡ false) × (get_error_message r ≡ ok r.error_message) × Throws (get_result r)

  by_status :
      (s : OperationStatus) (t : T) (m : Str)
      → let r : OperationResult T = record { status = s; result = t; error_message = m } in
        GivesValue r ⊎ GivesMessage r
  unfolding is_success get_result get_error_message
  by_status success t m = inl (refl, refl, (_, refl))
  by_status failure t m = inr (refl, refl, (_, refl))

  -- Every result is of one of two kinds: its value can be read and reading its message throws, or
  -- its message can be read and reading its value throws.
  pub get_result-get_error_message :
      (r : OperationResult T)
      → ((is_success r ≡ true) × (get_result r ≡ ok r.result) × Throws (get_error_message r))
        ⊎ ((is_success r ≡ false)
            × (get_error_message r ≡ ok r.error_message)
            × Throws (get_result r))
  get_result-get_error_message r = by_status r.status r.result r.error_message
