-- ===== src/Entities/OperationResult.antt =====
-- app/Entities/OperationResult.h
pub mod Access
use ccfolio.Common.{Bool, true, false, List, [], Option, none, not, if◌then◌else◌}
use ccfolio.Common.Text.{Str, text}
use ccfolio.Common.Effect.{Exception, logic_error, Outcome, ok, throw}

-- `T()`, the value that a failed result holds.
pub record Default (T : Type 0) : Type 0 where
  pub default : T

instance abbrev pub bool_default : Default Bool
bool_default = record { default = false }

instance abbrev pub option_default : {A : Type 0} → Default (Option A)
option_default = record { default = none }

instance abbrev pub list_default : {A : Type 0} → Default (List A)
list_default = record { default = [] }

pub data OperationStatus : Type 0 where
  success failure : OperationStatus

pub record OperationResult (T : Type 0) : Type 0 where
  pub status : OperationStatus
  pub result : T
  pub error_message : Str

is_success_status : OperationStatus → Bool
is_success_status success = true
is_success_status failure = false

module _ {T : Type 0} where
  unfoldable pub success_result : T → OperationResult T
  success_result t = record { status = success; result = t; error_message = [] }

  unfoldable pub failure_result : ⦃d : Default T⦄ → Str → OperationResult T
  failure_result ⦃d⦄ m = record { status = failure; result = d.default; error_message = m }

  unfoldable pub is_success : OperationResult T → Bool
  unfolding is_success_status
  is_success r = is_success_status r.status

  unfoldable pub get_result : OperationResult T → Outcome T
  unfolding is_success
  get_result r =
      if not (is_success r)
      then throw (logic_error (text "Attempted to access result of a failed operation."))
      else ok r.result

  unfoldable pub get_error_message : OperationResult T → Outcome Str
  unfolding is_success
  get_error_message r =
      if is_success r
      then throw (logic_error (text "Attempted to access error message of a successful operation."))
      else ok r.error_message
