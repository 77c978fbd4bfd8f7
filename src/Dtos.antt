-- ===== src/Dtos.antt =====
-- app/Dtos: what the service returns, and how it is turned to JSON.
use ccfolio.Common.{◌≡◌, ◌⊎◌, Bool, true, false, Option, none, some}
use ccfolio.Common.Text.{Str, text}
use ccfolio.External.Json.{JsonLib}

pub record UserDto : Type 0 where
  pub username : Str
  pub token : Str

pub record ResponseDto (T : Type 0) : Type 0 where
  pub is_success : Bool
  pub result : Option T
  pub error_message : Option Str

module _ {T : Type 0} where
  unfoldable pub response_success : T → ResponseDto T
  response_success t = record { is_success = true; result = some t; error_message = none }

  unfoldable pub response_failure : Str → ResponseDto T
  response_failure m = record { is_success = false; result = none; error_message = some m }

  -- What every response that the two factories make satisfies.
  abbrev pub IsWellFormed : ResponseDto T → Type 0
  IsWellFormed r = ((t : T) × (r ≡ response_success t)) ⊎ ((m : Str) × (r ≡ response_failure m))

module _ (lib : JsonLib) where
  open lib use {Json, null, assign, of_bool, of_string}

  unfoldable pub user_to_json : UserDto → Json
  user_to_json u =
      assign (assign null (text "username") (of_string u.username)) (text "token")
        (of_string u.token)

  assign_result : {T : Type 0} → (T → Json) → Json → Option T → Json
  assign_result to_json j none = j
  assign_result to_json j (some t) = assign j (text "result") (to_json t)

  assign_error : Json → Option Str → Json
  assign_error j none = j
  assign_error j (some m) = assign j (text "errorMessage") (of_string m)

  -- `ResponseDto<T>::toJson`, over the `toJson` of the result
  unfoldable pub response_to_json : {T : Type 0} → (T → Json) → ResponseDto T → Json
  unfolding assign_result assign_error
  response_to_json to_json r =
      assign_error
        (assign_result to_json (assign null (text "isSuccess") (of_bool r.is_success)) r.result)
        r.error_message
