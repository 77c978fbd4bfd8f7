-- ===== src/Service.antt =====
-- app/Services/UserService.h: registration and login.
pub mod Total
pub mod Credentials
pub mod Login
pub mod Registered
pub mod Keeps
pub mod RoundTrip
use ccfolio.Common.{
  ℕ, ◌⊎◌, Bool, true, false, ◌||◌, not, Option, none, some, List, [], ◌∷◌, ◌++◌, if◌then◌else◌,
}
use ccfolio.Common.Text.{Str, text}
use ccfolio.Common.Effect.{
  Exception, json_error, bad_optional_access, M, pure, raise, lift, ◌>>=◌, ◌>>◌, try_catch, Outcome,
  ok, throw,
}
use ccfolio.Utility.{to_hex_string}
use ccfolio.Logging.{info}
use ccfolio.External.World.{World}
use ccfolio.Logging.Macro.{log, log_error}
use ccfolio.External.Argon2.{Argon2}
use ccfolio.External.Jwt.{Jwt}
use ccfolio.External.Json.{JsonLib, or_json_error}
use ccfolio.Security.Password.{hash_password_with_argon2, verify_user_password}
use ccfolio.Security.Token.{Config, create_jwt_token}
use ccfolio.Entities.OperationResult.{OperationResult, is_success, get_result, get_error_message}
use ccfolio.Entities.User.{User, make_user}
use ccfolio.Dtos.{UserDto, ResponseDto, response_success, response_failure}
use ccfolio.Interfaces.{IUserRepository}

-- The libraries and the configuration that the service is linked with.
pub record Libraries : Type 1 where
  pub argon2 : Argon2
  pub jwt : Jwt
  pub json : JsonLib
  pub config : Config

-- The two `catch` clauses of both operations log the exception and differ in the answer.
unfoldable pub failure_text : Exception → Str
failure_text (json_error m) = text "Invalid JSON format"
failure_text _ = text "Something happened, please try again later"

unfoldable pub on_service_failure :
    {D : Type 0} → JsonLib → Exception → M (World D) (ResponseDto UserDto)
unfolding log failure_text
on_service_failure json e = do log_error json e; pure (response_failure (failure_text e))

-- `optional.value()`
unfoldable pub value : {S A : Type 0} → Option A → M S A
value none = raise (bad_optional_access (text "bad optional access"))
value (some a) = pure a

unfoldable pub has_value {ℓ} : {A : Type ℓ} → Option A → Bool
has_value none = false
has_value (some a) = true

-- `!userResult.IsSuccess() || !userResult.GetResult().has_value()`
unfoldable pub is_missing : {S : Type 0} → OperationResult (Option User) → M S Bool
unfolding has_value
is_missing user_result =
    if not (is_success user_result)
    then pure true
    else do found ← lift (get_result user_result); pure (not (has_value found))

-- `LOG(LogService::LogLevel::INFO, result.GetErrorMessage()); return Failure(result.GetErrorMessage());`
unfoldable pub report_failure :
    {D T : Type 0} → JsonLib → OperationResult T → M (World D) (ResponseDto UserDto)
unfolding log
report_failure json result = do
  message ← lift (get_error_message result)
  log json info message
  again ← lift (get_error_message result)
  pure (response_failure again)

-- `fmt::format("Wrong username or password for user with username: {}", user.getUsername())`
abbrev pub wrong_password : User → Str
wrong_password user = text "Wrong username or password for user with username: " ++ user.username

module _ (lib : Libraries) {D : Type 0} where
  open lib use {argon2, jwt, json, config}

  -- `std::string username = jsonPayload["username"];` and the same for the password
  unfoldable pub credentials : Str → M (World D) (Str × Str)
  credentials request = do
    payload ← or_json_error (json.parse request)
    name ← or_json_error (json.index payload (text "username"))
    username ← or_json_error (json.get_string name)
    secret ← or_json_error (json.index payload (text "password"))
    password ← or_json_error (json.get_string secret)
    pure (username, password)

  -- A `UserDto` with a new token.
  unfoldable pub grant_token : Str → M (World D) (ResponseDto UserDto)
  grant_token username = do
    token ← create_jwt_token jwt config username
    pure (response_success (record { username = username; token = token }))

  module _ (repo : IUserRepository D) where
    unfoldable pub register : Str × Str → M (World D) (ResponseDto UserDto)
    register (username, password) = do
      hashed ← hash_password_with_argon2 argon2 password
      creation_result ← repo.create_user (make_user username hashed.0 (to_hex_string hashed.1))
      if is_success creation_result
          then grant_token username
          else report_failure json creation_result

    unfoldable pub create_user : Str → M (World D) (ResponseDto UserDto)
    unfolding register
    create_user request =
        try_catch (do given ← credentials request; register given) (on_service_failure json)

    unfoldable pub check_password : Str → User → M (World D) (ResponseDto UserDto)
    unfolding log
    check_password password user = do
      is_login_success ← verify_user_password argon2 user.password_hash user.salt password
      if not is_login_success
          then (do
            log json info (wrong_password user)
            pure (response_failure (text "Wrong username or password!")))
          else grant_token user.username

    unfoldable pub login_found :
        Str → OperationResult (Option User) → M (World D) (ResponseDto UserDto)
    unfolding check_password
    login_found password user_result = do
      found ← lift (get_result user_result)
      user ← value found
      check_password password user

    unfoldable pub login : Str × Str → M (World D) (ResponseDto UserDto)
    unfolding login_found
    login (username, password) = do
      user_result ← repo.get_user_by_username username
      missing ← is_missing user_result
      if missing then report_failure json user_result else login_found password user_result

    unfoldable pub user_login : Str → M (World D) (ResponseDto UserDto)
    unfolding login
    user_login request =
        try_catch (do given ← credentials request; login given) (on_service_failure json)
