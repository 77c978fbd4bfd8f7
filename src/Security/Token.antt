-- ===== src/Security/Token.antt =====
-- src/Security/JWTHelper.cc: creating and checking bearer tokens.
pub mod Lifetime
pub mod Validation
use ccfolio.Common.{
  ℕ, zero, suc, ◌+◌, ◌*◌, List, [], ◌∷◌, ◌++◌, Bool, true, false, ◌&&◌, not, Option, none, some,
  ◌==◌, if◌then◌else◌, drop,
}
use ccfolio.Common.Text.{Str, text}
use ccfolio.Common.Effect.{
  Exception, runtime_error, what, Outcome, ok, throw, M, pure, raise, lift, ◌>>=◌, ◌>>◌, try_catch,
}
use ccfolio.Logging.{error}
use ccfolio.External.World.{World, log, log_error, clock}
use ccfolio.External.Jwt.{Jwt, Claims}
use ccfolio.Http.{
  HttpRequest, Status, Exchange, with_world, set_result, set_content_type, set_body,
  prepare_payload,
}

-- `secret_key` and `project_name` of the generated config.hpp
pub record Config : Type 0 where
  pub secret_key : Str
  pub project_name : Str

-- `token.find(prefix) == 0`
unfoldable pub starts_with : Str → Str → Bool
starts_with [] s = true
starts_with (p ∷ ps) [] = false
starts_with (p ∷ ps) (c ∷ s) = p == c && starts_with ps s

-- Three minutes, in milliseconds.
abbrev pub lifetime : ℕ
lifetime = 180000

-- The three refusals of `ValidateToken`.
unfoldable pub refuse : {D : Type 0} → Str → M (Exchange D) Bool
refuse message = do
  set_result Status.unauthorized
  set_content_type (text "application/json")
  set_body message
  prepare_payload
  pure false

module _ (lib : Jwt) (config : Config) where
  open lib use {sign, decode, verify}

  unfoldable pub claims_at : Str → ℕ → Claims
  claims_at username now = record {
    token_type = text "JWS";
    issuer = config.project_name;
    issued_at = now;
    expires_at = now + lifetime;
    username = username;
  }

  unfoldable pub create_jwt_token : {D : Type 0} → Str → M (World D) Str
  create_jwt_token username =
      try_catch (do now ← clock; lift (sign (claims_at username now) config.secret_key))
        λ e. do log_error e; raise (runtime_error (text "Error while trying to create JWT token"))

  unfoldable pub verify_token : {D : Type 0} → Str → M (World D) Bool
  verify_token token =
      try_catch
        (do
          decoded ← lift (decode token)
          now ← clock
          lift (verify config.secret_key config.project_name now decoded)
          pure true)
        λ e. do log error (text "Error while trying to verify token. Error: " ++ what e); pure false

  pub check_bearer : {D : Type 0} → Str → M (Exchange D) Bool
  check_bearer token = do
    valid ← with_world (verify_token (drop 7 token))
    if not valid then refuse (text "Invalid or expired token") else pure true

  pub check_header : {D : Type 0} → Option Str → M (Exchange D) Bool
  unfolding check_bearer
  check_header none = refuse (text "Authorization header is missing")
  check_header (some token) =
      if not (starts_with (text "Bearer ") token)
      then refuse (text "Invalid token format")
      else check_bearer token

  unfoldable pub validate_token : {D : Type 0} → HttpRequest → M (Exchange D) Bool
  unfolding check_header
  validate_token req = try_catch (check_header (req.find (text "Authorization"))) λ e. do
    with_world (log error (text "Error while trying to validate token. Error: " ++ what e))
    pure false
