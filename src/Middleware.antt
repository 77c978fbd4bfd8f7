-- ===== src/Middleware.antt =====
-- app/Middleware/AuthenticationMiddleware.h
pub mod Gate
use ccfolio.Common.{Bool, true, false, not, if◌then◌else◌}
use ccfolio.Common.Text.{Str, text}
use ccfolio.Common.Effect.{M, pure, ◌>>=◌, ◌>>◌, Outcome, ok, throw}
use ccfolio.Http.{
  HttpRequest, Status, Handler, Exchange, set_result, set_content_type, set_body, prepare_payload,
}
use ccfolio.External.Jwt.{Jwt}
use ccfolio.Security.Token.{Config, validate_token}

-- The answer to a request whose token is refused.
unfoldable pub deny : {D : Type 0} → M (Exchange D) (Unit {0})
deny = do
  set_result Status.unauthorized
  set_content_type (text "application/json")
  set_body (text "Invalid or missing token")
  prepare_payload

module _ (lib : Jwt) (config : Config) where
  unfoldable pub with_authentication : {D : Type 0} → Handler D → Handler D
  with_authentication func req = do
    valid ← validate_token lib config req
    if not valid then deny else func req
