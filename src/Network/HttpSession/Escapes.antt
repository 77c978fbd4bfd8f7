-- ===== src/Network/HttpSession/Escapes.antt =====
-- src/Network/HttpSession.cc over app/Controllers/TestController.h: an exception that leaves a read.
use ccfolio.Common.{ℕ, ◌≡◌, refl, ◌∙◌, false, inl, inr}
use ccfolio.Common.Text.{Str, text}
use ccfolio.Common.Effect.{json_error, what, throw}
use ccfolio.External.World.{World}
use ccfolio.External.Odb.{Odb}
use ccfolio.External.Beast.{Beast}
use ccfolio.Entities.User.{User}
use ccfolio.Http.{HttpRequest, HttpResponse}
use ccfolio.Logging.Macro.{log, log_json}
use ccfolio.Security.Token.Validation.{HasToken}
use ccfolio.Middleware.Gate.{with_authentication-valid}
use ccfolio.Service.{Libraries}
use ccfolio.Controllers.{handle_hello_world}
use ccfolio.Router.Lookup.{NoColon}
use ccfolio.App.{http_router, serve}
use ccfolio.App.Table.{AsksFor, test_path, blank}
use ccfolio.App.Dispatch.{serve-routes}
use ccfolio.Network.HttpSession.{Connection, send_response, on_request, on_read}

module _ (lib : Libraries) where
  open lib use {jwt, json, config}

  hello_throws :
      {D : Type 0} (req : HttpRequest) (w : World D) (res : HttpResponse) (m m' : Str)
      → json.parse req.body ≡ inl m
      → json.dump (log_json json m) ≡ inl m'
      → handle_hello_world lib req (w, res) ≡ (throw (json_error m'), (w, res))
  unfolding handle_hello_world log what
  hello_throws req w res m m' unread unprinted = rw (unread, unprinted) refl

  -- Let a client with a valid token send `POST /test` with a body that is no JSON, and let the message
  -- of the parser, which quotes the body, not print as JSON. Then the exception of the log leaves the
  -- handler of the read: no response and no further read is started, and the connection and the world
  -- stay as they were.
  pub on_read-throws :
      (odb : Odb User ℕ Str) (beast : Beast) (req : HttpRequest) (c : Connection odb.Db)
      (m m' : Str)
      → NoColon req.method_string
      → AsksFor req test_path
      → HasToken jwt config (req.find (text "Authorization")) c.0
      → beast.is_upgrade req ≡ false
      → json.parse req.body ≡ inl m
      → json.dump (log_json json m) ≡ inl m'
      → on_read beast (http_router lib odb) (inr req) c ≡ (throw (json_error m'), c)
  unfolding on_read on_request send_response serve
  on_read-throws odb beast req c m m' plain asks has kept unread unprinted =
      let run =
        (serve-routes lib odb req c.0 plain).2 asks
        ∙ with_authentication-valid jwt config _ req c.0 (blank req) has
        ∙ hello_throws req c.0 (blank req) m m' unread unprinted in
      rw (kept, run) refl
