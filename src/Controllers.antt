-- ===== src/Controllers.antt =====
-- app/Controllers: the handlers and their routes.
pub mod Answers
pub mod Keeps
use ccfolio.Common.{Bool, true, false, List, [], ◌∷◌, ◌++◌, if◌then◌else◌}
use ccfolio.Common.Text.{Str, text}
use ccfolio.Common.Effect.{Exception, M, pure, ◌>>=◌, ◌>>◌, try_catch, Outcome, ok, throw}
use ccfolio.External.World.{World}
use ccfolio.Logging.Macro.{log, log_error}
use ccfolio.External.Json.{JsonLib, or_json_error}
use ccfolio.Http.{
  HttpRequest, Status, Handler, Exchange, with_world, set_result, set_content_type, set_body,
  prepare_payload,
}
use ccfolio.Dtos.{UserDto, ResponseDto, response_to_json, user_to_json}
use ccfolio.Interfaces.{IUserRepository}
use ccfolio.Service.{Libraries, create_user, user_login}
use ccfolio.Middleware.{with_authentication}
use ccfolio.Router.{Routes, add_route}

-- `catch (const std::exception &e)` of every handler
abbrev pub log_only : {D : Type 0} → JsonLib → Exception → M (Exchange D) (Unit {0})
log_only json e = with_world (log_error json e)

-- `res.result(status); res.set(…); res.body() = j.dump(); res.prepare_payload();`
unfoldable pub send_json :
    {D : Type 0} (json : JsonLib) → Status → json.Json → M (Exchange D) (Unit {0})
send_json json status j = do
  set_result status
  set_content_type (text "application/json")
  body ← or_json_error (json.dump j)
  set_body body
  prepare_payload

-- The two branches of the handlers of `UserController`.
unfoldable pub respond : {D : Type 0} → JsonLib → ResponseDto UserDto → M (Exchange D) (Unit {0})
respond json r =
    if r.is_success
    then send_json json Status.ok (response_to_json json (user_to_json json) r)
    else send_json json Status.bad_request (response_to_json json (user_to_json json) r)

module _ (lib : Libraries) {D : Type 0} where
  open lib use {jwt, json, config}

  module _ (repo : IUserRepository D) where
    unfoldable pub handle_create_user : Handler D
    handle_create_user req =
        try_catch
          (do
            create_user_result ← with_world (create_user lib repo req.body)
            respond json create_user_result)
          (log_only json)

    unfoldable pub handle_user_login : Handler D
    handle_user_login req =
        try_catch
          (do
            get_user_result ← with_world (user_login lib repo req.body)
            respond json get_user_result)
          (log_only json)

    -- the constructor of `UserController`
    unfoldable pub user_controller : Routes D → Routes D
    user_controller router =
        add_route (add_route router (text "POST") (text "/user/create") handle_create_user)
          (text "POST") (text "/user/login") handle_user_login

  unfoldable pub handle_hello_world : Handler D
  handle_hello_world req =
      try_catch
        (do
          payload ← or_json_error (json.parse req.body)
          name ← or_json_error (json.index payload (text "username"))
          username ← or_json_error (json.get_string name)
          send_json json Status.ok
              (json.assign json.null (text "message") (json.of_string (text "Hello " ++ username))))
        (log_only json)

  -- the constructor of `TestController`
  unfoldable pub test_controller : Routes D → Routes D
  test_controller router =
      add_route router (text "POST") (text "/test")
        (with_authentication jwt config handle_hello_world)
