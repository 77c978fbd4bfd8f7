-- ===== src/App.antt =====
-- app/main.cc and `handle_request` of src/Network/HttpSession.cc: the routing table of the program,
-- and the response to a request.
pub mod Table
pub mod Main
pub mod Dispatch
pub mod Session
pub mod Requests
use ccfolio.Common.{ℕ, [], Bool, not, if◌then◌else◌}
use ccfolio.Common.Text.{Str, text}
use ccfolio.Common.Effect.{M, pure, ◌>>=◌, ◌>>◌, Outcome, ok, throw}
use ccfolio.External.World.{World}
use ccfolio.External.Odb.{Odb}
use ccfolio.Entities.User.{User}
use ccfolio.Repositories.UserRepository.{user_repository}
use ccfolio.Service.{Libraries}
use ccfolio.Controllers.{user_controller, test_controller}
use ccfolio.Http.{
  HttpRequest, HttpResponse, Status, Exchange, empty_response, modify, set_result, set_content_type,
  set_body, prepare_payload,
}
use ccfolio.Router.{Routes}
use ccfolio.Router

-- The answer to a request that no route takes.
unfoldable pub not_found : {D : Type 0} → M (Exchange D) (Unit {0})
not_found = do
  set_result Status.not_found
  set_content_type (text "text/plain")
  set_body (text "Not Found")
  prepare_payload

-- `handle_request(doc_root, req, send, router_)` up to the call of `send`: the final response is in
-- the state.
unfoldable pub handle_request : {D : Type 0} → Routes D → HttpRequest → M (Exchange D) (Unit {0})
handle_request router req = do
  modify λ res. record res { version = req.version; keep_alive = req.keep_alive }
  handled ← Router.handle_request router req
  if not handled then not_found else pure tt

module _ (lib : Libraries) (odb : Odb User ℕ Str) where
  -- the router that `main` builds: the user controller first, then the test controller
  unfoldable pub http_router : Routes odb.Db
  http_router = test_controller lib (user_controller lib (user_repository odb) [])

  -- One request against the running program: the new world and the response that is sent.
  unfoldable pub serve : HttpRequest → World odb.Db → Outcome (Unit {0}) × Exchange odb.Db
  serve req w = handle_request http_router req (w, empty_response)
