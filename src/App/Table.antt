-- ===== src/App/Table.antt =====
-- app/main.cc and src/Network/Router.h: the routing table of the program, and the responses that a
-- handler starts from.
use ccfolio.Common.{
  Bool, ◌↔◌, ◌&&◌, false, ℕ, ◌≡◌, refl, not, none, some, true, false, arith, if◌then◌else◌,
}
use ccfolio.Common.Text.{Str, text, str_eq, str_eq_iff}
use ccfolio.Common.Effect.{Outcome, throw, continue, pure}
use ccfolio.External.World.{World}
use ccfolio.External.Odb.{Odb}
use ccfolio.Entities.User.{User}
use ccfolio.Http.{HttpRequest, HttpResponse, Status, Handler, Exchange, empty_response}
use ccfolio.Middleware.{with_authentication}
use ccfolio.Repositories.UserRepository.{user_repository}
use ccfolio.Service.{Libraries}
use ccfolio.Controllers.{
  handle_create_user, handle_user_login, handle_hello_world, user_controller, test_controller,
}
use ccfolio.Router.{Routes, key, find, add_route, call}
use ccfolio.Router
use ccfolio.Router.Lookup.{NoColon, find-insert}
use ccfolio.App.{not_found, handle_request, http_router}

abbrev pub AsksFor : HttpRequest → Str → Type 0
AsksFor req path = (req.method_string ≡ text "POST") × (req.target ≡ path)

-- The same as a test.
unfoldable pub asks : HttpRequest → Str → Bool
asks req path = str_eq req.method_string (text "POST") && str_eq req.target path

pub asks_iff : (req : HttpRequest) (path : Str) → (asks req path ≡ true) ↔ AsksFor req path
unfolding asks
asks_iff req path =
    ground (arith, str_eq_iff req.method_string (text "POST"), str_eq_iff req.target path)

pub not_asked : (req : HttpRequest) (path : Str) → asks req path ≡ false → ¬ AsksFor req path
not_asked req path e h = let bad = (asks_iff req path).1 h in cc

-- The response that a handler is given: only the version and keep-alive are copied.
abbrev pub blank : HttpRequest → HttpResponse
blank req = record empty_response { version = req.version; keep_alive = req.keep_alive }

abbrev pub not_found_response : HttpRequest → HttpResponse
not_found_response req = record (blank req) {
  result = Status.not_found;
  content_type = some (text "text/plain");
  body = text "Not Found";
  prepared = true;
}

module _ {D : Type 0} (router : Routes D) (req : HttpRequest) (w : World D) where
  -- The handler decides alone, also where it throws.
  pub handle_request_found :
      (handler : Handler D)
      → find (key req.method_string req.target) router ≡ some handler
      → handle_request router req (w, empty_response) ≡ handler req (w, blank req)
  unfolding handle_request Router.handle_request call
  handle_request_found handler e = rw e (handled (handler req (w, blank req)))
    where
      handled :
          (r : Outcome (Unit {0}) × Exchange D)
          → continue (λ b. if not b then not_found else pure tt) (continue (λ _. pure true) r) ≡ r
      handled (Outcome.ok u, s) = refl
      handled (throw x, s) = refl

  pub handle_request_missing :
      find (key req.method_string req.target) router ≡ none
      → handle_request router req (w, empty_response) ≡ (Outcome.ok tt, (w, not_found_response req))
  unfolding handle_request Router.handle_request call not_found
  handle_request_missing e = rw e

abbrev pub create_path : Str
create_path = text "/user/create"

abbrev pub login_path : Str
login_path = text "/user/login"

abbrev pub test_path : Str
test_path = text "/test"

abbrev pub post : Str → Str
post = key (text "POST")

pub paths_apart :
    (str_eq (post test_path) (post create_path) ≡ false)
    × (str_eq (post test_path) (post login_path) ≡ false)
    × (str_eq (post login_path) (post create_path) ≡ false)
unfolding key text str_eq
paths_apart = (refl, refl, refl)

pub post-NoColon : NoColon (text "POST")
unfolding text
post-NoColon = omega arith

module _ (lib : Libraries) (odb : Odb User ℕ Str) where
  open lib use {jwt, config}

  abbrev pub create_handler : Handler odb.Db
  create_handler = handle_create_user lib (user_repository odb)

  abbrev pub login_handler : Handler odb.Db
  login_handler = handle_user_login lib (user_repository odb)

  abbrev pub test_handler : Handler odb.Db
  test_handler = with_authentication jwt config (handle_hello_world lib)

  -- The table that `main` builds, as a function of the key.
  pub find-http_router :
      (k : Str)
      → find k (http_router lib odb) ≡ (
          if str_eq (post test_path) k
          then some test_handler
          else if str_eq (post login_path) k
          then some login_handler
          else if str_eq (post create_path) k
          then some create_handler
          else none)
  unfolding http_router test_controller user_controller add_route find
  find-http_router k = rw (
    find-insert (post test_path) k test_handler,
    find-insert (post login_path) k login_handler,
    find-insert (post create_path) k create_handler,
  )
