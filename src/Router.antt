-- ===== src/Router.antt =====
-- src/Network/Router.h: handlers by method and target.
pub mod Lookup
use ccfolio.Common.{List, [], ◌∷◌, ◌++◌, Option, none, some, Bool, true, false, if◌then◌else◌}
use ccfolio.Common.Text.{Str, text, str_eq}
use ccfolio.Common.Effect.{M, pure, ◌>>=◌, ◌>>◌, Outcome, ok, throw}
use ccfolio.Http.{HttpRequest, HttpResponse, Handler, Exchange}

-- `std::unordered_map<std::string, Handler>`
abbrev pub Routes : Type 0 → Type 0
Routes D = List (Str × Handler D)

-- `method + ":" + path`
unfoldable pub key : Str → Str → Str
key method path = method ++ text ":" ++ path

module _ {D : Type 0} where
  -- `routes[key] = handler`
  unfoldable pub insert : Str → Handler D → Routes D → Routes D
  insert k handler [] = (k, handler) ∷ []
  insert k handler ((j, old) ∷ routes) =
      if str_eq j k then (j, handler) ∷ routes else (j, old) ∷ insert k handler routes

  -- `routes.find(key)`
  unfoldable pub find : Str → Routes D → Option (Handler D)
  find k [] = none
  find k ((j, handler) ∷ routes) = if str_eq j k then some handler else find k routes

  unfoldable pub add_route : Routes D → Str → Str → Handler D → Routes D
  add_route routes method path handler = insert (key method path) handler routes

  -- `it->second(req, res); return true;`, or false at the end iterator
  unfoldable pub call : Option (Handler D) → HttpRequest → M (Exchange D) Bool
  call none req = pure false
  call (some handler) req = do handler req; pure true

  unfoldable pub handle_request : Routes D → HttpRequest → M (Exchange D) Bool
  handle_request routes req = call (find (key req.method_string req.target) routes) req
