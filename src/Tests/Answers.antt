-- ===== src/Tests/Answers.antt =====
-- The conversions, the results, the router and the handlers, at small inputs.
use ccfolio.Common.{ℕ, ◌≡◌, ◌⊎◌, List, [], ◌∷◌, true, none, arith, All}
use ccfolio.Common.Text.{Str, text}
use ccfolio.Common.Effect.{ok}
use ccfolio.Utility.{to_hex_string, from_hex_string}
use ccfolio.Utility.RoundTrip.{IsByte, from_hex_string-to_hex_string}
use ccfolio.Logging.Macro.{Unprinted}
use ccfolio.Http.{HttpRequest, Handler}
use ccfolio.Entities.OperationResult.{bool_default}
use ccfolio.Dtos.{UserDto, ResponseDto, IsWellFormed}
use ccfolio.Repositories.UserRepository.{user_repository}
use ccfolio.Router.{Routes, add_route}
use ccfolio.Router.Lookup.{NoColon}
use ccfolio.Service.{create_user, user_login}
use ccfolio.Service.Total.{service_returns}
use ccfolio.Controllers.{handle_create_user, handle_hello_world}
use ccfolio.Tests.Libraries.{json, libraries}
use ccfolio.Tests.Database.{Table, odb}
use ccfolio.Tests.Scenario.{start, ann_body}

abbrev bytes : List ℕ
bytes = 0 ∷ 255 ∷ 16 ∷ []

bytes-IsByte : All IsByte bytes
bytes-IsByte = (omega arith, (omega arith, (omega arith, tt)))

from_hex_string-to_hex_string_example : from_hex_string (to_hex_string bytes) ≡ ok bytes
from_hex_string-to_hex_string_example = from_hex_string-to_hex_string bytes bytes-IsByte

abbrev hello : Handler Table
hello = handle_hello_world libraries

post_plain : NoColon (text "POST")
unfolding text
post_plain = omega arith

get_plain : NoColon (text "GET")
unfolding text
get_plain = omega arith

abbrev routes : Routes Table
routes =
    add_route [] (text "POST") (text "/test") (handle_create_user libraries (user_repository odb))

service_returns_example :
    (((r : ResponseDto UserDto) × ((create_user libraries (user_repository odb) ann_body start).0
          ≡ ok r)
        × IsWellFormed r)
      ⊎ Unprinted json (create_user libraries (user_repository odb) ann_body start).0)
    × (((r : ResponseDto UserDto) × ((user_login libraries (user_repository odb) ann_body start).0
            ≡ ok r)
          × IsWellFormed r)
        ⊎ Unprinted json (user_login libraries (user_repository odb) ann_body start).0)
service_returns_example = service_returns libraries (user_repository odb) ann_body start

abbrev req : Str → HttpRequest
req body = record {
  method_string = text "POST";
  target = text "/test";
  find = λ name. none;
  body = body;
  version = 11;
  keep_alive = true;
}
