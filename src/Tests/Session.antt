-- ===== src/Tests/Session.antt =====
-- Registration, login and the use of a token, at one user.
use ccfolio.Common.{
  ◌⊎◌, if◌then◌else◌, arith, true, ◌++◌, some, ◌≡◌, ◌≢◌, refl, ◌∷◌, ◌++◌, true, Option, none, some,
  arith,
}
use ccfolio.Common.Text.{Str, text}
use ccfolio.Common.Effect.{Outcome, ok}
use ccfolio.External.World.{World}
use ccfolio.Http.{HttpRequest}
use ccfolio.Entities.OperationResult.{failure_result, option_default}
use ccfolio.Dtos.{UserDto, ResponseDto, response_success}
use ccfolio.Security.Token.{verify_token}
use ccfolio.Security.Token.Validation.{HasToken}
use ccfolio.Repositories.UserRepository.{something_happened, get_user_by_username, user_repository}
use ccfolio.Router.Lookup.{NoColon}
use ccfolio.Service.{credentials, user_login}
use ccfolio.Service.Login.{user_login-Admitted, Admitted}
use ccfolio.Service.Registered.{create_user-Registered, Registered}
use ccfolio.Service.RoundTrip.{user_login-create_user}
use ccfolio.Controllers.{handle_hello_world, handle_create_user, handle_user_login}
use ccfolio.Middleware.{with_authentication}
use ccfolio.Middleware.Gate.{denied}
use ccfolio.App.{serve}
use ccfolio.App.Table.{asks, blank, not_found_response, create_path, login_path, test_path}
use ccfolio.App.Dispatch.{serve-dispatch}
use ccfolio.App.Session.{serve-test, serve-test_after_login}
use ccfolio.Tests.Libraries.{jwt, jwt_laws, config, libraries}
use ccfolio.Tests.Database.{Table, odb, odb_laws}
use ccfolio.Tests.Scenario.{run, start, later, ann_body, ann_dto, registration, registered}

found_later :
    (get_user_by_username odb ann_dto.username later).0 ≢ ok (failure_result something_happened)
unfolding run
found_later e = cc

abbrev ann_login : Outcome (ResponseDto UserDto) × World Table
ann_login = user_login libraries (user_repository odb) ann_body later

user_login-create_user_example :
    (token : Str) × (ann_login.0
      ≡ ok (response_success (record { username = text "ann"; token = token })))
    × (verify_token jwt config token later ≡ (ok true, later))
unfolding run odb_laws
user_login-create_user_example =
    user_login-create_user libraries odb odb_laws jwt_laws ann_body start later ann_dto
      (λ claims key. (_, refl)) registered refl refl found_later

create_user-Registered_example :
    (given : Str × Str) × (credentials libraries ann_body start ≡ (ok given, start))
    × Registered libraries odb odb_laws given ann_dto start registration.1
create_user-Registered_example =
    create_user-Registered libraries odb odb_laws ann_body start ann_dto registered

abbrev logged_in : UserDto
logged_in = record { username = text "ann"; token = 5000 ∷ 185000 ∷ text "keyccfolio" }

login_works : ann_login.0 ≡ ok (response_success logged_in)
unfolding run
login_works = refl

user_login-Admitted_example :
    (given : Str × Str) × (credentials libraries ann_body later ≡ (ok given, later))
    × Admitted libraries (user_repository odb) given logged_in later
user_login-Admitted_example =
    user_login-Admitted libraries (user_repository odb) ann_body later logged_in login_works

abbrev request : Str → Option Str → HttpRequest
request target header = record {
  method_string = text "POST";
  target = target;
  find = λ name. header;
  body = ann_body;
  version = 11;
  keep_alive = true;
}

plain : NoColon (text "POST")
unfolding text
plain = ((λ e. omega arith), ((λ e. omega arith), ((λ e. omega arith), ((λ e. omega arith), tt))))

abbrev with_token : HttpRequest
with_token = request test_path (some (text "Bearer " ++ logged_in.token))

-- A minute after the login.
abbrev at_use : World Table
at_use = record later { now = 65000 }

serve-test_after_login_example :
    serve libraries odb with_token at_use
    ≡ handle_hello_world libraries with_token (at_use, blank with_token)
unfolding run odb_laws
serve-test_after_login_example =
    serve-test_after_login libraries odb odb_laws jwt_laws ann_body start later at_use ann_dto
      logged_in with_token (λ claims key. (_, refl)) registered refl refl login_works found_later
      plain (refl, refl) refl (omega arith) (omega arith)

abbrev login_request : HttpRequest
login_request = request login_path none

serve-dispatch_example : serve libraries odb login_request start ≡ (
    if asks login_request create_path
    then handle_create_user libraries
        (user_repository odb)
        login_request
        (start, blank login_request)
    else if asks login_request login_path
    then handle_user_login libraries
        (user_repository odb)
        login_request
        (start, blank login_request)
    else if asks login_request test_path
    then with_authentication jwt config
        (handle_hello_world libraries)
        login_request
        (start, blank login_request)
    else (ok tt, (start, not_found_response login_request)))
serve-dispatch_example = serve-dispatch libraries odb login_request start plain

abbrev no_token : HttpRequest
no_token = request test_path none

serve-test_example :
    (HasToken jwt config none start
      × (serve libraries odb no_token start
          ≡ handle_hello_world libraries no_token (start, blank no_token)))
    ⊎ ((¬ HasToken jwt config none start)
        × ((serve libraries odb no_token start).1.1 ≡ denied (blank no_token))
        × ((serve libraries odb no_token start).1.0.db ≡ start.db))
serve-test_example = serve-test libraries odb no_token start plain (refl, refl)
