-- ===== src/Tests/Scenario.antt =====
-- One user of the program, from an empty table to a login.
use ccfolio.Common.{ℕ, ◌≡◌, refl, List, [], ◌∷◌, Bool, false}
use ccfolio.Common.Text.{Str, text, str_eq}
use ccfolio.Common.Effect.{Outcome, ok, what}
use ccfolio.Utility.{put_byte, to_hex_string, from_hex_string}
use ccfolio.External.World.{World}
use ccfolio.External.Odb.Laws.{select}
use ccfolio.Entities.OperationResult.{
  success_result, failure_result, is_success, get_result, get_error_message,
}
use ccfolio.Entities.User.{User, make_user}
use ccfolio.Dtos.{UserDto, ResponseDto, response_success, response_failure}
use ccfolio.Security.Password.{
  hex_stream, checked_hash, fill, generate_random_salt, hash_raw, hash_password_with_argon2,
  verify_password_with_argon2, verify_user_password,
}
use ccfolio.Security.Token.{
  starts_with, refuse, claims_at, create_jwt_token, verify_token, validate_token,
}
use ccfolio.Repositories.OdbRepository
use ccfolio.Repositories.OdbRepository.{on_failure, push_all}
use ccfolio.Repositories.UserRepository
use ccfolio.Repositories.UserRepository.{
  not_found_message, already_exist_message, not_created_message, on_odb_failure, on_lookup_failure,
  first_row, get_user_by_username, store, user_repository,
}
use ccfolio.Service.{
  on_service_failure, value, has_value, is_missing, report_failure, credentials, grant_token,
  register, create_user, check_password, login_found, login, user_login,
}
use ccfolio.Tests.Libraries.{
  fit, decode, answer, verify, index, get_string, print, parse, libraries,
}
use ccfolio.Tests.Database.{Table, first_of, run_query, odb}

-- Everything that a run computes.
unfoldable pub run : Unit {0}
unfolding text str_eq what put_byte to_hex_string from_hex_string select success_result
    failure_result is_success get_result get_error_message make_user response_success
    response_failure hex_stream checked_hash fill generate_random_salt hash_raw
    hash_password_with_argon2 verify_password_with_argon2 verify_user_password starts_with refuse
    claims_at create_jwt_token verify_token validate_token on_failure push_all not_found_message
    already_exist_message not_created_message on_odb_failure on_lookup_failure first_row
    get_user_by_username store on_service_failure value has_value is_missing report_failure
    credentials grant_token register create_user check_password login_found login user_login fit
    decode answer verify index get_string print parse first_of run_query OdbRepository.create
    OdbRepository.read OdbRepository.update OdbRepository.delete OdbRepository.read_all
    UserRepository.create_user
run = tt

abbrev pub table : List User → Bool → Table
table users down = record { stored = users; seen = []; next = 7; query_down = down }

abbrev pub at_time : Table → ℕ → World Table
at_time d now = record { db = d; now = now; device = λ k. ok 5; reads = 0; log = [] }

abbrev pub start : World Table
start = at_time (table [] false) 1000

abbrev pub ann_body : Str
ann_body = text "ann:pw"

abbrev pub registration : Outcome (ResponseDto UserDto) × World Table
registration = create_user libraries (user_repository odb) ann_body start

abbrev pub later : World Table
later = record registration.1 { now = 5000 }

abbrev pub ann_dto : UserDto
ann_dto = record { username = text "ann"; token = 1000 ∷ 181000 ∷ text "keyccfolio" }

pub registered : registration.0 ≡ ok (response_success ann_dto)
unfolding run
registered = refl
