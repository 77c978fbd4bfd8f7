-- ===== src/Tests/Tokens.antt =====
-- Passwords, tokens and the authentication middleware, on the stand-ins.
use ccfolio.Common.{
  ◌↔◌, ◌≢◌, ap, inl, inr, false, ℕ, ◌≡◌, refl, ◌↔◌, List, [], ◌∷◌, ◌++◌, true, false, Option, some,
  arith, length, All,
}
use ccfolio.Common.Text.{Str, text}
use ccfolio.Common.Effect.{throw, runtime_error, json_error, Outcome, ok}
use ccfolio.Utility.{to_hex_string}
use ccfolio.Utility.Digits.{IsHexDigit}
use ccfolio.Utility.RoundTrip.{IsByte}
use ccfolio.External.World.{World}
use ccfolio.Http.{HttpRequest, Handler, empty_response}
use ccfolio.Security.Password.{hash_password_with_argon2, verify_user_password}
use ccfolio.Security.Password.RoundTrip.{verify_user_password-hash, hash_password_shape}
use ccfolio.Security.Password.Accepts.{Hashes, verify_user_password-Hashes}
use ccfolio.Security.Token.{create_jwt_token, verify_token, validate_token}
use ccfolio.Security.Token.Lifetime.{verify_token-create, verify_token-expired}
use ccfolio.Security.Token.Validation.{HasToken, Decides, validate_token-Decides}
use ccfolio.Controllers.{handle_hello_world}
use ccfolio.Tests.Libraries.{argon2, argon2_laws, jwt, jwt_laws, config, json, libraries}
use ccfolio.App.{http_router}
use ccfolio.Router.Lookup.{NoColon}
use ccfolio.Service.{Libraries}
use ccfolio.External.Beast.{Beast}
use ccfolio.Network.HttpSession
use ccfolio.Network.HttpSession.{Connection, http_session}
use ccfolio.Network.HttpSession.Escapes.{on_read-throws}
use ccfolio.Tests.Database.{Table, odb}
use ccfolio.Tests.Scenario.{run, start, later}

abbrev password : Str
password = text "pw"

abbrev hashed : Outcome (Str × List ℕ) × World Table
hashed = hash_password_with_argon2 argon2 password start

abbrev salt : List ℕ
salt = 5 ∷ 12 ∷ 19 ∷ 26 ∷ 33 ∷ 40 ∷ 47 ∷ 54 ∷ 61 ∷ 68 ∷ 75 ∷ 82 ∷ 89 ∷ 96 ∷ 103 ∷ 110 ∷ []

-- "pw", the salt and the zeros that fill the hash up, as digits.
abbrev hash : Str
hash = text "7077" ++ to_hex_string salt ++ text "0000000000000000000000000000"

hash_is : hashed.0 ≡ ok (hash, salt)
unfolding run
hash_is = refl

verify_user_password-hash_example :
    verify_user_password argon2 hash (to_hex_string salt) password later ≡ (ok true, later)
verify_user_password-hash_example =
    verify_user_password-hash argon2 password hash salt start later hash_is

hash_password_shape_example :
    All IsByte salt
    × (length salt ≡ 16)
    × (length (to_hex_string salt) ≡ 32)
    × All IsHexDigit hash
    × (length hash ≡ 64)
hash_password_shape_example =
    hash_password_shape argon2 argon2_laws password hash salt start hash_is

verify_user_password-Hashes_example :
    let r = (verify_user_password argon2 hash (to_hex_string salt) password later).0 in
    ((r ≡ ok true) ↔ Hashes argon2 hash (to_hex_string salt) password (λ t. t ≡ hash))
    × ((r ≡ ok false) ↔ Hashes argon2 hash (to_hex_string salt) password (λ t. t ≢ hash))
    × ((r ≡ throw (runtime_error (text "Error while trying to verify user password")))
        ↔ (¬ Hashes argon2 hash (to_hex_string salt) password (λ t. Unit {0})))
verify_user_password-Hashes_example =
    verify_user_password-Hashes argon2 hash (to_hex_string salt) password later

abbrev token : Str
token = 1000 ∷ 181000 ∷ text "keyccfolio"

created : (create_jwt_token jwt config (text "ann") start).0 ≡ ok token
unfolding run
created = refl

verify_token-create_example : verify_token jwt config token later ≡ (ok true, later)
verify_token-create_example =
    verify_token-create jwt config jwt_laws (text "ann") token start later created (omega arith)
      (omega arith)

abbrev too_late : World Table
too_late = record start { now = 200000 }

verify_token-expired_example : (verify_token jwt config token too_late).0 ≡ ok false
verify_token-expired_example =
    verify_token-expired jwt config jwt_laws (text "ann") token start too_late created (omega arith)

abbrev asking : Option Str → HttpRequest
asking header = record {
  method_string = text "POST";
  target = text "/test";
  find = λ name. header;
  body = [];
  version = 11;
  keep_alive = true;
}

abbrev bearer : HttpRequest
bearer = asking (some (text "Bearer " ++ token))

validate_token-Decides_example :
    Decides jwt config
      (HasToken jwt config (some (text "Bearer " ++ token)) later)
      (later, empty_response)
      (validate_token jwt config bearer (later, empty_response))
validate_token-Decides_example = validate_token-Decides jwt config bearer later empty_response

abbrev hello : Handler Table
hello = handle_hello_world libraries

-- The libraries with a printer that takes no entry of the log.
abbrev strict : Libraries
strict = record libraries { json = record json { dump = λ j. inl (text "invalid UTF-8 byte") } }

abbrev ill_formed : HttpRequest
ill_formed = record bearer { body = text "ann" }

abbrev reading_it : Connection Table
reading_it = (later, http_session)

plain_post : NoColon (text "POST")
unfolding text
plain_post = omega arith

unread : json.parse ill_formed.body ≡ inl (text "parse error")
unfolding run
unread = refl

abbrev no_upgrade : Beast
no_upgrade = record { is_upgrade = λ req. false; need_eof = λ res. false }

on_read-throws_example :
    HttpSession.on_read no_upgrade (http_router strict odb) (inr ill_formed) reading_it
    ≡ (throw (json_error (text "invalid UTF-8 byte")), reading_it)
on_read-throws_example =
    on_read-throws strict odb no_upgrade ill_formed reading_it (text "parse error")
      (text "invalid UTF-8 byte") plain_post (refl, refl)
      (token, refl, ap (λ r. r.0) verify_token-create_example) refl unread refl
