-- ===== src/Service/Login.antt =====
-- app/Services/UserService.h: who can log in.
use ccfolio.Common.{◌≡◌, sym, ap, ◌∙◌, inl, inr, true, false, Option, none, some, ◌≢◌, []}
use ccfolio.Common.Text.{Str}
use ccfolio.Common.Effect.{Exception, json_error, what, ok, Outcome-cases}
use ccfolio.Common.Effect.Rules.{ok_inj, recover-eq-ok}
use ccfolio.External.World.{World}
use ccfolio.External.Json.{JsonLib}
use ccfolio.Logging.{info, error}
use ccfolio.Logging.Macro.{log-cases}
use ccfolio.Entities.OperationResult.{OperationResult, get_result, get_error_message}
use ccfolio.Entities.User.{User}
use ccfolio.Dtos.{UserDto, ResponseDto, response_success, response_failure}
use ccfolio.Interfaces.{IUserRepository}
use ccfolio.Security.Password.{verify_user_password}
use ccfolio.Security.Token.{create_jwt_token}
use ccfolio.Service.{
  Libraries, on_service_failure, value, report_failure, credentials, grant_token, check_password,
  login_found, login, user_login, is_missing, wrong_password,
}
use ccfolio.Service.Credentials.{credentials-cases, unread-invalid_json}

-- The user of a response, for equations between two responses.
user_of : ResponseDto UserDto → Str
user_of r = elim r.result [ some u ↦ u.username | none ↦ [] ]

pub response_failure-ne-success :
    (m : Str) (dto : UserDto) → response_failure {T = UserDto} m ≢ response_success dto
unfolding response_failure response_success
response_failure-ne-success m dto e = cc (ap (λ (r : ResponseDto UserDto). r.is_success) e)

pub on_service_failure-ne-success :
    {D : Type 0} (json : JsonLib) (x : Exception) (w : World D) (dto : UserDto)
    → (on_service_failure json x w).0 ≢ ok (response_success dto)
unfolding on_service_failure
on_service_failure-ne-success json x w dto e = elim (log-cases json error (what x) w) [
  | inl (_, _, f) ↦ response_failure-ne-success _ dto (ok_inj (rw f at e))
  | inr (_, _, f) ↦ let bad = rw f at e in cc
]

pub report_failure-ne-success :
    {D T : Type 0} (json : JsonLib) (r : OperationResult T) (w : World D) (dto : UserDto)
    → (report_failure json r w).0 ≢ ok (response_success dto)
unfolding report_failure
report_failure-ne-success json r w dto e = elim (Outcome-cases (get_error_message r)) [
  | inl (m, f) ↦ elim (log-cases json info m w) [
    | inl (_, _, g) ↦ response_failure-ne-success m dto (ok_inj (rw (f, g) at e))
    | inr (_, _, g) ↦ let bad = rw (f, g) at e in cc
  ]
  | inr (x, f) ↦ let bad = rw f at e in cc
]

module _ (lib : Libraries) {D : Type 0} where
  open lib use {argon2, jwt, json, config}

  pub grant_token-success :
      (username : Str) (w : World D) (dto : UserDto)
      → (grant_token lib username w).0 ≡ ok (response_success dto)
      → dto.username ≡ username
  unfolding grant_token response_success user_of
  grant_token-success username w dto e =
      elim (Outcome-cases (create_jwt_token jwt config username w).0) [
        | inl (token, f) ↦ sym (ap user_of (ok_inj (rw f at e)))
        | inr (x, f) ↦ let bad = rw f at e in cc
      ]

  module _ (repo : IUserRepository D) where
    -- A login that got past every check.
    pub record Admitted (given : Str × Str) (dto : UserDto) (w : World D) : Type 0 where
      pub result : OperationResult (Option User)
      pub user : User
      pub at_check : World D
      pub looked_up : (repo.get_user_by_username given.0 w).0 ≡ ok result
      pub found : get_result result ≡ ok (some user)
      pub checked :
          (verify_user_password argon2 user.password_hash user.salt given.1 at_check).0 ≡ ok true
      pub named : dto.username ≡ user.username

    check_password-success :
        (password : Str) (user : User) (w : World D) (dto : UserDto)
        → (check_password lib repo password user w).0 ≡ ok (response_success dto)
        → ((verify_user_password argon2 user.password_hash user.salt password w).0 ≡ ok true)
          × (dto.username ≡ user.username)
    unfolding check_password
    check_password-success password user w dto e =
        let v = verify_user_password argon2 user.password_hash user.salt password w in
        elim (Outcome-cases v.0) [
          | inl (true, f) ↦ (f, grant_token-success user.username v.1 dto (rw f at e))
          | inl (false, f) ↦ elim (log-cases json info (wrong_password user) v.1) [
            | inl (_, _, g) ↦ absurd (response_failure-ne-success _ dto (ok_inj (rw (f, g) at e)))
            | inr (_, _, g) ↦ let bad = rw (f, g) at e in cc
          ]
          | inr (x, f) ↦ let bad = rw f at e in cc
        ]

    login_found-success :
        (password : Str) (result : OperationResult (Option User)) (w : World D) (dto : UserDto)
        → (login_found lib repo password result w).0 ≡ ok (response_success dto)
        → (user : User) × (get_result result ≡ ok (some user))
          × ((check_password lib repo password user w).0 ≡ ok (response_success dto))
    unfolding login_found value
    login_found-success password result w dto e = elim (Outcome-cases (get_result result)) [
      | inl (some user, f) ↦ (user, f, rw f at e)
      | inl (none, f) ↦ let bad = rw f at e in cc
      | inr (x, f) ↦ let bad = rw f at e in cc
    ]

    login-success :
        (given : Str × Str) (w : World D) (dto : UserDto)
        → (login lib repo given w).0 ≡ ok (response_success dto)
        → Admitted given dto w
    unfolding login
    login-success given w dto e =
        let v = repo.get_user_by_username given.0 w in
        elim (Outcome-cases v.0) [
          | inl (result, f) ↦
              let m = is_missing {S = World D} result v.1 in
              elim (Outcome-cases m.0) [
                | inl (true, g) ↦
                    absurd (report_failure-ne-success json result m.1 dto (rw (f, g) at e))
                | inl (false, g) ↦
                    let (user, found, rest) =
                      login_found-success given.1 result m.1 dto (rw (f, g) at e) in
                    let (checked, same) = check_password-success given.1 user m.1 dto rest in
                    record {
                      result = result;
                      user = user;
                      at_check = m.1;
                      looked_up = f;
                      found = found;
                      checked = checked;
                      named = same;
                    }
                | inr (x, g) ↦ let bad = rw (f, g) at e in cc
              ]
          | inr (x, f) ↦ let bad = rw f at e in cc
        ]

    -- A login that is answered with success has a body that was read, found a user in the repository
    -- under the name given, and had the password accepted against what is stored for that user, whose
    -- name is in the answer.
    pub user_login-Admitted :
        (request : Str) (w : World D) (dto : UserDto)
        → (user_login lib repo request w).0 ≡ ok (response_success dto)
        → (given : Str × Str) × (credentials lib request w ≡ (ok given, w)) × Admitted given dto w
    unfolding user_login
    user_login-Admitted request w dto e = elim (credentials-cases lib {D = D} request) [
      | inl (given, reads) ↦
          let f = reads w in
          let run = rw f at e in
          elim (recover-eq-ok (on_service_failure json) (login lib repo given w) _ run) [
            | inl success ↦ (given, f, login-success given w dto success)
            | inr (x, thrown, handled) ↦ absurd (on_service_failure-ne-success json x _ dto handled)
          ]
      | inr (m, unread) ↦
          let f = unread w in
          absurd (
            on_service_failure-ne-success json (json_error m) w dto
              (ap (λ r. r.0) (sym (unread-invalid_json lib repo request w m f).1) ∙ e))
    ]
