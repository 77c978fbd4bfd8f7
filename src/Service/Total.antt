-- ===== src/Service/Total.antt =====
-- app/Services/UserService.h: what both operations return, over any repository.
use ccfolio.Common.{◌≡◌, refl, ◌⊎◌, inl, inr, Option, none, some, true, false}
use ccfolio.Common.Text.{Str}
use ccfolio.Common.Effect.{
  Exception, what, M, Outcome, ok, throw, recover, try_catch, ◌>>=◌, Outcome-cases,
}
use ccfolio.Common.Effect.Post.{Post, Post-if}
use ccfolio.External.World.{World}
use ccfolio.External.Json.{JsonLib}
use ccfolio.Logging.{info, error}
use ccfolio.Logging.Macro.{Unprinted, log-cases}
use ccfolio.Entities.OperationResult.{OperationResult, is_success, get_result, get_error_message}
use ccfolio.Entities.User.{User, make_user}
use ccfolio.Utility.{to_hex_string}
use ccfolio.Security.Password.{hash_password_with_argon2, verify_user_password}
use ccfolio.Security.Token.{create_jwt_token}
use ccfolio.Dtos.{UserDto, ResponseDto, IsWellFormed}
use ccfolio.Interfaces.{IUserRepository}
use ccfolio.Service.{
  Libraries, on_service_failure, value, report_failure, credentials, grant_token, register,
  create_user, check_password, login_found, login, user_login, is_missing, wrong_password,
}

abbrev WellFormed : ResponseDto UserDto → Type 0
WellFormed = IsWellFormed

-- A response with a user or a message, or the exception of an entry that could not be printed.
abbrev pub Answered : JsonLib → Outcome (ResponseDto UserDto) → Type 0
Answered json o = ((r : ResponseDto UserDto) × (o ≡ ok r) × IsWellFormed r) ⊎ Unprinted json o

on_service_failure-Answered :
    {D : Type 0} (json : JsonLib) (x : Exception) (w : World D)
    → Answered json (on_service_failure json x w).0
unfolding on_service_failure
on_service_failure-Answered json x w = elim (log-cases json error (what x) w) [
  | inl (_, _, e) ↦ rw e (inl (_, refl, inr (_, refl)))
  | inr (m, p, e) ↦ rw e (inr (m, what x, refl, p))
]

recover-Answered :
    {D : Type 0} (json : JsonLib) (r : Outcome (ResponseDto UserDto) × World D)
    → Post WellFormed r
    → Answered json (recover (on_service_failure json) r).0
recover-Answered json (ok a, s) p = inl (a, refl, p)
recover-Answered json (throw x, s) p = on_service_failure-Answered json x s

report_failure-Post :
    {D T : Type 0} (json : JsonLib) (r : OperationResult T) (w : World D)
    → Post WellFormed (report_failure json r w)
unfolding report_failure
report_failure-Post json r w = elim (Outcome-cases (get_error_message r)) [
  | inl (m, e) ↦ elim (log-cases json info m w) [
    | inl (_, _, f) ↦ rw (e, f) (inr (m, refl))
    | inr (_, _, f) ↦ rw (e, f) tt
  ]
  | inr (x, e) ↦ rw e tt
]

module _ (lib : Libraries) {D : Type 0} where
  open lib use {argon2, jwt, json, config}

  grant_token-Post : (username : Str) (w : World D) → Post WellFormed (grant_token lib username w)
  unfolding grant_token
  grant_token-Post username w = elim (Outcome-cases (create_jwt_token jwt config username w).0) [
    | inl (token, e) ↦ rw e (inl (_, refl))
    | inr (x, e) ↦ rw e tt
  ]

  module _ (repo : IUserRepository D) where
    register-Post : (given : Str × Str) (w : World D) → Post WellFormed (register lib repo given w)
    unfolding register
    register-Post given w = elim (Outcome-cases (hash_password_with_argon2 argon2 given.1 w).0) [
      | inl (hashed, e) ↦
          let user = make_user given.0 hashed.0 (to_hex_string hashed.1) in
          let v = (hash_password_with_argon2 argon2 given.1 w).1 in
          elim (Outcome-cases (repo.create_user user v).0) [
            | inl (result, f) ↦
                let u = (repo.create_user user v).1 in
                rw (e, f)
                  (Post-if WellFormed (is_success result) (grant_token lib given.0)
                    (report_failure json result) u (grant_token-Post given.0 u)
                    (report_failure-Post json result u))
            | inr (x, f) ↦ rw (e, f) tt
          ]
      | inr (x, e) ↦ rw e tt
    ]

    check_password-Post :
        (password : Str) (user : User) (w : World D)
        → Post WellFormed (check_password lib repo password user w)
    unfolding check_password
    check_password-Post password user w =
        let v = verify_user_password argon2 user.password_hash user.salt password w in
        elim (Outcome-cases v.0) [
          | inl (true, e) ↦ rw e (grant_token-Post user.username v.1)
          | inl (false, e) ↦ elim (log-cases json info (wrong_password user) v.1) [
            | inl (_, _, f) ↦ rw (e, f) (inr (_, refl))
            | inr (_, _, f) ↦ rw (e, f) tt
          ]
          | inr (x, e) ↦ rw e tt
        ]

    login_found-Post :
        (password : Str) (result : OperationResult (Option User)) (w : World D)
        → Post WellFormed (login_found lib repo password result w)
    unfolding login_found value
    login_found-Post password result w = elim (Outcome-cases (get_result result)) [
      | inl (some user, e) ↦ rw e (check_password-Post password user w)
      | inl (none, e) ↦ rw e tt
      | inr (x, e) ↦ rw e tt
    ]

    login-Post : (given : Str × Str) (w : World D) → Post WellFormed (login lib repo given w)
    unfolding login
    login-Post given w =
        let v = repo.get_user_by_username given.0 w in
        elim (Outcome-cases v.0) [
          | inl (result, e) ↦ elim (Outcome-cases (is_missing {S = World D} result v.1).0) [
            | inl (missing, f) ↦
                let u = (is_missing {S = World D} result v.1).1 in
                rw (e, f)
                  (Post-if WellFormed missing (report_failure json result)
                    (login_found lib repo given.1 result) u (report_failure-Post json result u)
                    (login_found-Post given.1 result u))
            | inr (x, f) ↦ rw (e, f) tt
          ]
          | inr (x, e) ↦ rw e tt
        ]

    answers :
        (body : Str × Str → M (World D) (ResponseDto UserDto))
        → ((given : Str × Str) (w : World D) → Post WellFormed (body given w))
        → (request : Str) (w : World D)
        → Answered json
            (try_catch
              (do given ← credentials lib request; body given)
              (on_service_failure json)
              w).0
    answers body post request w = elim (Outcome-cases (credentials lib {D = D} request w).0) [
      | inl (given, e) ↦ rw e (recover-Answered json _ (post given _))
      | inr (x, e) ↦ rw e (on_service_failure-Answered json x _)
    ]

    -- On every request and in every world, also where the repository throws, `CreateUser` and
    -- `UserLogin` return a success with a user or a failure with a message, or they end with the
    -- exception of a text that could not be printed for the log. There is no other exception.
    pub service_returns :
        (request : Str) (w : World D)
        → (((r : ResponseDto UserDto) × ((create_user lib repo request w).0 ≡ ok r)
              × IsWellFormed r)
            ⊎ Unprinted json (create_user lib repo request w).0)
          × (((r : ResponseDto UserDto) × ((user_login lib repo request w).0 ≡ ok r)
                × IsWellFormed r)
              ⊎ Unprinted json (user_login lib repo request w).0)
    unfolding create_user user_login
    service_returns request w = (
      answers (register lib repo) register-Post request w,
      answers (login lib repo) login-Post request w,
    )
