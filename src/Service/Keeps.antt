-- ===== src/Service/Keeps.antt =====
-- app/Services/UserService.h: what the two operations do to the database.
use ccfolio.Common.{
  ℕ, List, Bool-cases, ◌∙◌, ◌≡◌, refl, inl, inr, Option, none, some, true, false, subst, sym,
}
use ccfolio.Common.Text.{Str}
use ccfolio.Common.Effect.{
  Exception, json_error, what, M, continue, recover, Outcome, ok, throw, Outcome-cases,
}
use ccfolio.External.Argon2.{Argon2}
use ccfolio.External.World.{World}
use ccfolio.External.Json.{JsonLib}
use ccfolio.Logging.{LogLevel, info, error}
use ccfolio.Logging.Macro.{log, log-cases}
use ccfolio.Entities.OperationResult.{OperationResult, is_success, get_result, get_error_message}
use ccfolio.Entities.User.{User, make_user}
use ccfolio.Utility.{to_hex_string, from_hex_string}
use ccfolio.Security.Password.{
  hash_password_with_argon2, verify_user_password, verify_password_with_argon2, checked_hash,
  hash_raw,
}
use ccfolio.Interfaces.{IUserRepository}
use ccfolio.Service.{
  Libraries, on_service_failure, value, report_failure, register, create_user, check_password,
  login_found, login, user_login, is_missing, wrong_password,
}
use ccfolio.Service.Credentials.{credentials-cases}
use ccfolio.Service.Registered.{hash_password-db, grant_token-db}

module _ {D : Type 0} where
  recover-db :
      {A : Type 0} (h : Exception → M (World D) A) (r : Outcome A × World D)
      → ((x : Exception) (w : World D) → (h x w).1.db ≡ w.db)
      → (recover h r).1.db ≡ r.1.db
  recover-db h (ok a, w) e = refl
  recover-db h (throw x, w) e = e x w

  pub log-db :
      (json : JsonLib) (level : LogLevel) (m : Str) (w : World D) → (log json level m w).1.db ≡ w.db
  log-db json level m w = elim (log-cases json level m w) [
    | inl (_, _, e) ↦ rw e refl
    | inr (_, _, e) ↦ rw e refl
  ]

  continue-db :
      {A B : Type 0} (f : A → M (World D) B) (r : Outcome A × World D)
      → ((a : A) (w : World D) → (f a w).1.db ≡ w.db)
      → (continue f r).1.db ≡ r.1.db
  continue-db f (ok a, w) e = e a w
  continue-db f (throw x, w) e = refl

  on_service_failure-db :
      (json : JsonLib) (x : Exception) (w : World D) → (on_service_failure json x w).1.db ≡ w.db
  unfolding on_service_failure
  on_service_failure-db json x w =
      continue-db _ (log json error (what x) w) (λ a v. refl) ∙ log-db json error (what x) w

  report_failure-db :
      {T : Type 0} (json : JsonLib) (r : OperationResult T) (w : World D)
      → (report_failure json r w).1.db ≡ w.db
  unfolding report_failure
  report_failure-db json r w = elim (Outcome-cases (get_error_message r)) [
    | inl (m, e) ↦ rw e (continue-db _ (log json info m w) (λ a v. refl) ∙ log-db json info m w)
    | inr (x, e) ↦ rw e
  ]

  is_missing-state :
      (r : OperationResult (Option User)) (w : World D) → (is_missing {S = World D} r w).1 ≡ w
  unfolding is_missing
  is_missing-state r w = elim (Bool-cases (is_success r)) [
    | inl e ↦ elim (Outcome-cases (get_result r)) [
      | inl (o, f) ↦ rw (e, f)
      | inr (x, f) ↦ rw (e, f)
    ]
    | inr e ↦ rw e
  ]

  verify_password-db :
      (argon2 : Argon2) (password hash : Str) (salt : List ℕ) (w : World D)
      → (verify_password_with_argon2 argon2 password hash salt w).1.db ≡ w.db
  unfolding verify_password_with_argon2
  verify_password-db argon2 password hash salt w =
      elim (Outcome-cases (checked_hash (hash_raw argon2 password salt))) [
        | inl (h, e) ↦ rw e
        | inr (x, e) ↦ rw e
      ]

  verify_user_password-db :
      (argon2 : Argon2) (hash salt password : Str) (w : World D)
      → (verify_user_password argon2 hash salt password w).1.db ≡ w.db
  unfolding verify_user_password
  verify_user_password-db argon2 hash salt password w =
      elim (Outcome-cases (from_hex_string salt)) [
        | inl (bytes, e) ↦ rw e (
            recover-db _ (verify_password_with_argon2 argon2 password hash bytes w) (λ x v. refl)
            ∙ verify_password-db argon2 password hash bytes w)
        | inr (x, e) ↦ rw e
      ]

module _ (lib : Libraries) {D : Type 0} (repo : IUserRepository D) where
  open lib use {argon2, json}

  -- Let `Q` hold after the repository has created a user where `P` held before, and let it hold
  -- wherever `P` does.
  module _ (P Q : D → Type 0) (weaken : (d : D) → P d → Q d)
      (creates : (user : User) (w : World D) → P w.db → Q (repo.create_user user w).1.db) where
    register-creates :
        (given : Str × Str) (w : World D) → P w.db → Q (register lib repo given w).1.db
    unfolding register
    register-creates given w h =
        let v = hash_password_with_argon2 argon2 given.1 w in
        let before : P v.1.db = subst P (sym (hash_password-db lib given.1 w)) h in
        elim (Outcome-cases v.0) [
          | inl ((hash, salt), e) ↦
              let user = make_user given.0 hash (to_hex_string salt) in
              let u = repo.create_user user v.1 in
              let after : Q u.1.db = creates user v.1 before in
              elim (Outcome-cases u.0) [
                | inl (result, f) ↦ elim (Bool-cases (is_success result)) [
                  | inl b ↦ rw (e, f, b) (subst Q (sym (grant_token-db lib given.0 u.1)) after)
                  | inr b ↦ rw (e, f, b) (subst Q (sym (report_failure-db json result u.1)) after)
                ]
                | inr (x, f) ↦ rw (e, f) after
              ]
          | inr (x, e) ↦ rw e (weaken v.1.db before)
        ]

    pub create_user-creates :
        (request : Str) (w : World D) → P w.db → Q (create_user lib repo request w).1.db
    unfolding create_user
    create_user-creates request w h = elim (credentials-cases lib {D = D} request) [
      | inl (given, reads) ↦
          let e = reads w in
          rw e (
            subst Q
              (sym (
                recover-db (on_service_failure json) (register lib repo given w)
                  (on_service_failure-db json)))
              (register-creates given w h))
      | inr (m, unread) ↦
          let e = unread w in
          rw e (subst Q (sym (on_service_failure-db json (json_error m) w)) (weaken w.db h))
    ]

  -- Let the lookups of the repository keep `P`.
  module _ (P : D → Type 0)
      (looks : (username : Str) (w : World D)
        → P w.db
        → P (repo.get_user_by_username username w).1.db) where
    check_password-keeps :
        (password : Str) (user : User) (w : World D)
        → P w.db
        → P (check_password lib repo password user w).1.db
    unfolding check_password
    check_password-keeps password user w h =
        let v = verify_user_password argon2 user.password_hash user.salt password w in
        let kept : P v.1.db =
          subst P (sym (verify_user_password-db argon2 user.password_hash user.salt password w))
            h in
        elim (Outcome-cases v.0) [
          | inl (true, e) ↦ rw e (subst P (sym (grant_token-db lib user.username v.1)) kept)
          | inl (false, e) ↦
              let m = wrong_password user in
              rw e (
                subst P
                  (sym (continue-db _ (log json info m v.1) (λ a u. refl) ∙ log-db json info m v.1))
                  kept)
          | inr (x, e) ↦ rw e kept
        ]

    login_found-keeps :
        (password : Str) (result : OperationResult (Option User)) (w : World D)
        → P w.db
        → P (login_found lib repo password result w).1.db
    unfolding login_found value
    login_found-keeps password result w h = elim (Outcome-cases (get_result result)) [
      | inl (some user, e) ↦ rw e (check_password-keeps password user w h)
      | inl (none, e) ↦ rw e h
      | inr (x, e) ↦ rw e h
    ]

    login-keeps : (given : Str × Str) (w : World D) → P w.db → P (login lib repo given w).1.db
    unfolding login
    login-keeps given w h =
        let v = repo.get_user_by_username given.0 w in
        let kept : P v.1.db = looks given.0 w h in
        elim (Outcome-cases v.0) [
          | inl (result, e) ↦
              let m = is_missing {S = World D} result v.1 in
              let still : P m.1.db =
                subst (λ (t : World D). P t.db) (sym (is_missing-state result v.1)) kept in
              elim (Outcome-cases m.0) [
                | inl (true, f) ↦
                    rw (e, f) (subst P (sym (report_failure-db json result m.1)) still)
                | inl (false, f) ↦ rw (e, f) (login_found-keeps given.1 result m.1 still)
                | inr (x, f) ↦ rw (e, f) still
              ]
          | inr (x, e) ↦ rw e kept
        ]

    pub user_login-keeps :
        (request : Str) (w : World D) → P w.db → P (user_login lib repo request w).1.db
    unfolding user_login
    user_login-keeps request w h = elim (credentials-cases lib {D = D} request) [
      | inl (given, reads) ↦
          let e = reads w in
          rw e (
            subst P
              (sym (
                recover-db (on_service_failure json) (login lib repo given w)
                  (on_service_failure-db json)))
              (login-keeps given w h))
      | inr (m, unread) ↦
          let e = unread w in rw e (subst P (sym (on_service_failure-db json (json_error m) w)) h)
    ]
