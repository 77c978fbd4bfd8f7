-- ===== src/Service/Registered.antt =====
-- app/Services/UserService.h over app/Repositories/UserRepository.h: what a registration stores.
use ccfolio.Common.{ℕ, ◌≡◌, sym, ap, ◌∙◌, inl, inr, List, [], ◌∷◌, ◌++◌, subst}
use ccfolio.Common.Text.{Str}
use ccfolio.Common.Effect.{json_error, ok, Outcome-cases}
use ccfolio.Common.Effect.Rules.{recover-eq-ok, recover_returned}
use ccfolio.Utility.{to_hex_string}
use ccfolio.External.World.{World}
use ccfolio.External.Odb.{Odb}
use ccfolio.External.Odb.Laws.{OdbLaws}
use ccfolio.Entities.OperationResult.{success_result, failure_result, is_success}
use ccfolio.Entities.User.{User, make_user}
use ccfolio.Dtos.{UserDto, response_success}
use ccfolio.Security.Password.{
  hash_password_with_argon2, generate_random_salt, checked_hash, hash_raw, fill,
}
use ccfolio.Security.Token.{create_jwt_token, claims_at}
use ccfolio.Repositories.UserRepository.{user_repository}
use ccfolio.Repositories.UserRepository
use ccfolio.Repositories.UserRepository.Lookup.{user_schema}
use ccfolio.Repositories.UserRepository.Registration.{create_user-cases, with_id}
use ccfolio.Service.{Libraries, on_service_failure, credentials, grant_token, register, create_user}
use ccfolio.Service.Credentials.{credentials-cases, unread-invalid_json}
use ccfolio.Service.Login.{
  on_service_failure-ne-success, report_failure-ne-success, grant_token-success,
}

module _ (lib : Libraries) {D : Type 0} where
  open lib use {argon2, jwt, config}

  pub hash_password-db :
      (password : Str) (w : World D) → (hash_password_with_argon2 argon2 password w).1.db ≡ w.db
  unfolding hash_password_with_argon2 generate_random_salt
  hash_password-db password w = elim (Outcome-cases (w.device w.reads)) [
    | inl (seed, read) ↦
        elim (Outcome-cases (checked_hash (hash_raw argon2 password (fill argon2 seed 0 16)))) [
          | inl (h, done) ↦ rw (read, done)
          | inr (x, failed) ↦ rw (read, failed)
        ]
    | inr (x, failed) ↦ rw failed
  ]

  pub grant_token-db : (username : Str) (w : World D) → (grant_token lib username w).1.db ≡ w.db
  unfolding grant_token create_jwt_token
  grant_token-db username w =
      elim (Outcome-cases (jwt.sign (claims_at jwt config username w.now) config.secret_key)) [
        | inl (token, signed) ↦ rw signed
        | inr (x, failed) ↦ rw failed
      ]

module _ (lib : Libraries) (odb : Odb User ℕ Str) (laws : OdbLaws odb user_schema) where
  open lib use {argon2, json}
  open laws use {rows}

  -- What a registration of `given` that was answered with `dto` has done.
  pub record Registered (given : Str × Str) (dto : UserDto) (w w' : World odb.Db) : Type 0 where
    pub hash : Str
    pub salt : List ℕ
    pub id : ℕ
    pub hashed : (hash_password_with_argon2 argon2 given.1 w).0 ≡ ok (hash, salt)
    pub stored :
        rows w'.db ≡ rows w.db ++ with_id id (make_user given.0 hash (to_hex_string salt)) ∷ []
    pub named : dto.username ≡ given.0

  register-Registered :
      (given : Str × Str) (w : World odb.Db) (dto : UserDto)
      → (register lib (user_repository odb) given w).0 ≡ ok (response_success dto)
      → Registered given dto w (register lib (user_repository odb) given w).1
  unfolding register is_success success_result failure_result
  register-Registered given w dto e =
      let v = hash_password_with_argon2 argon2 given.1 w in
      elim (Outcome-cases v.0) [
        | inl ((hash, salt), f) ↦
            let user = make_user given.0 hash (to_hex_string salt) in
            let u = UserRepository.create_user odb user v.1 in
            elim (create_user-cases odb laws user v.1) [
              | inl ((refused, same), taken) ↦
                  absurd (report_failure-ne-success json _ u.1 dto (rw (f, refused) at e))
              | inr (_, inr (refused, same)) ↦
                  absurd (report_failure-ne-success json _ u.1 dto (rw (f, refused) at e))
              | inr (_, inl (returned, (id, stored))) ↦ record {
                hash = hash;
                salt = salt;
                id = id;
                hashed = f;
                stored =
                    rw (f, returned)
                      (ap rows (grant_token-db lib given.0 u.1)
                        ∙ stored
                        ∙ ap (λ d. rows d ++ with_id id user ∷ [])
                            (hash_password-db lib given.1 w));
                named = grant_token-success lib given.0 u.1 dto (rw (f, returned) at e);
              }
            ]
        | inr (x, f) ↦ let bad = rw f at e in cc
      ]

  -- A registration that is answered with success has read the body, hashed the password with a new
  -- salt, and appended one row: the name given, the text of the hash and the text of the salt, under a
  -- key of the database's.
  pub create_user-Registered :
      (request : Str) (w : World odb.Db) (dto : UserDto)
      → let r = create_user lib (user_repository odb) request w in
        r.0 ≡ ok (response_success dto)
        → (given : Str × Str) × (credentials lib request w ≡ (ok given, w))
          × Registered given dto w r.1
  unfolding create_user
  create_user-Registered request w dto e = elim (credentials-cases lib {D = odb.Db} request) [
    | inl (given, reads) ↦
        let f = reads w in
        let body = register lib (user_repository odb) given w in
        elim (recover-eq-ok (on_service_failure json) body _ (rw f at e)) [
          | inl success ↦ (
            given,
            f,
            rw f (
                subst (λ t. Registered given dto w t.1)
                  (sym (recover_returned (on_service_failure json) body _ success))
                  (register-Registered given w dto success)),
          )
          | inr (x, thrown, handled) ↦ absurd (on_service_failure-ne-success json x _ dto handled)
        ]
    | inr (m, unread) ↦
        let f = unread w in
        absurd (
          on_service_failure-ne-success json (json_error m) w dto (
            ap (λ r. r.0) (sym (unread-invalid_json lib (user_repository odb) request w m f).0)
            ∙ e))
  ]
