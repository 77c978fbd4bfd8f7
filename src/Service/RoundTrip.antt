-- ===== src/Service/RoundTrip.antt =====
-- app/Services/UserService.h: a registration and a login after it.
use ccfolio.Common.{
  ℕ, ◌+◌, ◌≤◌, ◌≡◌, sym, ap, ◌∙◌, inl, inr, true, some, List, [], ◌∷◌, ◌++◌, ◌≢◌, subst, arith,
}
use ccfolio.Common.Text.{Str, str_eq_refl}
use ccfolio.Common.Effect.{ok}
use ccfolio.Common.Effect.Rules.{ok_inj, recover_returned}
use ccfolio.Utility.{to_hex_string}
use ccfolio.External.World.{World}
use ccfolio.External.Odb.{Odb}
use ccfolio.External.Odb.Laws.{OdbLaws, select}
use ccfolio.External.Jwt.{JwtLaws, Claims}
use ccfolio.Entities.OperationResult.{
  success_result, failure_result, is_success, get_result, option_default,
}
use ccfolio.Entities.User.{User, make_user}
use ccfolio.Dtos.{UserDto, response_success}
use ccfolio.Security.Password.RoundTrip.{verify_user_password-hash}
use ccfolio.Security.Password.{verify_user_password}
use ccfolio.Security.Token.{lifetime, create_jwt_token, verify_token, claims_at}
use ccfolio.Security.Token.Lifetime.{verify_token-create}
use ccfolio.Repositories.UserRepository.{something_happened, user_repository, get_user_by_username}
use ccfolio.Repositories.UserRepository.Lookup.{
  user_schema, named, get_user_by_username-cases, get_user_by_username-now,
}
use ccfolio.Repositories.UserRepository.Registration.{with_id}
use ccfolio.Service.{
  Libraries, value, credentials, grant_token, check_password, login_found, login, is_missing,
  on_service_failure, create_user, user_login,
}
use ccfolio.Service.Credentials.{credentials-cases}
use ccfolio.Service.Registered.{create_user-Registered}
use mathlib.Core.List.{Mem, mem-cons, not-mem-nil}
use mathlib.Core.Logic.Or

User-set : IsSet User
User-set = hlevel

eq_of_mem-singleton : {u v : User} → Mem u (v ∷ []) → u ≡ v
eq_of_mem-singleton m =
    Or.elim (User-set _ _) (mem-cons.0 m) (λ e. e) (λ none. absurd (not-mem-nil none))

named-append_new :
    (n : Str) (l : List User) (u : User)
    → named n l ≡ []
    → u.username ≡ n
    → named n (l ++ u ∷ []) ≡ u ∷ []
unfolding select
named-append_new n [] u h e = rw (e, str_eq_refl n)
named-append_new n (v ∷ l) u h e = ground (arith, named-append_new n l u)

module _ (lib : Libraries) {D : Type 0} where
  -- Whether and how a body is read does not depend on the world.
  credentials-again :
      (request : Str) (w v : World D) (given : Str × Str)
      → credentials lib request w ≡ (ok given, w)
      → credentials lib request v ≡ (ok given, v)
  credentials-again request w v given e = elim (credentials-cases lib {D = D} request) [
    | inl (other, reads) ↦
        reads v ∙ ap (λ g. (ok g, v)) (ok_inj (ap (λ r. r.0) (sym (reads w) ∙ e)))
    | inr (m, unread) ↦ cc (ap (λ r. r.0) (sym (unread w) ∙ e))
  ]

module _ (lib : Libraries) (odb : Odb User ℕ Str) (laws : OdbLaws odb user_schema) where
  open lib use {argon2, jwt, config}
  open laws use {rows}

  -- Where one row has the name, a lookup that does not fail finds it.
  lookup_only :
      (username : Str) (w : World odb.Db) (user : User)
      → named username (rows w.db) ≡ user ∷ []
      → (get_user_by_username odb username w).0 ≢ ok (failure_result something_happened)
      → (get_user_by_username odb username w).0 ≡ ok (success_result (some user))
  lookup_only username w user only works = elim (get_user_by_username-cases odb laws username w).0 [
    | inl (found, e, listed, _) ↦
        e
        ∙ ap (λ u. ok (success_result (some u)))
            (eq_of_mem-singleton (subst (Mem found) only listed))
    | inr (inl (_, none_named, _)) ↦ cc
    | inr (inr (broken, _)) ↦ absurd (works broken)
  ]

  -- A login that finds a user whose password fits ends with a token for that user.
  login_run :
      (given : Str × Str) (w : World odb.Db) (user : User) (token : Str)
      → let v = (get_user_by_username odb given.0 w).1 in
        (get_user_by_username odb given.0 w).0 ≡ ok (success_result (some user))
        → verify_user_password argon2 user.password_hash user.salt given.1 v ≡ (ok true, v)
        → (create_jwt_token jwt config user.username v).0 ≡ ok token
        → (login lib (user_repository odb) given w).0
          ≡ ok (response_success (record { username = user.username; token = token }))
  unfolding login login_found check_password grant_token is_missing value is_success get_result
      success_result
  login_run given w user token found fits created = rw (found, fits, created)

  module _ (jwt_laws : JwtLaws jwt) where
    -- The token of a login after a registration, and how long it is accepted.
    pub token_of_login :
        (request : Str) (w v : World odb.Db) (dto : UserDto)
        → ((claims : Claims) (key : Str) → (token : Str) × (jwt.sign claims key ≡ ok token))
        → (create_user lib (user_repository odb) request w).0 ≡ ok (response_success dto)
        → named dto.username (rows w.db) ≡ []
        → named dto.username (rows v.db)
          ≡ named dto.username (rows (create_user lib (user_repository odb) request w).1.db)
        → (get_user_by_username odb dto.username v).0 ≢ ok (failure_result something_happened)
        → (token : Str) × ((user_login lib (user_repository odb) request v).0
            ≡ ok (response_success (record { username = dto.username; token = token })))
          × ((u : World odb.Db)
              → v.now ≤ u.now
              → u.now + 1000 ≤ v.now + lifetime
              → verify_token jwt config token u ≡ (ok true, u))
    unfolding user_login create_jwt_token make_user
    token_of_login request w v dto signs success free kept works =
        let (given, read, reg) = create_user-Registered lib odb laws request w dto success in
        let user = with_id reg.id (make_user given.0 reg.hash (to_hex_string reg.salt)) in
        let only =
          kept
          ∙ ap (named dto.username) reg.stored
          ∙ named-append_new dto.username (rows w.db) user free (sym reg.named) in
        let found =
          subst (λ n. (get_user_by_username odb n v).0 ≡ ok (success_result (some user))) reg.named
            (lookup_only dto.username v user only works) in
        let t = (get_user_by_username odb given.0 v).1 in
        let fits = verify_user_password-hash argon2 given.1 reg.hash reg.salt w t reg.hashed in
        let (token, signed) = signs (claims_at jwt config given.0 t.now) config.secret_key in
        let created : (create_jwt_token jwt config given.0 t).0 ≡ ok token = rw signed in
        let run = login_run given v user token found fits created in
        let same_time = get_user_by_username-now odb laws given.0 v in
        (
          token,
          rw (credentials-again lib request w v given read) (
              ap (λ r. r.0)
                (recover_returned (on_service_failure lib.json)
                  (login lib (user_repository odb) given v) _ run)
              ∙ run
              ∙ ap (λ n. ok (response_success (record { username = n; token = token })))
                  (sym reg.named)),
          λ u after before.
              verify_token-create jwt config jwt_laws given.0 token t u created (omega arith)
                (omega arith),
        )

    -- A user who has registered under a name that was free can log in with the same body, in any
    -- state where the rows of that name are those after the registration and the lookup does not
    -- fail on the database, if the token library can sign. The answer names the user, and its token
    -- is accepted at that time.
    pub user_login-create_user :
        (request : Str) (w v : World odb.Db) (dto : UserDto)
        → ((claims : Claims) (key : Str) → (token : Str) × (jwt.sign claims key ≡ ok token))
        → (create_user lib (user_repository odb) request w).0 ≡ ok (response_success dto)
        → named dto.username (rows w.db) ≡ []
        → named dto.username (rows v.db)
          ≡ named dto.username (rows (create_user lib (user_repository odb) request w).1.db)
        → (get_user_by_username odb dto.username v).0 ≢ ok (failure_result something_happened)
        → (token : Str) × ((user_login lib (user_repository odb) request v).0
            ≡ ok (response_success (record { username = dto.username; token = token })))
          × (verify_token jwt config token v ≡ (ok true, v))
    user_login-create_user request w v dto signs success free kept works =
        let (token, logged_in, accepted) =
          token_of_login request w v dto signs success free kept works in
        (token, logged_in, accepted v (omega arith) (omega arith))
