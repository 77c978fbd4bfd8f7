-- ===== src/App/Session.antt =====
-- A user's way through the program: register, log in, use the token.
use ccfolio.Common.{
  ◌⊎◌, inl, inr, Bool-cases, sym, some_inj, ℕ, ◌+◌, ◌≤◌, ◌≡◌, ◌≢◌, ap, ◌∙◌, [], ◌++◌, some,
}
use ccfolio.Common.Text.{Str, text}
use ccfolio.Common.Effect.{Outcome}
use ccfolio.Common.Effect.Rules.{ok_inj}
use ccfolio.External.World.{World}
use ccfolio.External.Odb.{Odb}
use ccfolio.External.Odb.Laws.{OdbLaws}
use ccfolio.External.Jwt.{JwtLaws, Claims}
use ccfolio.Entities.User.{User}
use ccfolio.Entities.OperationResult.{failure_result, option_default}
use ccfolio.Http.{HttpRequest}
use ccfolio.Dtos.{UserDto, ResponseDto, response_success}
use ccfolio.Security.Token.{lifetime}
use ccfolio.Security.Token.Validation.{HasToken, validate_token-Decides}
use ccfolio.Middleware.Gate.{denied, with_authentication-valid, with_authentication-invalid}
use ccfolio.Repositories.UserRepository.{user_repository, get_user_by_username, something_happened}
use ccfolio.Repositories.UserRepository.Lookup.{user_schema, named}
use ccfolio.Service.{Libraries, create_user, user_login}
use ccfolio.Service.RoundTrip.{token_of_login}
use ccfolio.Controllers.{handle_hello_world}
use ccfolio.Router.Lookup.{NoColon}
use ccfolio.App.{serve}
use ccfolio.App.Table.{AsksFor, blank, test_path}
use ccfolio.App.Dispatch.{serve-routes}

-- Two answers that are equal have the same token.
same_token :
    (d e : UserDto)
    → Outcome.ok (response_success d) ≡ Outcome.ok (response_success e)
    → d.token ≡ e.token
unfolding response_success
same_token d e h =
    ap (λ (o : UserDto). o.token) (some_inj (ap (λ (r : ResponseDto UserDto). r.result) (ok_inj h)))

module _ (lib : Libraries) (odb : Odb User ℕ Str) where
  open lib use {jwt, config}

  -- `POST /test` runs its handler exactly for requests that carry a valid token: either there is
  -- one and the answer is the handler's, or there is none, the answer is the fixed 401, and the
  -- database is not touched.
  pub serve-test :
      (req : HttpRequest) (w : World odb.Db)
      → NoColon req.method_string
      → AsksFor req test_path
      → (HasToken jwt config (req.find (text "Authorization")) w
          × (serve lib odb req w ≡ handle_hello_world lib req (w, blank req)))
        ⊎ ((¬ HasToken jwt config (req.find (text "Authorization")) w)
            × ((serve lib odb req w).1.1 ≡ denied (blank req))
            × ((serve lib odb req w).1.0.db ≡ w.db))
  serve-test req w plain asks =
      let run = (serve-routes lib odb req w plain).2 asks in
      let d = validate_token-Decides jwt config req w (blank req) in
      elim (Bool-cases d.valid) [
        | inl v ↦
            let has = d.sound v in
            inl (has, run ∙ with_authentication-valid jwt config _ req w (blank req) has)
        | inr v ↦
            let has_not : ¬ HasToken jwt config (req.find (text "Authorization")) w =
              λ h. let bad = d.complete h in cc in
            let (_, answer, db) =
              with_authentication-invalid jwt config (handle_hello_world lib) req w (blank req)
                has_not in
            inr (has_not, ap (λ r. r.1.1) run ∙ answer, ap (λ r. r.1.0.db) run ∙ db)
      ]

  module _ (laws : OdbLaws odb user_schema) (jwt_laws : JwtLaws jwt) where
    open laws use {rows}

    -- Who has registered under a free name, and has later been answered with success to a login
    -- with the same body, can use the token of that answer: `POST /test` with it as bearer token
    -- reaches its handler, from the login until a second before three minutes have passed. The
    -- conditions are that the token library can sign, that the rows of the name are at the login
    -- those after the registration, and that the lookup at the login does not fail on the database.
    pub serve-test_after_login :
        (body : Str) (w v u : World odb.Db) (dto logged_in : UserDto) (req : HttpRequest)
        → ((claims : Claims) (key : Str) → (token : Str) × (jwt.sign claims key ≡ Outcome.ok token))
        → (create_user lib (user_repository odb) body w).0 ≡ Outcome.ok (response_success dto)
        → named dto.username (rows w.db) ≡ []
        → named dto.username (rows v.db)
          ≡ named dto.username (rows (create_user lib (user_repository odb) body w).1.db)
        → (user_login lib (user_repository odb) body v).0 ≡ Outcome.ok (response_success logged_in)
        → (get_user_by_username odb dto.username v).0
          ≢ Outcome.ok (failure_result something_happened)
        → NoColon req.method_string
        → AsksFor req test_path
        → req.find (text "Authorization") ≡ some (text "Bearer " ++ logged_in.token)
        → v.now ≤ u.now
        → u.now + 1000 ≤ v.now + lifetime
        → serve lib odb req u ≡ handle_hello_world lib req (u, blank req)
    serve-test_after_login body w v u dto logged_in req signs success free kept login works plain
          asks header after before =
        let (token, run, accepted) =
          token_of_login lib odb laws jwt_laws body w v dto signs success free kept works in
        let same =
          same_token logged_in (record { username = dto.username; token = token })
            (sym login ∙ run) in
        (serve-routes lib odb req u plain).2 asks
        ∙ with_authentication-valid jwt config _ req u (blank req) (
          token,
          header ∙ ap (λ t. some (text "Bearer " ++ t)) same,
          ap (λ r. r.0) (accepted u after before),
        )
