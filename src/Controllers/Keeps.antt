-- ===== src/Controllers/Keeps.antt =====
-- app/Controllers: what the handlers do to the database.
use ccfolio.Common.{◌≡◌, refl, ap, ◌∙◌, inl, inr, Bool-cases}
use ccfolio.Common.Text.{text}
use ccfolio.Common.Effect.{Exception, what, Outcome, throw, recover, Outcome-cases}
use ccfolio.External.World.{World}
use ccfolio.External.Json.{JsonLib}
use ccfolio.Http.{HttpRequest, HttpResponse, Status, Exchange}
use ccfolio.Dtos.{UserDto, ResponseDto}
use ccfolio.Interfaces.{IUserRepository}
use ccfolio.Middleware.{with_authentication}
use ccfolio.Middleware.Gate.{with_authentication-valid, with_authentication-invalid}
use ccfolio.Security.Token.Validation.{validate_token-Decides}
use ccfolio.Service.{Libraries, create_user, user_login}
use ccfolio.Service.Keeps.{log-db}
use ccfolio.Logging.{error}
use ccfolio.Service.Credentials.{sum-cases}
use ccfolio.Controllers.{
  log_only, send_json, respond, handle_create_user, handle_user_login, handle_hello_world,
}

module _ {D : Type 0} where
  abbrev pub db_of : Outcome (Unit {0}) × Exchange D → D
  db_of r = r.1.0.db

  only_logs-db :
      (json : JsonLib) (x : Exception) (w : World D) (res : HttpResponse)
      → db_of (log_only json x (w, res)) ≡ w.db
  only_logs-db json x w res = log-db json error (what x) w

  log_only-db :
      (json : JsonLib) (r : Outcome (Unit {0}) × Exchange D)
      → db_of (recover (log_only json) r) ≡ db_of r
  log_only-db json (Outcome.ok u, s) = refl
  log_only-db json (throw x, (w, res)) = only_logs-db json x w res

  send_json-db :
      (json : JsonLib) (status : Status) (j : json.Json) (w : World D) (res : HttpResponse)
      → db_of (send_json json status j (w, res)) ≡ w.db
  unfolding send_json
  send_json-db json status j w res = elim (sum-cases (json.dump j)) [
    | inl (m, e) ↦ rw e
    | inr (b, e) ↦ rw e
  ]

  respond-db :
      (json : JsonLib) (r : ResponseDto UserDto) (w : World D) (res : HttpResponse)
      → db_of (respond json r (w, res)) ≡ w.db
  unfolding respond
  respond-db json r w res = elim (Bool-cases r.is_success) [
    | inl e ↦ rw e (send_json-db json Status.ok _ w res)
    | inr e ↦ rw e (send_json-db json Status.bad_request _ w res)
  ]

  pub handle_hello_world-db :
      (lib : Libraries) (req : HttpRequest) (w : World D) (res : HttpResponse)
      → db_of (handle_hello_world lib req (w, res)) ≡ w.db
  unfolding handle_hello_world
  handle_hello_world-db lib req w res =
      let json = lib.json in
      elim (sum-cases (lib.json.parse req.body)) [
        | inl (m, e) ↦ rw e (only_logs-db json _ w res)
        | inr (j, e) ↦ elim (sum-cases (lib.json.index j (text "username"))) [
          | inl (m, f) ↦ rw (e, f) (only_logs-db json _ w res)
          | inr (n, f) ↦ elim (sum-cases (lib.json.get_string n)) [
            | inl (m, g) ↦ rw (e, f, g) (only_logs-db json _ w res)
            | inr (u, g) ↦
                rw (e, f, g) (log_only-db json _ ∙ send_json-db lib.json Status.ok _ w res)
          ]
        ]
      ]

module _ (lib : Libraries) {D : Type 0} (repo : IUserRepository D) (req : HttpRequest) (w : World D)
    (res : HttpResponse) where
  open lib use {jwt, json, config}

  pub handle_create_user-db :
      db_of (handle_create_user lib repo req (w, res)) ≡ (create_user lib repo req.body w).1.db
  unfolding handle_create_user
  handle_create_user-db =
      let v = create_user lib repo req.body w in
      elim (Outcome-cases v.0) [
        | inl (r, created) ↦ rw created (log_only-db json _ ∙ respond-db json r v.1 res)
        | inr (x, thrown) ↦ rw thrown (only_logs-db json x v.1 res)
      ]

  pub handle_user_login-db :
      db_of (handle_user_login lib repo req (w, res)) ≡ (user_login lib repo req.body w).1.db
  unfolding handle_user_login
  handle_user_login-db =
      let v = user_login lib repo req.body w in
      elim (Outcome-cases v.0) [
        | inl (r, logged_in) ↦ rw logged_in (log_only-db json _ ∙ respond-db json r v.1 res)
        | inr (x, thrown) ↦ rw thrown (only_logs-db json x v.1 res)
      ]

  pub guarded_hello_world-db :
      db_of (with_authentication jwt config (handle_hello_world lib) req (w, res)) ≡ w.db
  guarded_hello_world-db =
      let d = validate_token-Decides jwt config req w res in
      elim (Bool-cases d.valid) [
        | inl v ↦
            ap db_of
              (with_authentication-valid jwt config (handle_hello_world lib) req w res (d.sound v))
            ∙ handle_hello_world-db lib req w res
        | inr v ↦
            (with_authentication-invalid jwt config (handle_hello_world lib) req w res
              (λ h. let bad = d.complete h in cc)).2
      ]
