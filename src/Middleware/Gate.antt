-- ===== src/Middleware/Gate.antt =====
-- app/Middleware/AuthenticationMiddleware.h: which requests reach the wrapped handler.
use ccfolio.Common.{
  ◌≡◌, refl, ap, ◌∙◌, true, false, not, not_true, if◌then◌else◌, some, subst, sym, inl, inr,
  Bool-cases,
}
use ccfolio.Common.Text.{text}
use ccfolio.Common.Effect.{Outcome}
use ccfolio.Common.Effect.Rules.{continue_returned}
use ccfolio.External.World.{World}
use ccfolio.External.Jwt.{Jwt}
use ccfolio.External.Json.{JsonLib}
use ccfolio.Logging.Macro.{Returned}
use ccfolio.Http.{HttpRequest, HttpResponse, Handler, Exchange, unauthorized}
use ccfolio.Security.Token.{Config, validate_token}
use ccfolio.Security.Token.Validation.{HasToken, Reply, validate_token-Decides}
use ccfolio.Middleware.{deny, with_authentication}

-- The answer to a request without a valid token.
abbrev pub denied : HttpResponse → HttpResponse
denied res = record res {
  result = unauthorized;
  content_type = some (text "application/json");
  body = text "Invalid or missing token";
  prepared = true;
}

module _ (lib : Jwt) (config : Config) {D : Type 0} (func : Handler D) (req : HttpRequest) where
  -- With a valid token the handler runs as if it were called directly: the check leaves the world
  -- and the response as they were.
  pub with_authentication-valid :
      (w : World D) (res : HttpResponse)
      → HasToken lib config (req.find (text "Authorization")) w
      → with_authentication lib config func req (w, res) ≡ func req (w, res)
  unfolding with_authentication
  with_authentication-valid w res has =
      let d = validate_token-Decides lib config req w res in
      let open_gate : d.valid ≡ true = d.complete has in
      continue_returned _ _ true (d.returned ∙ ap Outcome.ok open_gate)
      ∙ ap (func req) (
          subst (λ b. Reply b (w, res) (validate_token lib config req (w, res)).1) open_gate
            d.replied)

  -- A request without a valid token is answered with a prepared 401 of one fixed text, whatever the
  -- wrapped handler is, and the database is not touched.
  pub with_authentication-invalid :
      (w : World D) (res : HttpResponse)
      → ¬ HasToken lib config (req.find (text "Authorization")) w
      → let r = with_authentication lib config func req (w, res) in
        (r.0 ≡ Outcome.ok tt) × (r.1.1 ≡ denied res) × (r.1.0.db ≡ w.db)
  unfolding with_authentication deny
  with_authentication-invalid w res has_not =
      let d = validate_token-Decides lib config req w res in
      let shut : d.valid ≡ false = not_true d.valid (λ v. has_not (d.sound v)) in
      let run =
        continue_returned (λ valid. if not valid then deny else func req)
          (validate_token lib config req (w, res)) false (d.returned ∙ ap Outcome.ok shut) in
      let refused =
        subst (λ b. Reply b (w, res) (validate_token lib config req (w, res)).1) shut d.replied in
      rw run (refl, ap denied refused, d.database)

  -- The wrapped handler ends as the handler does, or it returns.
  pub with_authentication-Returned :
      (json : JsonLib) (w : World D) (res : HttpResponse)
      → Returned json (func req (w, res)).0
      → Returned json (with_authentication lib config func req (w, res)).0
  with_authentication-Returned json w res returned =
      let d = validate_token-Decides lib config req w res in
      elim (Bool-cases d.valid) [
        | inl v ↦
            subst (λ (r : Outcome (Unit {0}) × Exchange D). Returned json r.0)
              (sym (with_authentication-valid w res (d.sound v))) returned
        | inr v ↦ inl (with_authentication-invalid w res (λ h. let bad = d.complete h in cc)).0
      ]
