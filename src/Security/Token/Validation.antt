-- ===== src/Security/Token/Validation.antt =====
-- src/Security/JWTHelper.cc: which requests `ValidateToken` lets through, and what it answers.
use ccfolio.Common.{
  ◌≡◌, refl, sym, ap, ◌∙◌, Bool, true, false, arith, inl, inr, [], ◌∷◌, ◌++◌, Option, none, some,
  drop, length, Bool-cases, subst, some_inj,
}
use ccfolio.Common.Text.{Str, text}
use ccfolio.Common.Effect.{Outcome}
use ccfolio.Common.Effect.Rules.{recover_returned}
use ccfolio.External.World.{World}
use ccfolio.External.Jwt.{Jwt}
use ccfolio.Http.{HttpRequest, HttpResponse, unauthorized, Exchange}
use ccfolio.Security.Token.{
  Config, starts_with, verify_token, refuse, check_bearer, check_header, validate_token,
}
use ccfolio.Security.Token.Lifetime.{Verdict, verify_token-Verdict}

starts_with_append : (p s : Str) → starts_with p (p ++ s) ≡ true
unfolding starts_with
starts_with_append [] s = refl
starts_with_append (c ∷ p) s = ground (arith, starts_with_append p s)

append-drop_of_starts_with : (p s : Str) → starts_with p s ≡ true → s ≡ p ++ drop (length p) s
unfolding starts_with
append-drop_of_starts_with [] s h = refl
append-drop_of_starts_with (c ∷ p) [] h = cc
append-drop_of_starts_with (c ∷ p) (d ∷ s) h = ground (arith, append-drop_of_starts_with p s)

drop-append : (p s : Str) → drop (length p) (p ++ s) ≡ s
drop-append [] s = refl
drop-append (c ∷ p) s = drop-append p s

bearer_length : length (text "Bearer ") ≡ 7
unfolding text
bearer_length = refl

bearer_split : (s : Str) → starts_with (text "Bearer ") s ≡ true → s ≡ text "Bearer " ++ drop 7 s
bearer_split s h =
    append-drop_of_starts_with (text "Bearer ") s h
    ∙ ap (λ n. text "Bearer " ++ drop n s) bearer_length

drop-bearer : (s : Str) → drop 7 (text "Bearer " ++ s) ≡ s
drop-bearer s =
    ap (λ n. drop n (text "Bearer " ++ s)) (sym bearer_length) ∙ drop-append (text "Bearer ") s

-- What a refusal makes of the response, whatever its text.
abbrev pub IsRefused : HttpResponse → HttpResponse → Type 0
IsRefused before after = after ≡ record before {
  result = unauthorized;
  content_type = some (text "application/json");
  body = after.body;
  prepared = true;
}

-- What a call of `ValidateToken` that returns `valid` has done.
abbrev pub Reply : {W : Type 0} → Bool → W × HttpResponse → W × HttpResponse → Type 0
Reply true before after = after ≡ before
Reply false before after = IsRefused before.1 after.1

module _ (lib : Jwt) (config : Config) {D : Type 0} where
  -- The request has the header `Authorization: Bearer <token>`, and the token verifies.
  abbrev pub HasToken : Option Str → World D → Type 0
  HasToken header w =
      (token : Str) × (header ≡ some (text "Bearer " ++ token))
      × ((verify_token lib config token w).0 ≡ Outcome.ok true)

  -- A run `r` from the state `s` has returned; `P` holds exactly if it returned true.
  pub record Decides (P : Type 0) (s : Exchange D) (r : Outcome Bool × Exchange D) : Type 0 where
    pub valid : Bool
    pub returned : r.0 ≡ Outcome.ok valid
    pub replied : Reply valid s r.1
    pub database : r.1.0.db ≡ s.0.db
    pub sound : valid ≡ true → P
    pub complete : P → valid ≡ true

  check_bearer-Decides :
      (token : Str) (w : World D) (res : HttpResponse)
      → Decides
          ((verify_token lib config (drop 7 token) w).0 ≡ Outcome.ok true)
          (w, res)
          (check_bearer lib config token (w, res))
  unfolding check_bearer refuse
  check_bearer-Decides token w res = by_verdict (verify_token-Verdict lib config (drop 7 token) w)
    where
      by_verdict :
          ((valid : Bool) × (w' : World D) × (verify_token lib config (drop 7 token) w
              ≡ (Outcome.ok valid, w'))
            × Verdict lib config (drop 7 token) w valid w')
          → Decides
              ((verify_token lib config (drop 7 token) w).0 ≡ Outcome.ok true)
              (w, res)
              (check_bearer lib config token (w, res))
      by_verdict (true, w', e, h) = record {
        valid = true;
        returned = rw e;
        replied = rw e (ap (λ (v : World D). (v, res)) h);
        database = rw e (ap (λ (v : World D). v.db) h);
        sound = λ _. ap (λ r. r.0) e;
        complete = λ _. refl;
      }
      by_verdict (false, w', e, (m, h)) = record {
        valid = false;
        returned = rw e;
        replied = rw e;
        database = rw e (ap (λ (v : World D). v.db) h);
        sound = λ f. cc;
        complete = λ p. cc (ap (λ r. r.0) e);
      }

  check_header-Decides :
      (header : Option Str) (w : World D) (res : HttpResponse)
      → Decides (HasToken header w) (w, res) (check_header lib config header (w, res))
  unfolding check_header refuse
  check_header-Decides none w res = record {
    valid = false;
    returned = refl;
    replied = refl;
    database = refl;
    sound = λ f. cc;
    complete = λ (t, h, v). cc;
  }
  check_header-Decides (some value) w res = elim (Bool-cases (starts_with (text "Bearer ") value)) [
    | inl bearer ↦
        let d = check_bearer-Decides value w res in
        rw bearer (record {
          valid = d.valid;
          returned = d.returned;
          replied = d.replied;
          database = d.database;
          sound = λ v. (drop 7 value, ap some (bearer_split value bearer), d.sound v);
          complete = λ p. d.complete (
              ap (λ x. (verify_token lib config x w).0)
                (ap (drop 7) (some_inj p.1) ∙ drop-bearer p.0)
              ∙ p.2);
        })
    | inr other ↦ rw other (record {
      valid = false;
      returned = refl;
      replied = refl;
      database = refl;
      sound = λ f. cc;
      complete = λ p. cc (
        other,
        ap (starts_with (text "Bearer ")) (some_inj p.1),
        starts_with_append (text "Bearer ") p.0,
      );
    })
  ]

  -- `ValidateToken` always returns. It returns true exactly for a request whose `Authorization` header
  -- is `Bearer ` and a token that verifies, and then leaves the response alone; else the response is a
  -- prepared 401 of type JSON. The database is not touched.
  pub validate_token-Decides :
      (req : HttpRequest) (w : World D) (res : HttpResponse)
      → Decides
          (HasToken (req.find (text "Authorization")) w)
          (w, res)
          (validate_token lib config req (w, res))
  unfolding validate_token
  validate_token-Decides req w res =
      let d = check_header-Decides (req.find (text "Authorization")) w res in
      subst (Decides (HasToken (req.find (text "Authorization")) w) (w, res))
        (sym (recover_returned _ _ d.valid d.returned)) d
