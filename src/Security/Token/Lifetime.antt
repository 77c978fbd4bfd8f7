-- ===== src/Security/Token/Lifetime.antt =====
-- src/Security/JWTHelper.cc: how long a token that the program created is accepted.
use ccfolio.Common.{◌+◌, ◌≤◌, ◌<◌, ◌≡◌, refl, Bool, true, false, inl, inr, ◌∙◌, [], ◌∷◌, ◌++◌}
use ccfolio.Common.Text.{Str, text}
use ccfolio.Common.Effect.{ok, Outcome-cases, what}
use ccfolio.External.World.{World}
use ccfolio.External.Jwt.{Jwt, JwtLaws}
use ccfolio.Logging.{error}
use ccfolio.Security.Token.{Config, lifetime, claims_at, create_jwt_token, verify_token}

module _ (lib : Jwt) (config : Config) {D : Type 0} where
  open lib use {sign, decode, verify}

  -- What a check of a token leaves in the log: nothing if it accepts, one line if not.
  abbrev pub Verdict : Str → World D → Bool → World D → Type 0
  Verdict token w true w' = w' ≡ w
  Verdict token w false w' =
      (message : Str) × (w'
        ≡ record w { log = w.log ++ record { level = error; message = message } ∷ [] })

  -- `VerifyToken` always returns: it accepts and changes nothing, or it refuses and writes one line
  -- to the log.
  pub verify_token-Verdict :
      (token : Str) (w : World D)
      → (valid : Bool) × (w' : World D) × (verify_token lib config token w ≡ (ok valid, w'))
        × Verdict token w valid w'
  unfolding verify_token
  verify_token-Verdict token w = elim (Outcome-cases (decode token)) [
    | inl (d, decoded) ↦
        elim (Outcome-cases (verify config.secret_key config.project_name w.now d)) [
          | inl (u, verified) ↦ (true, w, rw (decoded, verified), refl)
          | inr (e, refused) ↦ (
            false,
            (verify_token lib config token w).1,
            rw (decoded, refused),
            (text "Error while trying to verify token. Error: " ++ what e, rw (decoded, refused)),
          )
        ]
    | inr (e, refused) ↦ (
      false,
      (verify_token lib config token w).1,
      rw refused,
      (text "Error while trying to verify token. Error: " ++ what e, rw refused),
    )
  ]

  created :
      (username token : Str) (w : World D)
      → (create_jwt_token lib config username w).0 ≡ ok token
      → sign (claims_at lib config username w.now) config.secret_key ≡ ok token
  unfolding create_jwt_token
  created username token w e =
      elim (Outcome-cases (sign (claims_at lib config username w.now) config.secret_key)) [
        | inl (t, signed) ↦ let same = rw signed at e in signed ∙ same
        | inr (x, failed) ↦ let same = rw failed at e in cc
      ]

  module _ (laws : JwtLaws lib) where
    -- A token that was created at time t is accepted from t until a second before t plus three
    -- minutes, and the check changes nothing.
    pub verify_token-create :
        (username token : Str) (w w' : World D)
        → (create_jwt_token lib config username w).0 ≡ ok token
        → w.now ≤ w'.now
        → w'.now + 1000 ≤ w.now + lifetime
        → verify_token lib config token w' ≡ (ok true, w')
    unfolding verify_token claims_at
    verify_token-create username token w w' e after before =
        let signed = created username token w e in
        let (d, decoded) = laws.decodes _ _ token signed in
        rw (decoded, laws.accepts _ _ token d w'.now signed decoded after before)

    -- A token that was created at time t is refused at any time after t plus three minutes.
    pub verify_token-expired :
        (username token : Str) (w w' : World D)
        → (create_jwt_token lib config username w).0 ≡ ok token
        → w.now + lifetime < w'.now
        → (verify_token lib config token w').0 ≡ ok false
    unfolding verify_token claims_at
    verify_token-expired username token w w' e late =
        let signed = created username token w e in
        let (d, decoded) = laws.decodes _ _ token signed in
        let (x, refused) =
          laws.expires _ _ token d config.project_name w'.now signed decoded late in
        rw (decoded, refused)
