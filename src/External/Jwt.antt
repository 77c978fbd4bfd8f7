-- ===== src/External/Jwt.antt =====
-- jwt-cpp: building, decoding and verifying a token.
use ccfolio.Common.{ℕ, ◌+◌, ◌≤◌, ◌<◌, ◌≡◌}
use ccfolio.Common.Text.{Str}
use ccfolio.Common.Effect.{Exception, Outcome, ok, throw}

-- What the builder of `jwt::create()` was given. Times are in milliseconds.
pub record Claims : Type 0 where
  pub token_type : Str
  pub issuer : Str
  pub issued_at : ℕ
  pub expires_at : ℕ
  pub username : Str

pub record Jwt : Type 1 where
  pub Decoded : Type 0
  -- `.sign(jwt::algorithm::hs256{key})`
  pub sign : Claims → Str → Outcome Str
  -- `jwt::decode(token)`
  pub decode : Str → Outcome Decoded
  -- `jwt::verify().allow_algorithm(hs256{key}).with_issuer(issuer)` and `verify(decoded)` at a time
  pub verify : Str → Str → ℕ → Decoded → Outcome (Unit {0})

-- A token that the library signed is decoded; it is accepted under its own key and issuer from its
-- time of issue until a second before its time of expiry (the library keeps whole seconds), and it
-- is refused after that time.
pub record JwtLaws (lib : Jwt) : Type 0 where
  pub decodes :
      (claims : Claims) (key token : Str)
      → lib.sign claims key ≡ ok token
      → (d : lib.Decoded) × (lib.decode token ≡ ok d)
  pub accepts :
      (claims : Claims) (key token : Str) (d : lib.Decoded) (now : ℕ)
      → lib.sign claims key ≡ ok token
      → lib.decode token ≡ ok d
      → claims.issued_at ≤ now
      → now + 1000 ≤ claims.expires_at
      → lib.verify key claims.issuer now d ≡ ok tt
  pub expires :
      (claims : Claims) (key token : Str) (d : lib.Decoded) (issuer : Str) (now : ℕ)
      → lib.sign claims key ≡ ok token
      → lib.decode token ≡ ok d
      → claims.expires_at < now
      → (e : Exception) × (lib.verify key issuer now d ≡ throw e)
