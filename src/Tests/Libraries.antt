-- ===== src/Tests/Libraries.antt =====
-- Stand-ins for libargon2, jwt-cpp and nlohmann::json that satisfy what the development relies on.
use ccfolio.Common.{
  ℕ, zero, suc, ◌+◌, ◌*◌, ◌%◌, ◌<◌, ◌≡◌, refl, sym, ap, ◌∙◌, ◌⊎◌, inl, inr, arith, List, [], ◌∷◌,
  ◌++◌, Bool, true, false, ◌&&◌, ltb, leb, ◌==◌, if◌then◌else◌, length, All,
}
use ccfolio.Common.Text.{Str, text, str_eq, str_eq_refl}
use ccfolio.Common.Effect.{Exception, Outcome, ok, throw, runtime_error}
use ccfolio.Common.Effect.Rules.{ok_inj}
use ccfolio.External.Argon2.{Argon2, Argon2Laws}
use ccfolio.External.Jwt.{Jwt, JwtLaws, Claims}
use ccfolio.External.Json.{JsonLib}
use ccfolio.Security.Token.{Config}
use ccfolio.Service.{Libraries}

-- A hash that is the password and the salt themselves, cut to size.
unfoldable pub fit : ℕ → List ℕ → List ℕ
fit zero s = []
fit (suc n) [] = 0 ∷ fit n []
fit (suc n) (c ∷ s) = (c % 256) ∷ fit n s

fit-IsByte : (n : ℕ) (s : List ℕ) → All (λ b. b < 256) (fit n s)
unfolding fit
fit-IsByte zero s = tt
fit-IsByte (suc n) [] = (omega arith, fit-IsByte n [])
fit-IsByte (suc n) (c ∷ s) = (omega arith, fit-IsByte n s)

length-fit : (n : ℕ) (s : List ℕ) → length (fit n s) ≡ n
unfolding fit
length-fit zero s = refl
length-fit (suc n) [] = ap suc (length-fit n [])
length-fit (suc n) (c ∷ s) = ap suc (length-fit n s)

abbrev pub argon2 : Argon2
argon2 = record {
  argon2i_hash_raw = λ t m p password salt size. (0, fit size (password ++ salt));
  uniform = λ seed i. (seed + i * 7) % 256;
}

pub argon2_laws : Argon2Laws argon2
argon2_laws = record {
  buffer_bytes = λ t m p password salt size. fit-IsByte size (password ++ salt);
  buffer_length = λ t m p password salt size. length-fit size (password ++ salt);
}

-- A token is its times, and the key and the issuer in the clear.
unfoldable pub decode : Str → Outcome (ℕ × ℕ × Str)
decode (issued ∷ expires ∷ s) = ok (issued, expires, s)
decode _ = throw (runtime_error [])

unfoldable pub answer : Bool → Outcome (Unit {0})
answer b = if b then ok tt else throw (runtime_error [])

unfoldable pub verify : Str → Str → ℕ → ℕ × ℕ × Str → Outcome (Unit {0})
unfolding answer
verify key issuer now (issued, expires, s) =
    answer (str_eq s (key ++ issuer) && (leb issued now && ltb now expires))

abbrev pub jwt : Jwt
jwt = record {
  Decoded = ℕ × ℕ × Str;
  sign = λ claims key. ok (claims.issued_at ∷ claims.expires_at ∷ key ++ claims.issuer);
  decode = decode;
  verify = verify;
}

-- What decoding a signed token gives.
decoded :
    (claims : Claims) (key token : Str) (d : ℕ × ℕ × Str)
    → jwt.sign claims key ≡ ok token
    → decode token ≡ ok d
    → d ≡ (claims.issued_at, claims.expires_at, key ++ claims.issuer)
unfolding decode
decoded claims key token d e f = ok_inj (sym f ∙ ap decode (sym (ok_inj e)))

too_late :
    (same started live : Bool)
    → live ≡ false
    → (e : Exception) × (answer (same && (started && live)) ≡ throw e)
unfolding answer
too_late true true live h = rw h (runtime_error [], refl)
too_late true false live h = (runtime_error [], refl)
too_late false started live h = (runtime_error [], refl)

pub jwt_laws : JwtLaws jwt
unfolding decode verify answer
jwt_laws = record {
  decodes = λ claims key token e.
      ((claims.issued_at, claims.expires_at, key ++ claims.issuer), ap decode (sym (ok_inj e)));
  accepts = λ claims key token d now e f after before.
      rw (decoded claims key token d e f, str_eq_refl (key ++ claims.issuer)) ground arith;
  expires = λ claims key token d issuer now e f late. rw (decoded claims key token d e f) (
      too_late (str_eq (key ++ claims.issuer) (key ++ issuer)) (leb claims.issued_at now)
        (ltb now claims.expires_at) (ground arith));
}

-- An object is the list of its assignments.
pub data Json : Type 0 where
  null : Json
  leaf : Str → Json
  flag : Bool → Json
  field : Json → Str → Json → Json

unfoldable pub index : Json → Str → Str ⊎ Json
index (field j k v) key = if str_eq k key then inr v else index j key
index _ key = inl (text "type error")

unfoldable pub get_string : Json → Str ⊎ Str
get_string (leaf s) = inr s
get_string _ = inl (text "type error")

unfoldable pub print : Json → Str
print null = []
print (leaf s) = s
print (flag true) = text "true"
print (flag false) = text "false"
print (field j k v) = print j ++ k ++ text ":" ++ print v ++ text "\n"

-- A request is a username and a password with a colon between them.
unfoldable pub parse : Str → Str → Str ⊎ Json
parse read [] = inl (text "parse error")
parse read (c ∷ s) =
    if c == b':'
    then inr (field (field null (text "username") (leaf read)) (text "password") (leaf s))
    else parse (read ++ c ∷ []) s

abbrev pub json : JsonLib
json = record {
  Json = Json;
  parse = parse [];
  index = index;
  get_string = get_string;
  null = null;
  assign = field;
  of_bool = flag;
  of_string = leaf;
  dump = λ j. inr (print j);
}

abbrev pub config : Config
config = record { secret_key = text "key"; project_name = text "ccfolio" }

abbrev pub libraries : Libraries
libraries = record { argon2 = argon2; jwt = jwt; json = json; config = config }
