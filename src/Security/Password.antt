-- ===== src/Security/Password.antt =====
-- src/Security/PasswordHelper.cc: salted Argon2 hashes as hexadecimal text.
pub mod RoundTrip
pub mod Accepts
use ccfolio.Common.{
  ℕ, zero, suc, ◌+◌, ◌%◌, ◌^◌, List, [], ◌∷◌, ◌++◌, Bool, not, ◌==◌, if◌then◌else◌, length,
}
use ccfolio.Common.Text.{Str, text, str_eq}
use ccfolio.Common.Effect.{
  Exception, runtime_error, Outcome, ok, throw, M, pure, raise, lift, ◌>>=◌, ◌>>◌, try_catch,
}
use ccfolio.Utility.{put_byte, from_hex_string}
use ccfolio.External.World.{World, log_error, read_device}
use ccfolio.External.Argon2.{Argon2}

-- Every handler of the file: log, and throw a `std::runtime_error` with a message of its own.
abbrev pub rethrow : {D A : Type 0} → Str → Exception → M (World D) A
rethrow message e = do log_error e; raise (runtime_error message)

-- ARGON2_OK
abbrev pub argon2_ok : ℕ
argon2_ok = 0

-- The loop over `hashRaw`, which prints as `Utility::toHexString` does.
unfoldable pub hex_stream : List ℕ → Str
hex_stream [] = []
hex_stream (byte ∷ bytes) = put_byte byte ++ hex_stream bytes

-- `if (result != ARGON2_OK) throw …;`, and the text of the hash
unfoldable pub checked_hash : ℕ × List ℕ → Outcome Str
unfolding hex_stream
checked_hash (result, bytes) =
    if not (result == argon2_ok)
    then throw (runtime_error (text "Hashing failed with Argon2"))
    else ok (hex_stream bytes)

module _ (lib : Argon2) where
  open lib use {argon2i_hash_raw, uniform}

  -- `byte = static_cast<uint8_t>(dist(gen))` for each byte, from the draw numbered `i` on.
  unfoldable pub fill : ℕ → ℕ → ℕ → List ℕ
  fill seed i zero = []
  fill seed i (suc n) = (uniform seed i % 256) ∷ fill seed (suc i) n

  unfoldable pub generate_random_salt : {D : Type 0} → ℕ → M (World D) (List ℕ)
  generate_random_salt size =
      try_catch (do seed ← read_device; pure (fill seed 0 size))
        (rethrow (text "Error while trying to generate random salt"))

  -- `t_cost`, `m_cost`, `parallelism` and the size of `hashRaw`
  unfoldable pub hash_raw : Str → List ℕ → ℕ × List ℕ
  hash_raw password salt = argon2i_hash_raw 2 (2 ^ 16) 1 password salt 32

  unfoldable pub hash_password_with_argon2 : {D : Type 0} → Str → M (World D) (Str × List ℕ)
  hash_password_with_argon2 password =
      try_catch
        (do
          salt ← generate_random_salt 16
          hash ← lift (checked_hash (hash_raw password salt))
          pure (hash, salt))
        (rethrow (text "Error while trying to hash password with Argon2"))

  unfoldable pub verify_password_with_argon2 : {D : Type 0} → Str → Str → List ℕ → M (World D) Bool
  verify_password_with_argon2 password hash_hex salt =
      try_catch
        (do hash ← lift (checked_hash (hash_raw password salt)); pure (str_eq hash hash_hex))
        (rethrow (text "Error while trying to verify password with Argon2"))

  unfoldable pub verify_user_password : {D : Type 0} → Str → Str → Str → M (World D) Bool
  verify_user_password password_hash salt_in_hex password =
      try_catch
        (do
          salt ← lift (from_hex_string salt_in_hex)
          verify_password_with_argon2 password password_hash salt)
        (rethrow (text "Error while trying to verify user password"))
