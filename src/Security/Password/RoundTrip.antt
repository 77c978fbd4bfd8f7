-- ===== src/Security/Password/RoundTrip.antt =====
-- src/Security/PasswordHelper.cc: hashing and verifying together, and what a hash looks like.
use ccfolio.Common.{
  ℕ, zero, suc, ◌*◌, ◌≡◌, refl, sym, ap, ◌∙◌, List, [], ◌∷◌, true, arith, length, All, inl, inr,
  ◌↔◌,
}
use ccfolio.Common.Text.{Str, str_eq, str_eq_iff, str_eq_refl}
use ccfolio.Common.Effect.{ok, Outcome-cases}
use ccfolio.External.World.{World}
use ccfolio.External.Argon2.{Argon2, Argon2Laws}
use ccfolio.Utility.{to_hex_string}
use ccfolio.Utility.Digits.{IsHexDigit}
use ccfolio.Utility.RoundTrip.{
  IsByte, from_hex_string-to_hex_string, to_hex_string-IsHexDigit, to_hex_string_injective,
}
use ccfolio.Security.Password.{
  argon2_ok, hex_stream, checked_hash, fill, hash_raw, generate_random_salt,
  hash_password_with_argon2, verify_password_with_argon2, verify_user_password,
}

-- The hash helper prints bytes as the utility does.
pub hex_stream-to_hex_string : (bytes : List ℕ) → hex_stream bytes ≡ to_hex_string bytes
unfolding hex_stream to_hex_string
hex_stream-to_hex_string [] = refl
hex_stream-to_hex_string (b ∷ bytes) = rw (hex_stream-to_hex_string bytes)

checked_hash-ok :
    (r : ℕ × List ℕ) (hash : Str)
    → checked_hash r ≡ ok hash
    → (r.0 ≡ argon2_ok) × (hash ≡ to_hex_string r.1)
unfolding checked_hash
checked_hash-ok (code, bytes) hash e =
    (ground arith, ground (arith, hex_stream-to_hex_string bytes))

module _ (lib : Argon2) where
  fill-IsByte : (seed i n : ℕ) → All IsByte (fill lib seed i n) × (length (fill lib seed i n) ≡ n)
  unfolding fill
  fill-IsByte seed i zero = (tt, refl)
  fill-IsByte seed i (suc n) =
      let (bytes, size) = fill-IsByte seed (suc i) n in ((omega arith, bytes), ap suc size)

  -- What a successful call has done.
  record Hashed (password hash : Str) (salt : List ℕ) : Type 0 where
    seed : ℕ
    filled : salt ≡ fill lib seed 0 16
    hashed : checked_hash (hash_raw lib password salt) ≡ ok hash

  hash_password-Hashed :
      {D : Type 0} (password : Str) (w : World D) (hash : Str) (salt : List ℕ)
      → (hash_password_with_argon2 lib password w).0 ≡ ok (hash, salt)
      → Hashed password hash salt
  unfolding hash_password_with_argon2 generate_random_salt
  hash_password-Hashed password w hash salt e = elim (Outcome-cases (w.device w.reads)) [
    | inl (seed, read) ↦
        elim (Outcome-cases (checked_hash (hash_raw lib password (fill lib seed 0 16)))) [
          | inl (h, done) ↦
              let same = rw (read, done) at e in
              let salts : salt ≡ fill lib seed 0 16 = ground arith in
              record { seed = seed; filled = salts; hashed = rw salts (done ∙ ground arith) }
          | inr (x, failed) ↦ let same = rw (read, failed) at e in cc
        ]
    | inr (x, failed) ↦ let same = rw failed at e in cc
  ]

  salt-IsByte :
      {password hash : Str} {salt : List ℕ}
      → Hashed password hash salt
      → All IsByte salt × (length salt ≡ 16)
  salt-IsByte h = rw h.filled (fill-IsByte h.seed 0 16)

  -- How `verify_user_password` runs on a salt that was written by `to_hex_string`.
  verify_user_password-to_hex_string :
      {D : Type 0} (hash password hash' : Str) (salt : List ℕ) (w : World D)
      → All IsByte salt
      → checked_hash (hash_raw lib password salt) ≡ ok hash'
      → verify_user_password lib hash (to_hex_string salt) password w ≡ (ok (str_eq hash' hash), w)
  unfolding verify_user_password verify_password_with_argon2
  verify_user_password-to_hex_string hash password hash' salt w bytes done =
      rw (from_hex_string-to_hex_string salt bytes, done)

  -- A password verifies against the hash and the salt that hashing it gave, whenever that is done,
  -- and the check changes nothing.
  pub verify_user_password-hash :
      {D : Type 0} (password hash : Str) (salt : List ℕ) (w w' : World D)
      → (hash_password_with_argon2 lib password w).0 ≡ ok (hash, salt)
      → verify_user_password lib hash (to_hex_string salt) password w' ≡ (ok true, w')
  verify_user_password-hash password hash salt w w' e =
      let h = hash_password-Hashed password w hash salt e in
      verify_user_password-to_hex_string hash password hash salt w' (salt-IsByte h).0 h.hashed
      ∙ ap (λ b. (ok b, w')) (str_eq_refl hash)

  module _ (laws : Argon2Laws lib) where
    open laws use {buffer_bytes, buffer_length}

    checked_hash_injective :
        (p q : Str) (salt : List ℕ) (hash : Str)
        → checked_hash (hash_raw lib p salt) ≡ ok hash
        → checked_hash (hash_raw lib q salt) ≡ ok hash
        → hash_raw lib p salt ≡ hash_raw lib q salt
    unfolding hash_raw
    checked_hash_injective p q salt hash ep eq =
        let (cp, hp) = checked_hash-ok _ hash ep in
        let (cq, hq) = checked_hash-ok _ hash eq in
        let same =
          to_hex_string_injective _ _ (buffer_bytes 2 65536 1 p salt 32)
            (buffer_bytes 2 65536 1 q salt 32) (sym hp ∙ hq) in
        λ i. ((cp ∙ sym cq) i, same i)

    -- After a password was hashed, another one that Argon2 hashes without an error is accepted against
    -- the stored hash and salt exactly when Argon2 gives the same bytes for both.
    pub verify_user_password_iff :
        {D : Type 0} (password other hash hash' : Str) (salt : List ℕ) (w w' : World D)
        → (hash_password_with_argon2 lib password w).0 ≡ ok (hash, salt)
        → checked_hash (hash_raw lib other salt) ≡ ok hash'
        → ((verify_user_password lib hash (to_hex_string salt) other w').0 ≡ ok true)
          ↔ (hash_raw lib other salt ≡ hash_raw lib password salt)
    verify_user_password_iff password other hash hash' salt w w' e done =
        let h = hash_password-Hashed password w hash salt e in
        let run =
          verify_user_password-to_hex_string hash other hash' salt w' (salt-IsByte h).0 done in
        (
          λ accepted.
              let same = (str_eq_iff hash' hash).0 (cc (run, accepted)) in
              checked_hash_injective other password salt hash (done ∙ ap ok same) h.hashed,
          λ same.
              let texts : hash' ≡ hash = cc (done, h.hashed, same) in
              ap (λ r. r.0) run ∙ ap ok ((str_eq_iff hash' hash).1 texts),
        )

    -- If a password is hashed without an exception, its salt has 16 bytes, which are 32 characters
    -- of text, and its hash is 64 lower-case hexadecimal digits.
    pub hash_password_shape :
        {D : Type 0} (password hash : Str) (salt : List ℕ) (w : World D)
        → (hash_password_with_argon2 lib password w).0 ≡ ok (hash, salt)
        → All IsByte salt
          × (length salt ≡ 16)
          × (length (to_hex_string salt) ≡ 32)
          × All IsHexDigit hash
          × (length hash ≡ 64)
    unfolding hash_raw
    hash_password_shape password hash salt w e =
        let h = hash_password-Hashed password w hash salt e in
        let (bytes, size) = salt-IsByte h in
        let (_, text_size) = to_hex_string-IsHexDigit salt bytes in
        let (_, printed) = checked_hash-ok _ hash h.hashed in
        let (digits, hash_size) =
          to_hex_string-IsHexDigit _ (buffer_bytes 2 65536 1 password salt 32) in
        (
          bytes,
          size,
          omega arith,
          rw printed digits,
          rw printed (hash_size ∙ ap (λ (n : ℕ). 2 * n) (buffer_length 2 65536 1 password salt 32)),
        )
