-- ===== src/Security/Password/Accepts.antt =====
-- src/Security/PasswordHelper.cc: exactly when a password is accepted.
use ccfolio.Common.{
  ◌≡◌, ◌≢◌, ◌⊎◌, ==_iff, not_true, ◌==◌, Bool-cases, refl, sym, false, subst, ap, ◌∙◌, inl, inr,
  true, List, ◌↔◌, ℕ,
}
use ccfolio.Common.Text.{Str, text, str_eq, str_eq_iff}
use ccfolio.Common.Effect.{Exception, runtime_error, ok, throw, Outcome-cases}
use ccfolio.Common.Effect.Rules.{ok_inj}
use ccfolio.External.World.{World}
use ccfolio.External.Argon2.{Argon2}
use ccfolio.Utility.{from_hex_string, to_hex_string}
use ccfolio.Security.Password.RoundTrip.{hex_stream-to_hex_string}
use ccfolio.Security.Password.{
  checked_hash, hash_raw, verify_password_with_argon2, verify_user_password,
}

module _ (lib : Argon2) (hash salt_in_hex password : Str) where
  open lib use {argon2i_hash_raw}

  -- The call of Argon2 with two passes, 64 MiB, one lane and 32 bytes.
  abbrev hashed : List ℕ → ℕ × List ℕ
  hashed salt = argon2i_hash_raw 2 65536 1 password salt 32

  -- The salt can be read and the call gives ARGON2_OK; `P` is of the text of the bytes in the buffer.
  abbrev pub Hashes : (Str → Type 0) → Type 0
  Hashes P =
      (salt : List ℕ) × (from_hex_string salt_in_hex ≡ ok salt)
      × ((hashed salt).0 ≡ 0)
      × P (to_hex_string (hashed salt).1)

  checked :
      (salt : List ℕ)
      → (hashed salt).0 ≡ 0
      → checked_hash (hash_raw lib password salt) ≡ ok (to_hex_string (hashed salt).1)
  unfolding checked_hash hash_raw
  checked salt e = rw e (ap ok (hex_stream-to_hex_string (hashed salt).1))

  -- A code other than ARGON2_OK is an exception.
  unchecked :
      (salt : List ℕ)
      → ¬ ((hashed salt).0 ≡ 0)
      → (x : Exception) × (checked_hash (hash_raw lib password salt) ≡ throw x)
  unfolding checked_hash hash_raw
  unchecked salt h =
      rw (not_true ((hashed salt).0 == 0) (λ t. h ((==_iff (hashed salt).0 0).0 t))) (_, refl)

  -- The salt that was read is the only one.
  at_salt :
      (P : Str → Type 0) (salt : List ℕ)
      → from_hex_string salt_in_hex ≡ ok salt
      → Hashes P
      → ((hashed salt).0 ≡ 0) × P (to_hex_string (hashed salt).1)
  at_salt P salt f (other, g, code, p) =
      subst (λ s. ((hashed s).0 ≡ 0) × P (to_hex_string (hashed s).1)) (ok_inj (sym g ∙ f))
        (code, p)

  -- How the two parts of the check end.
  ends :
      {D : Type 0} (w : World D)
      → ((text : Str) × (Hashes (λ t. t ≡ text))
          × ((verify_user_password lib hash salt_in_hex password w).0 ≡ ok (str_eq text hash)))
        ⊎ ((¬ Hashes (λ t. Unit {0}))
            × ((verify_user_password lib hash salt_in_hex password w).0
                ≡ throw (runtime_error (text "Error while trying to verify user password"))))
  unfolding verify_user_password verify_password_with_argon2
  ends w = elim (Outcome-cases (from_hex_string salt_in_hex)) [
    | inl (salt, f) ↦ elim (Bool-cases ((hashed salt).0 == 0)) [
      | inl z ↦
          let code = (==_iff (hashed salt).0 0).0 z in
          inl (_, (salt, f, code, refl), rw (f, checked salt code) refl)
      | inr z ↦
          let other : ¬ ((hashed salt).0 ≡ 0) =
            λ c. let bad = (==_iff (hashed salt).0 0).1 c in cc in
          let (x, failed) = unchecked salt other in
          inr (λ h. other (at_salt (λ t. Unit {0}) salt f h).0, rw (f, failed) refl)
    ]
    | inr (x, f) ↦ inr (λ h. let bad = sym h.1 ∙ f in cc, rw f refl)
  ]

  -- A password is accepted exactly when the stored salt can be read and the call of Argon2 gives
  -- ARGON2_OK and bytes whose text is the stored hash. It is refused exactly when the text differs. In
  -- every other case the check ends with one fixed `std::runtime_error`.
  pub verify_user_password-Hashes :
      {D : Type 0} (w : World D)
      → let r = (verify_user_password lib hash salt_in_hex password w).0 in
        ((r ≡ ok true) ↔ Hashes (λ t. t ≡ hash))
        × ((r ≡ ok false) ↔ Hashes (λ t. t ≢ hash))
        × ((r ≡ throw (runtime_error (text "Error while trying to verify user password")))
            ↔ (¬ Hashes (λ t. Unit {0})))
  verify_user_password-Hashes w = elim (ends w) [
    | inl (t, (salt, f, code, same), run) ↦ (
      (
        λ e. (salt, f, code, same ∙ (str_eq_iff t hash).0 (ok_inj (sym run ∙ e))),
        λ h.
            let fits = sym same ∙ (at_salt (λ u. u ≡ hash) salt f h).1 in
            run ∙ ap ok ((str_eq_iff t hash).1 fits),
      ),
      (
        λ e. (
          salt,
          f,
          code,
          λ fits.
              let yes = (str_eq_iff t hash).1 (sym same ∙ fits) in
              let no = ok_inj (sym run ∙ e) in cc,
        ),
        λ h.
            let differs = (at_salt (λ u. u ≢ hash) salt f h).1 in
            run ∙ ap ok (not_true (str_eq t hash) (λ y. differs (same ∙ (str_eq_iff t hash).0 y))),
      ),
      (λ e. let bad = sym run ∙ e in cc, λ none. absurd (none (salt, f, code, tt))),
    )
    | inr (none, run) ↦ (
      (λ e. let bad = sym run ∙ e in cc, λ h. absurd (none (h.0, h.1, h.2, tt))),
      (λ e. let bad = sym run ∙ e in cc, λ h. absurd (none (h.0, h.1, h.2, tt))),
      (λ e. none, λ h. run),
    )
  ]
