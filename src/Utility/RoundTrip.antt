-- ===== src/Utility/RoundTrip.antt =====
-- src/Utility/Utility.h: the two conversions together.
use ccfolio.Common.{
  ℕ, ◌+◌, ◌-◌, ◌*◌, ◌/◌, ◌%◌, ◌<◌, ◌≡◌, refl, List, [], ◌∷◌, ◌++◌, arith, length, All, ap, ap₂, ◌∙◌,
}
use ccfolio.Common.Text.{Str}
use ccfolio.Common.Effect.{ok}
use ccfolio.Utility.{put_byte, to_hex_string, prepend, from_hex_string, hex_digit}
use ccfolio.Utility.Digits.{IsHexDigit, put_byte_lem, parse_byte-hex_digit}

abbrev pub IsByte : ℕ → Type 0
IsByte b = b < 256

parse_byte-put_byte :
    (b : ℕ) (s : Str)
    → IsByte b
    → from_hex_string (put_byte b ++ s) ≡ prepend (ok b) (from_hex_string s)
unfolding from_hex_string
parse_byte-put_byte b s h =
    rw (put_byte_lem b h, parse_byte-hex_digit (b / 16) (b % 16) (omega arith) (omega arith))
      (ap (λ n. prepend (ok n) (from_hex_string s)) (omega arith))

-- Reading the hexadecimal text of a byte vector gives the vector back.
pub from_hex_string-to_hex_string :
    (bytes : List ℕ) → All IsByte bytes → from_hex_string (to_hex_string bytes) ≡ ok bytes
unfolding from_hex_string to_hex_string
from_hex_string-to_hex_string [] h = refl
from_hex_string-to_hex_string (b ∷ bytes) h =
    parse_byte-put_byte b (to_hex_string bytes) h.0
    ∙ ap (prepend (ok b)) (from_hex_string-to_hex_string bytes h.1)

-- Every byte vector is written with two lower-case digits for each byte.
pub to_hex_string-IsHexDigit :
    (bytes : List ℕ)
    → All IsByte bytes
    → All IsHexDigit (to_hex_string bytes) × (length (to_hex_string bytes) ≡ 2 * length bytes)
unfolding to_hex_string
to_hex_string-IsHexDigit [] h = (tt, refl)
to_hex_string-IsHexDigit (b ∷ bytes) h =
    let (digits, size) = to_hex_string-IsHexDigit bytes h.1 in
    rw (put_byte_lem b h.0)
      (((b / 16, omega arith, refl), ((b % 16, omega arith, refl), digits)), omega arith)

-- Two vectors with the same text are the same.
pub to_hex_string_injective :
    (xs ys : List ℕ) → All IsByte xs → All IsByte ys → to_hex_string xs ≡ to_hex_string ys → xs ≡ ys
to_hex_string_injective xs ys hx hy e =
    cc (from_hex_string-to_hex_string xs hx, from_hex_string-to_hex_string ys hy)

-- A text of an even number of lower-case digits is read without an exception, into bytes whose text
-- it is.
pub to_hex_string-from_hex_string :
    (n : ℕ) (s : Str)
    → length s ≡ 2 * n
    → All IsHexDigit s
    → (bytes : List ℕ) × (from_hex_string s ≡ ok bytes)
      × All IsByte bytes
      × (to_hex_string bytes ≡ s)
unfolding from_hex_string to_hex_string
to_hex_string-from_hex_string n [] e h = ([], refl, tt, refl)
to_hex_string-from_hex_string n (a ∷ []) e h = absurd (omega arith)
to_hex_string-from_hex_string n (a ∷ b ∷ s) e ((x, hx, ex), ((y, hy, ey), h)) =
    let (bytes, read, valid, printed) = to_hex_string-from_hex_string (n - 1) s (omega arith) h in
    (
      (x * 16 + y) ∷ bytes,
      rw (ex, ey, parse_byte-hex_digit x y hx hy, read),
      (omega arith, valid),
      rw (put_byte_lem (x * 16 + y) (omega arith), printed)
          (rw (ex, ey)
            (ap₂ (λ c d. hex_digit c ∷ hex_digit d ∷ s) {x = (x * 16 + y) / 16} (omega arith)
              (omega arith))),
    )
