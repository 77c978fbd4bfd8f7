-- ===== src/Utility/Digits.antt =====
-- One byte of src/Utility/Utility.h: what is printed for it, and what is read back.
use ccfolio.Common.{ℕ, ◌+◌, ◌*◌, ◌/◌, ◌%◌, ◌<◌, ◌≡◌, [], ◌∷◌, false, some, arith, ◌==◌, ◌∙◌, ap}
use ccfolio.Common.Text.{Str}
use ccfolio.Common.Effect.{ok}
use ccfolio.Utility.{
  hex_digit, put_byte, is_space, digit_value, skip_spaces, take_sign, read_digits, stoi_magnitude,
  signed_byte, parse_byte,
}

-- A digit as `std::hex` prints it: `0` to `9` or `a` to `f`.
abbrev pub IsHexDigit : ℕ → Type 0
IsHexDigit c = (d : ℕ) × (d < 16) × (c ≡ hex_digit d)

pub digit_value-hex_digit : (d : ℕ) → d < 16 → digit_value (hex_digit d) ≡ some d
unfolding digit_value hex_digit
digit_value-hex_digit d h = ground arith

hex_digit-not_space : (d : ℕ) → d < 16 → is_space (hex_digit d) ≡ false
unfolding is_space hex_digit
hex_digit-not_space d h = ground arith

hex_digit-not_sign :
    (d : ℕ) → d < 16 → ((hex_digit d == b'-') ≡ false) × ((hex_digit d == b'+') ≡ false)
unfolding hex_digit
hex_digit-not_sign d h = ground arith

pub put_byte_lem : (n : ℕ) → n < 256 → put_byte n ≡ hex_digit (n / 16) ∷ hex_digit (n % 16) ∷ []
unfolding put_byte hex_digit
put_byte_lem n h = ground arith

stoi_magnitude-hex_digit :
    (x y : ℕ)
    → x < 16
    → y < 16
    → stoi_magnitude (hex_digit x ∷ hex_digit y ∷ []) ≡ some (x * 16 + y)
unfolding stoi_magnitude
stoi_magnitude-hex_digit x y hx hy =
    rw (digit_value-hex_digit x hx, read_digits) (rw (digit_value-hex_digit y hy, read_digits))

take_sign-hex_digit :
    (d : ℕ) (s : Str)
    → d < 16
    → take_sign (skip_spaces (hex_digit d ∷ s)) ≡ (false, hex_digit d ∷ s)
unfolding take_sign skip_spaces
take_sign-hex_digit d s h =
    rw (hex_digit-not_space d h, (hex_digit-not_sign d h).0, (hex_digit-not_sign d h).1)

-- Two digits are read as the byte that they write.
pub parse_byte-hex_digit :
    (x y : ℕ) → x < 16 → y < 16 → parse_byte (hex_digit x ∷ hex_digit y ∷ []) ≡ ok (x * 16 + y)
unfolding parse_byte
parse_byte-hex_digit x y hx hy =
    ap signed_byte (take_sign-hex_digit x (hex_digit y ∷ []) hx)
    ∙ rw (stoi_magnitude-hex_digit x y hx hy, signed_byte) (ap ok (omega arith))
