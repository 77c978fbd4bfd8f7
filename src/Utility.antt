-- ===== src/Utility.antt =====
-- src/Utility/Utility.h: bytes to a hexadecimal text and back.
pub mod Digits
pub mod RoundTrip
use ccfolio.Common.{
  ℕ, suc, ◌+◌, ◌-◌, ◌*◌, ◌/◌, ◌%◌, List, [], ◌∷◌, ◌++◌, Bool, true, false, ◌&&◌, ◌||◌, Option, none,
  some, ltb, leb, ◌==◌, if◌then◌else◌, length, replicate,
}
use ccfolio.Common.Text.{Str, text}
use ccfolio.Common.Effect.{Exception, invalid_argument, Outcome, ok, throw}

-- Output of a number under `std::hex`. A byte has at most two digits.
pub hex_digit : ℕ → ℕ
hex_digit d = if ltb d 10 then b'0' + d else b'a' + (d - 10)

hex_digits : ℕ → Str
unfolding hex_digit
hex_digits n = if ltb n 16 then hex_digit n ∷ [] else hex_digit (n / 16) ∷ hex_digit (n % 16) ∷ []

-- `std::setfill('0')` with `std::setw(width)`
pad : ℕ → Str → Str
pad width s = replicate (width - length s) b'0' ++ s

-- One round of the loop: `hexStream << std::setw(2) << static_cast<int>(byte)`.
unfoldable pub put_byte : ℕ → Str
unfolding hex_digits pad
put_byte byte = pad 2 (hex_digits byte)

unfoldable pub to_hex_string : List ℕ → Str
to_hex_string [] = []
to_hex_string (byte ∷ bytes) = put_byte byte ++ to_hex_string bytes

-- `std::stoi(s, nullptr, 16)` is `strtol`: white space, a sign and `0x` are skipped, the digits up
-- to the first other character count, and no digit at all is `std::invalid_argument`.
unfoldable pub is_space : ℕ → Bool
is_space c = c == 32 || (leb 9 c && leb c 13)

pub digit_value : ℕ → Option ℕ
digit_value c =
    if leb b'0' c && leb c b'9'
    then some (c - b'0')
    else if leb b'a' c && leb c b'f'
    then some (c - b'a' + 10)
    else if leb b'A' c && leb c b'F'
    then some (c - b'A' + 10)
    else none

unfoldable pub skip_spaces : Str → Str
unfolding is_space
skip_spaces [] = []
skip_spaces (c ∷ s) = if is_space c then skip_spaces s else c ∷ s

-- The sign (true for `-`) and what follows it.
unfoldable pub take_sign : Str → Bool × Str
take_sign [] = (false, [])
take_sign (c ∷ s) =
    if c == b'-' then (true, s) else if c == b'+' then (false, s) else (false, c ∷ s)

skip_prefix : Str → Str
unfolding digit_value
skip_prefix (z ∷ x ∷ d ∷ s) = elim (digit_value d) [
  | none ↦ z ∷ x ∷ d ∷ s
  | some _ ↦ if z == b'0' && (x == b'x' || x == b'X') then d ∷ s else z ∷ x ∷ d ∷ s
]
skip_prefix s = s

-- `acc` is the number read so far, `none` before the first digit.
read_digits : Option ℕ → Str → Option ℕ
read_digits acc [] = acc
read_digits acc (c ∷ s) = elim (digit_value c) [
  | none ↦ acc
  | some d ↦ read_digits (elim acc [ none ↦ some d | some v ↦ some (v * 16 + d) ]) s
]

stoi_magnitude : Str → Option ℕ
unfolding skip_prefix read_digits
stoi_magnitude s = read_digits none (skip_prefix s)

-- `static_cast<uint8_t>(std::stoi(s, nullptr, 16))`, for texts too short to overflow an `int`.
to_uint8 : Bool → ℕ → ℕ
to_uint8 true v = (256 - v % 256) % 256
to_uint8 false v = v % 256

signed_byte : Bool × Str → Outcome ℕ
unfolding stoi_magnitude to_uint8
signed_byte (negative, s) = elim (stoi_magnitude s) [
  | none ↦ throw (invalid_argument (text "stoi"))
  | some v ↦ ok (to_uint8 negative v)
]

pub parse_byte : Str → Outcome ℕ
unfolding signed_byte take_sign skip_spaces
parse_byte s = signed_byte (take_sign (skip_spaces s))

prepend : Outcome ℕ → Outcome (List ℕ) → Outcome (List ℕ)
prepend (ok byte) (ok bytes) = ok (byte ∷ bytes)
prepend (ok byte) (throw e) = throw e
prepend (throw e) _ = throw e

-- The loop takes `hex.substr(i, 2)`, which is one character long at the end of an odd text.
unfoldable pub from_hex_string : Str → Outcome (List ℕ)
unfolding parse_byte prepend
from_hex_string [] = ok []
from_hex_string (a ∷ []) = prepend (parse_byte (a ∷ [])) (ok [])
from_hex_string (a ∷ b ∷ hex) = prepend (parse_byte (a ∷ b ∷ [])) (from_hex_string hex)
