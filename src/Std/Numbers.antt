-- ===== src/Std/Numbers.antt =====
-- std::to_string of an unsigned number and std::stoi of a text, in base 10 or 16.
pub mod Decimal
use ra_common_cpp.Base.{
  ℕ, zero, suc, ◌+◌, ◌-◌, ◌*◌, ◌/◌, ◌%◌, ◌^◌, Bool, true, false, ◌&&◌, ◌||◌, Option, none, some, [],
  ◌∷◌, Bytes, length, ltb, leb, ◌==◌, if◌then◌else◌, Result, ok, err, invalid_argument,
  out_of_range,
}

-- `negsuc n` is -(n + 1).
pub data ℤ : Type 0 where
  pos : ℕ → ℤ
  negsuc : ℕ → ℤ

abbrev pub pos_part : ℤ → ℕ
pos_part (pos n) = n
pos_part (negsuc n) = 0

-- static_cast<uint8_t>(x)
abbrev pub to_u8 : ℤ → ℕ
to_u8 (pos n) = n % 256
to_u8 (negsuc n) = 255 - n % 256

-- std::isspace in the "C" locale.
unfoldable pub is_space : ℕ → Bool
is_space c = c == 32 || leb 9 c && leb c 13

digit_value : ℕ → ℕ → Option ℕ
digit_value base c =
    let value =
      if leb b'0' c && leb c b'9'
      then c - b'0'
      else if leb b'a' c && leb c b'z'
      then c - b'a' + 10
      else if leb b'A' c && leb c b'Z'
      then c - b'A' + 10
      else 36 in
    if ltb value base then some value else none

skip_spaces : Bytes → Bytes
unfolding is_space
skip_spaces [] = []
skip_spaces (c ∷ s) = if is_space c then skip_spaces s else c ∷ s

-- Whether there is a minus, and the text behind the sign.
read_sign : Bytes → Bool × Bytes
read_sign [] = (false, [])
read_sign (c ∷ s) =
    if c == b'-' then (true, s) else if c == b'+' then (false, s) else (false, c ∷ s)

-- In base 16, `0x` in front of a digit.
skip_prefix : ℕ → Bytes → Bytes
unfolding digit_value
skip_prefix base (z ∷ x ∷ d ∷ s) =
    if base == 16 && z == b'0' && (x == b'x' || x == b'X')
    then elim (digit_value base d) [ none ↦ z ∷ x ∷ d ∷ s | some _ ↦ d ∷ s ]
    else z ∷ x ∷ d ∷ s
skip_prefix base s = s

-- The value of the digits in front, and what follows them.
read_digits : ℕ → Bytes → ℕ → ℕ × Bytes
unfolding digit_value
read_digits base [] acc = (acc, [])
read_digits base (c ∷ s) acc = elim (digit_value base c) [
  | none ↦ (acc, c ∷ s)
  | some d ↦ read_digits base s (acc * base + d)
]

to_int : Bool → ℕ → Result ℤ
to_int false n = if ltb n (2 ^ 31) then ok (pos n) else err out_of_range
to_int true zero = ok (pos 0)
to_int true (suc n) = if ltb n (2 ^ 31) then ok (negsuc n) else err out_of_range

-- The range of std::stoi has 31 bits, and that of std::stoll 63.
to_int_of : ℕ → Bool → ℕ → Result ℤ
to_int_of bits false n = if ltb n (2 ^ bits) then ok (pos n) else err out_of_range
to_int_of bits true zero = ok (pos 0)
to_int_of bits true (suc n) = if ltb n (2 ^ bits) then ok (negsuc n) else err out_of_range

with_count : ℕ → Result ℤ → Result (ℤ × ℕ)
with_count count (ok v) = ok (v, count)
with_count count (err e) = err e

-- The number and the count of characters read.
unfoldable pub stoi : ℕ → Bytes → Result (ℤ × ℕ)
unfolding skip_spaces read_sign skip_prefix read_digits to_int with_count
stoi base s =
    let (minus, body) = read_sign (skip_spaces s) in
    let digits = skip_prefix base body in
    let (value, rest) = read_digits base digits 0 in
    if length rest == length digits
    then err invalid_argument
    else with_count (length s - length rest) (to_int minus value)

-- One digit at least; the fuel bounds the number of digits.
decimal : ℕ → ℕ → Bytes → Bytes
decimal zero n out = out
decimal (suc fuel) n out =
    let out' = (b'0' + n % 10) ∷ out in
    let more = decimal fuel (n / 10) out' in if ltb n 10 then out' else more

-- Sixty-four digits are enough for any number of the program's types.
unfoldable pub to_string : ℕ → Bytes
unfolding decimal
to_string n = decimal 64 n []

unfoldable pub signed_to_string : ℤ → Bytes
signed_to_string (pos n) = to_string n
signed_to_string (negsuc n) = b'-' ∷ to_string (suc n)

-- std::stoll in base 10.
unfoldable pub stoll : Bytes → Result ℤ
unfolding skip_spaces read_sign read_digits to_int_of
stoll s =
    let (minus, digits) = read_sign (skip_spaces s) in
    let (value, rest) = read_digits 10 digits 0 in
    if length rest == length digits then err invalid_argument else to_int_of 63 minus value
