-- ===== src/Util/Random.antt =====
-- What include/ra_common/util/random_util.hpp makes of random bytes, and RandomUuidLike of
-- include/ra_common/envelope.hpp and messaging/event_message.hpp. The machine is little-endian.
pub mod Ranges
pub mod Ids
use ra_common_cpp.Base.{
  ℕ, ◌+◌, ◌-◌, ◌*◌, ◌/◌, ◌%◌, ◌^◌, Bool, ◌||◌, List, [], ◌∷◌, ◌++◌, Option, none, some, bit_and,
  Bytes, codes, get_or, ltb, ◌==◌, if◌then◌else◌, Result, ok, ◌>>=◌,
}
use ra_common_cpp.Base.Bits.{shr}
use ra_common_cpp.Std.Numbers.{ℤ, pos, negsuc}
use ra_common_cpp.Std.Entropy.{Source, random_bytes_of}

-- optional.value_or(drawn)
unfoldable pub value_or : Option Bytes → Bytes → Bytes
value_or none drawn = drawn
value_or (some given) drawn = given

-- memcpy into an unsigned integer.
unfoldable pub little_endian : Bytes → ℕ
little_endian [] = 0
little_endian (b ∷ bytes) = b + 256 * little_endian bytes

-- The word of `w` bits that a signed integer is, and back.
unfoldable pub to_word : ℕ → ℤ → ℕ
to_word w (pos n) = n % 2 ^ w
to_word w (negsuc n) = 2 ^ w - 1 - n % 2 ^ w

unfoldable pub from_word : ℕ → ℕ → ℤ
from_word w x = if ltb x (2 ^ (w - 1)) then pos x else negsuc (2 ^ w - 1 - x)

abbrev pub alphanumerics : Bytes
alphanumerics = codes "ABCDEFGHIJKLMNOPQRSTUVWXYZabcdefghijklmnopqrstuvwxyz0123456789"

unfoldable pub alphanumeric_of : Bytes → Bytes
alphanumeric_of [] = []
alphanumeric_of (b ∷ bytes) = get_or alphanumerics (b % 62) 0 ∷ alphanumeric_of bytes

-- The results also have the number of the next call of getentropy.
unfoldable pub random_alphanumeric : Source → ℕ → ℕ → Result (Bytes × ℕ)
unfolding alphanumeric_of
random_alphanumeric source call count = do
  (bytes, next) ← random_bytes_of source call count
  ok (alphanumeric_of bytes, next)

-- lower + static_cast<int32_t>(raw % span), in 32 bits; `none` is a remainder by 0, which has no
-- defined result.
unfoldable pub int_in : ℤ → ℤ → ℕ → Option ℤ
unfolding to_word from_word
int_in lower upper raw =
    let span = (to_word 32 upper + 2 ^ 32 - to_word 32 lower) % 2 ^ 32 in
    if span == 0 then none else some (from_word 32 ((to_word 32 lower + raw % span) % 2 ^ 32))

unfoldable pub next_int_in : Source → ℕ → ℤ → ℤ → Result (Option ℤ × ℕ)
unfolding little_endian int_in
next_int_in source call lower upper = do
  (buf, next) ← random_bytes_of source call 4
  ok (int_in lower upper (little_endian buf), next)

unfoldable pub next_long : Source → ℕ → Result (ℤ × ℕ)
unfolding little_endian from_word
next_long source call = do
  (buf, next) ← random_bytes_of source call 8
  ok (from_word 64 (little_endian buf), next)

abbrev pub uuid_digits : Bytes
uuid_digits = codes "0123456789abcdef"

-- The digits of the bytes from byte `i` on.
unfoldable pub uuid_from : ℕ → Bytes → Bytes
uuid_from i [] = []
uuid_from i (b ∷ bytes) =
    let rest =
      get_or uuid_digits (shr b 4) 0
      ∷ get_or uuid_digits (bit_and b 0xf) 0
      ∷ uuid_from (i + 1) bytes in
    if i == 4 || i == 6 || i == 8 || i == 10 then b'-' ∷ rest else rest

abbrev pub uuid_result : Bytes × ℕ → Result (Bytes × ℕ)
uuid_result (bytes, next) = ok (uuid_from 0 bytes, next)

unfoldable pub random_uuid_like : Source → ℕ → Result (Bytes × ℕ)
unfolding uuid_from
random_uuid_like source call = random_bytes_of source call 16 >>= uuid_result
