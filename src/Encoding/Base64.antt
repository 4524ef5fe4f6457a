-- ===== src/Encoding/Base64.antt =====
-- Base64Encode and Base64Decode of include/ra_common/encoding.hpp.
-- The list is what the loop has not read; an `int` or `uint32_t` is its 32-bit pattern.
pub mod RoundTrip
pub mod Text
use ra_common_cpp.Base.{
  ℕ, ◌+◌, ◌-◌, ◌*◌, ◌/◌, ◌%◌, ◌^◌, ◌≡◌, refl, List, [], ◌∷◌, ◌++◌, Bool, ◌&&◌, ◌||◌, Option, none,
  some, bit_and, bit_or, Bytes, codes, get_or, ltb, leb, ◌==◌, if◌then◌else◌, Result, ok, err,
  throw_decode, ◌>>=◌,
}
use ra_common_cpp.Base.Bits.{shl, shr}

abbrev pub alphabet : Bytes
alphabet = codes "ABCDEFGHIJKLMNOPQRSTUVWXYZabcdefghijklmnopqrstuvwxyz0123456789+/"

-- kAlphabet[(n >> k) & 0x3f]
sextet_char : ℕ → ℕ → ℕ
sextet_char n k = get_or alphabet (bit_and (shr n k) 0x3f) 0

-- The groups of three bytes, and the last one or two with their padding.
unfoldable pub base64_encode : Bytes → Bytes
unfolding sextet_char
base64_encode [] = []
base64_encode (a ∷ []) = let n = shl 32 a 16 in sextet_char n 18 ∷ sextet_char n 12 ∷ codes "=="
base64_encode (a ∷ b ∷ []) =
    let n = bit_or (shl 32 a 16) (shl 32 b 8) in
    sextet_char n 18 ∷ sextet_char n 12 ∷ sextet_char n 6 ∷ codes "="
base64_encode (a ∷ b ∷ c ∷ rest) =
    let n = bit_or (bit_or (shl 32 a 16) (shl 32 b 8)) c in
    sextet_char n 18 ∷ sextet_char n 12 ∷ sextet_char n 6 ∷ sextet_char n 0 ∷ base64_encode rest

-- The lambda `decode_char`; `none` is its -1.
decode_char : ℕ → Option ℕ
decode_char c =
    if leb b'A' c && leb c b'Z'
    then some (c - b'A')
    else if leb b'a' c && leb c b'z'
    then some (c - b'a' + 26)
    else if leb b'0' c && leb c b'9'
    then some (c - b'0' + 52)
    else if c == b'+'
    then some 62
    else if c == b'/'
    then some 63
    else none

-- Padding and line ends are passed over.
is_skipped : ℕ → Bool
is_skipped ch = ch == b'=' || ch == b'\n' || ch == b'\r'

-- `buffer`, `bits` and `out` are the loop's variables. At most 14 bits are read from the buffer, so
-- the sign that `>>` would copy in does not reach the mask.
decode_loop : Bytes → ℕ → ℕ → Bytes → Result Bytes
decode_loop [] buffer bits out = ok out
decode_loop (ch ∷ text) buffer bits out =
    let skip = decode_loop text buffer bits out in
    let step = λ (val : ℕ).
      let buffer' = bit_or (shl 32 buffer 6) val in
      let short = decode_loop text buffer' (bits + 6) out in
      let full =
        decode_loop text buffer' (bits + 6 - 8)
          (out ++ bit_and (shr buffer' (bits + 6 - 8)) 0xff ∷ []) in
      if leb 8 (bits + 6) then full else short in
    if is_skipped ch then skip else elim (decode_char ch) [
      | none ↦ throw_decode (codes "invalid base64 character: " ++ ch ∷ [])
      | some val ↦ step val
    ]

unfoldable pub base64_decode : Bytes → Result Bytes
unfolding decode_loop decode_char is_skipped
base64_decode text = decode_loop text 0 0 []
