-- ===== src/Encoding/Base64/Text.antt =====
-- What the text of Base64Encode looks like: its length, and a character that it never holds.
use ra_common_cpp.Base.{
  ℕ, ◌+◌, ◌*◌, ◌/◌, ◌%◌, ◌<◌, ◌≡◌, ◌≢◌, refl, true, [], ◌∷◌, not, Bytes, length, IsBytes, Lacks,
  ◌==◌, holds_below, holds_below→, arith,
}
use ra_common_cpp.Encoding.Base64.{base64_encode}
use ra_common_cpp.Encoding.Base64.RoundTrip.{digit, encode_one, encode_two, encode_three}

no_underscore : holds_below 64 (λ v. not (digit v == b'_')) ≡ true
unfolding holds_below digit
no_underscore = refl

digit-ne : (v : ℕ) → v < 64 → digit v ≢ b'_'
digit-ne v h = ground (arith, holds_below→ 64 _ no_underscore v h)

-- The separator of the hash formats does not occur.
pub base64_encode-Lacks : (bytes : Bytes) → IsBytes bytes → Lacks b'_' (base64_encode bytes)
base64_encode-Lacks [] h = unfold base64_encode in tt
base64_encode-Lacks (a ∷ []) h =
    rw (encode_one a h.0)
      (digit-ne (a / 4) (omega arith), (digit-ne (a % 4 * 16) (omega arith), omega arith))
base64_encode-Lacks (a ∷ b ∷ []) h = rw (encode_two a b h.0 h.1.0) (
  digit-ne (a / 4) (omega arith),
  (
    digit-ne (a % 4 * 16 + b / 16) (omega arith),
    (digit-ne (b % 16 * 4) (omega arith), omega arith),
  ),
)
base64_encode-Lacks (a ∷ b ∷ c ∷ rest) h = rw (encode_three a b c rest h.0 h.1.0 h.1.1.0) (
  digit-ne (a / 4) (omega arith),
  (
    digit-ne (a % 4 * 16 + b / 16) (omega arith),
    (
      digit-ne (b % 16 * 4 + c / 64) (omega arith),
      (digit-ne (c % 64) (omega arith), base64_encode-Lacks rest h.1.1.1),
    ),
  ),
)

-- The text of Base64Encode has four characters for every three bytes begun.
pub length-base64_encode :
    (bytes : Bytes) → length (base64_encode bytes) ≡ (length bytes + 2) / 3 * 4
unfolding base64_encode
length-base64_encode [] = refl
length-base64_encode (a ∷ []) = refl
length-base64_encode (a ∷ b ∷ []) = refl
length-base64_encode (a ∷ b ∷ c ∷ rest) = omega (arith, length-base64_encode rest)
