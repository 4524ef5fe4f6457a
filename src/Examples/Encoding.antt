-- ===== src/Examples/Encoding.antt =====
-- Runs of the codecs, and their theorems at concrete inputs.
use ra_common_cpp.Base.{codes, ◌≡◌, refl, [], ◌∷◌, codes, ok, arith}
use ra_common_cpp.Encoding.Base64.{base64_encode, base64_decode}
use ra_common_cpp.Encoding.Base64.RoundTrip.{base64_decode-encode}
use ra_common_cpp.Encoding.Base32.{base32_encode, base32_decode}
use ra_common_cpp.Encoding.Base58.RoundTrip.{base58_decode-encode}
use ra_common_cpp.Encoding.Base58.{
  base58_encode, base58_decode, base58_digits, base58_bytes, push_byte, push_digit, leading,
  index_of,
}

man : base64_encode (codes "Man") ≡ codes "TWFu"
unfolding base64_encode
man = refl

padded : base64_encode (codes "M") ≡ codes "TQ=="
unfolding base64_encode
padded = refl

man_back : base64_decode (codes "TWFuTQ==") ≡ ok (codes "ManM")
unfolding base64_decode
man_back = refl

base64_decode-encode_example :
    base64_decode (base64_encode (0 ∷ 255 ∷ 16 ∷ 7 ∷ [])) ≡ ok (0 ∷ 255 ∷ 16 ∷ 7 ∷ [])
base64_decode-encode_example = base64_decode-encode (0 ∷ 255 ∷ 16 ∷ 7 ∷ []) (omega arith)

base58_runs : base58_encode (0 ∷ 1 ∷ 0 ∷ []) ≡ codes "15R"
unfolding base58_encode base58_digits push_byte leading
base58_runs = refl

base58_reads : base58_decode (codes "15R") ≡ ok (0 ∷ 1 ∷ 0 ∷ [])
unfolding base58_decode base58_bytes push_digit index_of leading
base58_reads = refl

base32_runs : base32_encode (codes "foobar") ≡ codes "MZXW6YTBOI"
unfolding base32_encode
base32_runs = refl

base32_reads : base32_decode (codes "MZXW6YTBOI") ≡ ok (codes "foobar")
unfolding base32_decode index_of
base32_reads = refl

base58_decode-encode_example :
    base58_decode (base58_encode (0 ∷ 0 ∷ 255 ∷ 0 ∷ 7 ∷ [])) ≡ ok (0 ∷ 0 ∷ 255 ∷ 0 ∷ 7 ∷ [])
base58_decode-encode_example = base58_decode-encode (0 ∷ 0 ∷ 255 ∷ 0 ∷ 7 ∷ []) (omega arith)
