-- ===== src/Crypto/HashUtil.antt =====
-- namespace hash_util of include/ra_common/crypto/hash_util.hpp.
pub mod Hex
pub mod Compare
pub mod Verify
use ra_common_cpp.Base.{
  ℕ, zero, suc, ◌+◌, ◌-◌, ◌*◌, ◌/◌, ◌%◌, ◌^◌, ◌≡◌, refl, Bool, true, false, ◌&&◌, ◌||◌, not, List,
  [], ◌∷◌, ◌++◌, bit_and, bit_or, bit_xor, Bytes, codes, length, get_or, ltb, leb, ◌==◌,
  if◌then◌else◌, Result, ok, err, throw_crypto, throw_invalid, ◌>>=◌,
}
use ra_common_cpp.Base.Bits.{shr}
use ra_common_cpp.Std.Numbers.{ℤ, pos, negsuc, pos_part, to_u8, stoi, to_string}
use ra_common_cpp.Std.Lines.{split_lines}
use ra_common_cpp.Std.Entropy.{Source, random_bytes_of}
use ra_common_cpp.Encoding.Base64.{base64_encode, base64_decode}
use ra_common_cpp.Crypto.Sha.Sha1.{sha1}
use ra_common_cpp.Crypto.Sha.Sha2.{sha256, sha512}
use ra_common_cpp.Crypto.Pbkdf2.{pbkdf2_hmac_sha1}
use ra_common_cpp.Crypto.HashAlgorithm.{HashAlgorithm}

unfoldable pub digest : Bytes → HashAlgorithm → Result Bytes
digest bytes HashAlgorithm.sha1 = ok (sha1 bytes)
digest bytes HashAlgorithm.sha256 = ok (sha256 bytes)
digest bytes HashAlgorithm.sha512 = ok (sha512 bytes)
digest bytes HashAlgorithm.pbkdf2_hmac_sha1 = throw_crypto (codes "PBKDF2 is not a plain digest")

abbrev pub upper_hex : Bytes
upper_hex = codes "0123456789ABCDEF"

-- hex += kHex[b >> 4]; hex += kHex[b & 0xf];
unfoldable pub hex_digits : Bytes → Bytes
hex_digits [] = []
hex_digits (b ∷ bs) =
    get_or upper_hex (shr b 4) 0 ∷ get_or upper_hex (bit_and b 0xf) 0 ∷ hex_digits bs

-- Blocks of four, each but the first behind a colon.
unfoldable pub group_hex : Bool → Bytes → Bytes
group_hex first [] = []
group_hex first (a ∷ b ∷ c ∷ d ∷ hex) =
    (if first then [] else codes ":") ++ (a ∷ b ∷ c ∷ d ∷ group_hex false hex)
group_hex first (a ∷ hex) = (if first then [] else codes ":") ++ (a ∷ hex)

unfoldable pub to_hex : Bytes → Bytes
unfolding hex_digits group_hex
to_hex bytes = group_hex true (hex_digits bytes)

-- text.erase(std::remove(text.begin(), text.end(), ':'), text.end());
unfoldable pub erase_colons : Bytes → Bytes
erase_colons [] = []
erase_colons (c ∷ text) = let rest = erase_colons text in if c == b':' then rest else c ∷ rest

-- One byte for each two characters; a last odd character is not read.
unfoldable pub parse_pairs : Bytes → Result Bytes
parse_pairs [] = ok []
parse_pairs (a ∷ []) = ok []
parse_pairs (a ∷ b ∷ text) = do
  (value, _) ← stoi 16 (a ∷ b ∷ [])
  rest ← parse_pairs text
  ok (to_u8 value ∷ rest)

unfoldable pub from_hex : Bytes → Result Bytes
unfolding erase_colons parse_pairs
from_hex text = parse_pairs (erase_colons text)

unfoldable pub generate_fingerprint : Bytes → HashAlgorithm → Result Bytes
unfolding digest to_hex
generate_fingerprint bytes algorithm = do d ← digest bytes algorithm; ok (to_hex d)

-- diff |= static_cast<uint8_t>(a[i] ^ b[i]), over vectors of one size.
unfoldable pub gather_diff : Bytes → Bytes → ℕ → ℕ
gather_diff [] ys diff = diff
gather_diff (x ∷ xs) [] diff = diff
gather_diff (x ∷ xs) (y ∷ ys) diff = gather_diff xs ys (bit_or diff (bit_xor x y % 256))

unfoldable pub constant_time_equals : Bytes → Bytes → Bool
unfolding gather_diff
constant_time_equals a b = if length a == length b then gather_diff a b 0 == 0 else false

abbrev pub iterations_default : ℕ
iterations_default = 1000

unfoldable pub generate_password_hash_with_salt : Bytes → Bytes → Bytes
generate_password_hash_with_salt password salt =
    let derived = pbkdf2_hmac_sha1 password salt iterations_default 64 in
    to_string iterations_default ++ (b'_' ∷ (base64_encode salt ++ b'_' ∷ base64_encode derived))

-- What is caught by `catch (...)` is an answer of `false`.
unfoldable pub verify_parts : Bytes → List Bytes → Bool
verify_parts password (first ∷ second ∷ third ∷ []) = elim (stoi 10 first) [
  | err e ↦ false
  | ok (iterations, consumed) ↦
      if not (consumed == length first) then false else elim (base64_decode second) [
        | err e ↦ false
        | ok salt ↦ elim (base64_decode third) [
          | err e ↦ false
          | ok expected ↦
              constant_time_equals
                (pbkdf2_hmac_sha1 password salt (pos_part iterations) (length expected)) expected
        ]
      ]
]
verify_parts password parts = false

unfoldable pub verify_password_hash : Bytes → Bytes → Bool
verify_password_hash password hash_to_verify =
    verify_parts password (split_lines b'_' hash_to_verify)

-- A salt of sixteen random bytes. The result has the number of the next call of getentropy.
unfoldable pub generate_hash : Source → ℕ → Bytes → HashAlgorithm → Result (Bytes × ℕ)
generate_hash source call content HashAlgorithm.pbkdf2_hmac_sha1 = do
  (salt, next) ← random_bytes_of source call 16
  ok (generate_password_hash_with_salt content salt, next)
generate_hash source call content algorithm = do
  (salt, next) ← random_bytes_of source call 16
  h ← digest (salt ++ content) algorithm
  ok (base64_encode h ++ b'_' ∷ base64_encode salt, next)

unfoldable pub verify_salted : Bytes → HashAlgorithm → List Bytes → Result Bool
verify_salted content algorithm (first ∷ second ∷ []) = do
  expected ← base64_decode first
  salt ← base64_decode second
  d ← digest (salt ++ content) algorithm
  ok (constant_time_equals d expected)
verify_salted content algorithm parts = throw_invalid (codes "malformed hash")

unfoldable pub verify_hash : Bytes → Bytes → HashAlgorithm → Result Bool
verify_hash content hash_to_verify HashAlgorithm.pbkdf2_hmac_sha1 =
    ok (verify_password_hash content hash_to_verify)
verify_hash content hash_to_verify algorithm =
    verify_salted content algorithm (split_lines b'_' hash_to_verify)
