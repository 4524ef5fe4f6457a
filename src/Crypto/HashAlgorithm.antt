-- ===== src/Crypto/HashAlgorithm.antt =====
-- include/ra_common/crypto/hash_algorithm.hpp and hash.hpp.
use ra_common_cpp.Base.{
  ◌≡◌, refl, Bool, ◌||◌, ◌++◌, Bytes, codes, list_eq, if◌then◌else◌, Result, ok, throw_invalid,
}

pub data HashAlgorithm : Type 0 where
  sha1 sha256 sha512 pbkdf2_hmac_sha1 : HashAlgorithm

unfoldable pub algorithm_to_string : HashAlgorithm → Bytes
algorithm_to_string sha1 = codes "Sha1"
algorithm_to_string sha256 = codes "Sha256"
algorithm_to_string sha512 = codes "Sha512"
algorithm_to_string pbkdf2_hmac_sha1 = codes "Pbkdf2HmacSha1"

unfoldable pub jca_name : HashAlgorithm → Bytes
jca_name sha1 = codes "SHA-1"
jca_name sha256 = codes "SHA-256"
jca_name sha512 = codes "SHA-512"
jca_name pbkdf2_hmac_sha1 = codes "PBKDF2WithHmacSHA1"

unfoldable pub parse_hash_algorithm : Bytes → Result HashAlgorithm
parse_hash_algorithm text =
    let is = λ (name : Bytes). list_eq text name in
    if is (codes "SHA-1") || is (codes "SHA1") || is (codes "Sha1")
    then ok sha1
    else if is (codes "SHA-256") || is (codes "SHA256") || is (codes "Sha256")
    then ok sha256
    else if is (codes "SHA-512") || is (codes "SHA512") || is (codes "Sha512")
    then ok sha512
    else if is (codes "PBKDF2WithHmacSHA1") || is (codes "Pbkdf2HmacSha1")
    then ok pbkdf2_hmac_sha1
    else throw_invalid (codes "unknown hash algorithm: " ++ text)

-- Both names of an algorithm are parsed back to it.
pub parse_hash_algorithm-names :
    (a : HashAlgorithm)
    → (parse_hash_algorithm (algorithm_to_string a) ≡ ok a)
      × (parse_hash_algorithm (jca_name a) ≡ ok a)
unfolding parse_hash_algorithm algorithm_to_string jca_name list_eq
parse_hash_algorithm-names sha1 = (refl, refl)
parse_hash_algorithm-names sha256 = (refl, refl)
parse_hash_algorithm-names sha512 = (refl, refl)
parse_hash_algorithm-names pbkdf2_hmac_sha1 = (refl, refl)

-- class Hash
pub record Hash : Type 0 where
  pub hash_value : Bytes
  pub algorithm : HashAlgorithm

-- Hash::Equals: the algorithm is not compared.
unfoldable pub hash_equals : Hash → Hash → Bool
hash_equals a b = list_eq a.hash_value b.hash_value
