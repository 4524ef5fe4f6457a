-- ===== src/Crypto/Sha/Digest.antt =====
-- The digests of sha.hpp as byte strings.
use ra_common_cpp.Base.{
  ℕ, zero, suc, ◌*◌, ◌≡◌, refl, List, [], ◌∷◌, Bytes, length, length-append, IsBytes, All-append,
  arith,
}
use ra_common_cpp.Crypto.Sha.{big_endian, words_to_bytes}
use ra_common_cpp.Crypto.Sha.Sha1.{sha1, sha1_state, sha1_words}
use ra_common_cpp.Crypto.Sha.Sha2.{sha256, sha256_state, sha512, sha512_state, sha2_words}

-- A byte string of a given length.
pub record HasSize (n : ℕ) (bytes : Bytes) : Type 0 where
  pub length_is : length bytes ≡ n
  pub are_bytes : IsBytes bytes

pub big_endian-HasSize : (n x : ℕ) → HasSize n (big_endian n x)
unfolding big_endian
big_endian-HasSize zero x = record { length_is = refl; are_bytes = tt }
big_endian-HasSize (suc n) x =
    let rest = big_endian-HasSize n x in
    record { length_is = omega (arith, rest.length_is); are_bytes = (omega arith, rest.are_bytes) }

words_to_bytes-HasSize : (n : ℕ) (ws : List ℕ) → HasSize (length ws * n) (words_to_bytes n ws)
unfolding words_to_bytes
words_to_bytes-HasSize n [] = record { length_is = omega arith; are_bytes = tt }
words_to_bytes-HasSize n (w ∷ ws) =
    let first = big_endian-HasSize n w in
    let rest = words_to_bytes-HasSize n ws in
    record {
      length_is = omega (
        arith,
        length-append (big_endian n w) (words_to_bytes n ws),
        first.length_is,
        rest.length_is,
      );
      are_bytes =
          All-append _ (big_endian n w) (words_to_bytes n ws) first.are_bytes rest.are_bytes;
    }

-- SHA-1, SHA-256 and SHA-512 return 20, 32 and 64 bytes.
pub sha1-HasSize : (msg : Bytes) → HasSize 20 (sha1 msg)
unfolding sha1
sha1-HasSize msg = words_to_bytes-HasSize 4 (sha1_words (sha1_state msg))

pub sha256-HasSize : (msg : Bytes) → HasSize 32 (sha256 msg)
unfolding sha256
sha256-HasSize msg = words_to_bytes-HasSize 4 (sha2_words (sha256_state msg))

pub sha512-HasSize : (msg : Bytes) → HasSize 64 (sha512 msg)
unfolding sha512
sha512-HasSize msg = words_to_bytes-HasSize 8 (sha2_words (sha512_state msg))
