-- ===== src/Crypto/HashUtil/Verify.antt =====
-- VerifyHash and VerifyPasswordHash of hash_util.hpp on what GenerateHash wrote.
use ra_common_cpp.Base.{
  ℕ, ◌<◌, ◌≡◌, refl, ap, ◌∙◌, true, [], ◌∷◌, ◌++◌, Bytes, codes, length, IsBytes, Lacks, list_eq,
  list_eq_refl, list_eq_refl, ok-injective, >>=-eq-ok, ok, arith,
}
use ra_common_cpp.Std.Numbers.{stoi, to_string}
use ra_common_cpp.Std.Lines.{split_lines, split_lines_more, split_lines_last, split_lines_three}
use ra_common_cpp.Std.Entropy.{Source, random_bytes_of, random_bytes_of_fills}
use ra_common_cpp.Encoding.Base64.{base64_encode}
use ra_common_cpp.Encoding.Base64.RoundTrip.{base64_decode-encode}
use ra_common_cpp.Encoding.Base64.Text.{base64_encode-Lacks, length-base64_encode}
use ra_common_cpp.Crypto.Sha.Digest.{HasSize, sha1-HasSize, sha256-HasSize, sha512-HasSize}
use ra_common_cpp.Crypto.Pbkdf2.{pbkdf2_hmac_sha1}
use ra_common_cpp.Crypto.Pbkdf2.Size.{pbkdf2_hmac_sha1-HasSize}
use ra_common_cpp.Crypto.HashAlgorithm.{HashAlgorithm}
use ra_common_cpp.Crypto.HashUtil.Compare.{constant_time_equals_self, constant_time_equals-list_eq}
use ra_common_cpp.Crypto.HashUtil.{
  digest, verify_salted, verify_hash, constant_time_equals, verify_parts, verify_password_hash,
  iterations_default, generate_password_hash_with_salt, generate_hash,
}

-- `h_salt`, both in base64.
abbrev pub salted_text : Bytes → Bytes → Bytes
salted_text h salt = base64_encode h ++ b'_' ∷ base64_encode salt

split_salted :
    (h salt : Bytes)
    → IsBytes h
    → IsBytes salt
    → 0 < length salt
    → split_lines b'_' (salted_text h salt) ≡ base64_encode h ∷ base64_encode salt ∷ []
split_salted h salt hh hs nonempty =
    after (base64_encode salt) (base64_encode-Lacks salt hs)
      (omega (arith, length-base64_encode salt))
  where
    after :
        (text : Bytes)
        → Lacks b'_' text
        → 0 < length text
        → split_lines b'_' (base64_encode h ++ b'_' ∷ text) ≡ base64_encode h ∷ text ∷ []
    after [] hl ht = absurd (omega arith)
    after (x ∷ q) hl ht =
        split_lines_more b'_' (base64_encode h) x q (base64_encode-Lacks h hh)
        ∙ ap (◌∷◌ (base64_encode h)) (split_lines_last b'_' x q hl)

verify_salted_lem :
    (content h salt : Bytes) (algorithm : HashAlgorithm) (d : Bytes)
    → IsBytes h
    → IsBytes salt
    → IsBytes d
    → digest (salt ++ content) algorithm ≡ ok d
    → verify_salted content algorithm (base64_encode h ∷ base64_encode salt ∷ []) ≡ ok (list_eq d h)
unfolding verify_salted
verify_salted_lem content h salt algorithm d hh hs hd e =
    rw (base64_decode-encode h hh, base64_decode-encode salt hs, e)
      (ap ok (constant_time_equals-list_eq d h hd hh))

abbrev pub digest_size : HashAlgorithm → ℕ
digest_size HashAlgorithm.sha1 = 20
digest_size HashAlgorithm.sha256 = 32
digest_size HashAlgorithm.sha512 = 64
digest_size HashAlgorithm.pbkdf2_hmac_sha1 = 0

-- A digest that Digest returns consists of bytes and has the size of its algorithm: 20 for SHA-1,
-- 32 for SHA-256, 64 for SHA-512.
pub digest-HasSize :
    (bytes : Bytes) (algorithm : HashAlgorithm) (d : Bytes)
    → digest bytes algorithm ≡ ok d
    → HasSize (digest_size algorithm) d
unfolding digest
digest-HasSize bytes HashAlgorithm.sha1 d e = rw (ok-injective e) at (sha1-HasSize bytes)
digest-HasSize bytes HashAlgorithm.sha256 d e = rw (ok-injective e) at (sha256-HasSize bytes)
digest-HasSize bytes HashAlgorithm.sha512 d e = rw (ok-injective e) at (sha512-HasSize bytes)
digest-HasSize bytes HashAlgorithm.pbkdf2_hmac_sha1 d e = cc

-- For a digest algorithm, VerifyHash on the text of a hash and a non-empty salt, both of bytes,
-- answers whether the digest of salt and content equals the hash.
pub verify_hash-salted :
    (content h salt : Bytes) (algorithm : HashAlgorithm) (d : Bytes)
    → IsBytes h
    → IsBytes salt
    → 0 < length salt
    → digest (salt ++ content) algorithm ≡ ok d
    → verify_hash content (salted_text h salt) algorithm ≡ ok (list_eq d h)
unfolding verify_hash
verify_hash-salted content h salt HashAlgorithm.pbkdf2_hmac_sha1 d hh hs nonempty e =
    unfold digest in cc
verify_hash-salted content h salt a d hh hs nonempty e =
    ap (verify_salted content a) (split_salted h salt hh hs nonempty)
    ∙ verify_salted_lem content h salt a d hh hs (digest-HasSize (salt ++ content) a d e).are_bytes
        e

verify_parts_lem :
    (password salt expected : Bytes)
    → IsBytes salt
    → IsBytes expected
    → verify_parts password (codes "1000" ∷ base64_encode salt ∷ base64_encode expected ∷ [])
      ≡ constant_time_equals (pbkdf2_hmac_sha1 password salt 1000 (length expected)) expected
unfolding verify_parts stoi
verify_parts_lem password salt expected hs he =
    rw (base64_decode-encode salt hs, base64_decode-encode expected he) refl

-- A password hash that GeneratePasswordHashWithSalt made from a password and a salt of bytes is
-- accepted by VerifyPasswordHash for the same password.
pub verify_password_hash-generate :
    (password salt : Bytes)
    → IsBytes salt
    → verify_password_hash password (generate_password_hash_with_salt password salt) ≡ true
unfolding verify_password_hash generate_password_hash_with_salt
verify_password_hash-generate password salt hs =
    ap (verify_parts password) (
      split_password (base64_encode derived) text_lacks
        (omega (arith, length-base64_encode derived, made.length_is)))
    ∙ parts_verify
  where
    derived : Bytes
    derived = pbkdf2_hmac_sha1 password salt iterations_default 64

    made : HasSize 64 derived
    made = pbkdf2_hmac_sha1-HasSize password salt iterations_default 64

    text_lacks : Lacks b'_' (base64_encode derived)
    text_lacks = base64_encode-Lacks derived made.are_bytes

    split_password :
        (text : Bytes)
        → Lacks b'_' text
        → 0 < length text
        → split_lines b'_' (to_string 1000 ++ b'_' ∷ (base64_encode salt ++ b'_' ∷ text))
          ≡ codes "1000" ∷ base64_encode salt ∷ text ∷ []
    split_password [] hl ht = absurd (omega arith)
    split_password (x ∷ r) hl ht =
        unfold to_string in
        split_lines_three b'_' (codes "1000") (base64_encode salt) x r (omega arith)
          (base64_encode-Lacks salt hs) hl

    parts_verify :
        verify_parts password (codes "1000" ∷ base64_encode salt ∷ base64_encode derived ∷ [])
        ≡ true
    parts_verify =
        verify_parts_lem password salt derived hs made.are_bytes
        ∙ ap (λ n. constant_time_equals (pbkdf2_hmac_sha1 password salt 1000 n) derived)
            made.length_is
        ∙ constant_time_equals_self derived

module _ (source : Source) (call : ℕ) (content : Bytes) where
  -- Whenever GenerateHash returns a text for a content and an algorithm, VerifyHash accepts that
  -- text for the same content and algorithm.
  pub verify_hash-generate_hash :
      (algorithm : HashAlgorithm) (text : Bytes) (next : ℕ)
      → generate_hash source call content algorithm ≡ ok (text, next)
      → verify_hash content text algorithm ≡ ok true
  unfolding generate_hash
  verify_hash-generate_hash HashAlgorithm.pbkdf2_hmac_sha1 text next e =
      let ((salt, after), (rest, drawn)) = >>=-eq-ok _ _ (random_bytes_of source call 16) e in
      let same : generate_password_hash_with_salt content salt ≡ text = cc rest in
      let (size, good) = random_bytes_of_fills source call 16 salt after drawn in
      unfold verify_hash in rw (← same) (ap ok (verify_password_hash-generate content salt good))
  verify_hash-generate_hash a text next e =
      let ((salt, after), (rest, drawn)) = >>=-eq-ok _ _ (random_bytes_of source call 16) e in
      let (d, (rest', made)) = >>=-eq-ok _ _ (digest (salt ++ content) a) rest in
      let same : salted_text d salt ≡ text = cc rest' in
      let (size, good) = random_bytes_of_fills source call 16 salt after drawn in
      rw (← same) (
        verify_hash-salted content d salt a d (digest-HasSize (salt ++ content) a d made).are_bytes
          good (omega (arith, size)) made
        ∙ ap ok (list_eq_refl d))
