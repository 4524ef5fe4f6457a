-- ===== src/Examples/Crypto.antt =====
-- Runs of the digests, and the theorems on padding, PBKDF2 and hashes at concrete inputs.
use ra_common_cpp.Base.{
  Option, Bool, true, false, none, leb, if◌then◌else◌, ℕ, ◌≡◌, refl, true, List, [], ◌∷◌, ◌++◌,
  some, Bytes, codes, length, replicate, length-replicate, ok, arith, list_eq, All-replicate,
  IsBytes,
}
use ra_common_cpp.Std.Entropy.{NeverFails, Source, random_bytes_of}
use ra_common_cpp.Crypto.Sha.{words_to_bytes}
use ra_common_cpp.Crypto.Sha.Sha1.{sha1, sha1_state}
use ra_common_cpp.Crypto.Sha.Sha2.{sha256, sha256_state, sha512, sha512_state}
use ra_common_cpp.Crypto.Pbkdf2.{pbkdf2_hmac_sha1, pbkdf2_loop, resize}
use ra_common_cpp.Std.Numbers.{stoi}
use ra_common_cpp.Std.Lines.{split_lines}
use ra_common_cpp.Encoding.Base64.{base64_decode}
use ra_common_cpp.Crypto.HashAlgorithm.{HashAlgorithm}
use ra_common_cpp.Crypto.HashUtil.{
  verify_parts, digest, to_hex, from_hex, constant_time_equals, generate_hash, verify_hash,
  verify_password_hash, generate_password_hash_with_salt,
}
use ra_common_cpp.Crypto.HashUtil.Hex.{from_hex-to_hex}
use ra_common_cpp.Crypto.HashUtil.Compare.{constant_time_equals-list_eq}
use ra_common_cpp.Crypto.HashUtil.Verify.{
  salted_text, verify_hash-salted, verify_password_hash-generate, verify_hash-generate_hash,
}
use ra_common_cpp.Crypto.Multihash.{
  Multihash, MultihashType, multihash_length, to_bytes, from_bytes,
}
use ra_common_cpp.Crypto.Multihash.Texts.{
  to_base58, from_base58, multihash_to_json, multihash_from_json, multihash_texts,
}
use ra_common_cpp.Examples.Json.{trees}
use ra_common_cpp.Crypto.Multihash.RoundTrip.{from_bytes-to_bytes}

sha1_abc :
    sha1 (codes "abc")
    ≡ 0xa9 ∷ 0x99 ∷ 0x3e ∷ 0x36 ∷ 0x47 ∷ 0x06 ∷ 0x81 ∷ 0x6a ∷ 0xba ∷ 0x3e ∷ 0x25 ∷ 0x71 ∷ 0x78
      ∷ 0x50 ∷ 0xc2 ∷ 0x6c ∷ 0x9c ∷ 0xd0 ∷ 0xd8 ∷ 0x9d ∷ []
unfolding sha1 sha1_state words_to_bytes
sha1_abc = refl

sha256_abc :
    sha256 (codes "abc")
    ≡ 0xba ∷ 0x78 ∷ 0x16 ∷ 0xbf ∷ 0x8f ∷ 0x01 ∷ 0xcf ∷ 0xea ∷ 0x41 ∷ 0x41 ∷ 0x40 ∷ 0xde ∷ 0x5d
      ∷ 0xae ∷ 0x22 ∷ 0x23 ∷ 0xb0 ∷ 0x03 ∷ 0x61 ∷ 0xa3 ∷ 0x96 ∷ 0x17 ∷ 0x7a ∷ 0x9c ∷ 0xb4 ∷ 0x10
      ∷ 0xff ∷ 0x61 ∷ 0xf2 ∷ 0x00 ∷ 0x15 ∷ 0xad ∷ []
unfolding sha256 sha256_state words_to_bytes
sha256_abc = refl

sha512_abc :
    sha512 (codes "abc")
    ≡ 0xdd ∷ 0xaf ∷ 0x35 ∷ 0xa1 ∷ 0x93 ∷ 0x61 ∷ 0x7a ∷ 0xba ∷ 0xcc ∷ 0x41 ∷ 0x73 ∷ 0x49 ∷ 0xae
      ∷ 0x20 ∷ 0x41 ∷ 0x31 ∷ 0x12 ∷ 0xe6 ∷ 0xfa ∷ 0x4e ∷ 0x89 ∷ 0xa9 ∷ 0x7e ∷ 0xa2 ∷ 0x0a ∷ 0x9e
      ∷ 0xee ∷ 0xe6 ∷ 0x4b ∷ 0x55 ∷ 0xd3 ∷ 0x9a ∷ 0x21 ∷ 0x92 ∷ 0x99 ∷ 0x2a ∷ 0x27 ∷ 0x4f ∷ 0xc1
      ∷ 0xa8 ∷ 0x36 ∷ 0xba ∷ 0x3c ∷ 0x23 ∷ 0xa3 ∷ 0xfe ∷ 0xeb ∷ 0xbd ∷ 0x45 ∷ 0x4d ∷ 0x44 ∷ 0x23
      ∷ 0x64 ∷ 0x3c ∷ 0xe8 ∷ 0x0e ∷ 0x2a ∷ 0x9a ∷ 0xc9 ∷ 0x4f ∷ 0xa5 ∷ 0x4c ∷ 0xa4 ∷ 0x9f ∷ []
unfolding sha512 sha512_state words_to_bytes
sha512_abc = refl

-- What a call for `count` bytes answers: zeros, and a failure above 256 bytes.
abbrev pub zeros_for : Bool → ℕ → Option Bytes
zeros_for small count = if small then some (replicate count 0) else none

pub zeros_fill :
    (small : Bool) (count : ℕ) (bytes : Bytes)
    → zeros_for small count ≡ some bytes
    → length bytes ≡ count
zeros_fill true count bytes e =
    let same : replicate count 0 ≡ bytes = cc in rw (← same) (length-replicate count 0)
zeros_fill false count bytes e = absurd (cc)

pub zeros_are_bytes :
    (small : Bool) (count : ℕ) (bytes : Bytes) → zeros_for small count ≡ some bytes → IsBytes bytes
zeros_are_bytes true count bytes e =
    let same : replicate count 0 ≡ bytes = cc in rw (← same) (All-replicate _ count 0 (omega arith))
zeros_are_bytes false count bytes e = absurd (cc)

-- A source of zeros, which fails where getentropy does.
abbrev pub zeros : Source
zeros = record {
  getentropy = λ call count. zeros_for (leb count 256) count;
  fills = λ call count. zeros_fill (leb count 256) count;
  gives_bytes = λ call count. zeros_are_bytes (leb count 256) count;
}

pub zeros_NeverFails : NeverFails zeros
zeros_NeverFails call count small =
    let e : leb count 256 ≡ true = ground arith in (replicate count 0, rw e refl)

abbrev abc : Bytes
abc = codes "abc"

abbrev two_blocks : List Bytes
two_blocks = replicate 64 1 ∷ replicate 64 2 ∷ []

to_hex_runs : to_hex (0 ∷ 171 ∷ 255 ∷ []) ≡ codes "00AB:FF"
unfolding to_hex
to_hex_runs = refl

from_hex-to_hex_example : from_hex (to_hex (0 ∷ 171 ∷ 255 ∷ [])) ≡ ok (0 ∷ 171 ∷ 255 ∷ [])
from_hex-to_hex_example = from_hex-to_hex (0 ∷ 171 ∷ 255 ∷ []) (omega arith)

constant_time_equals-list_eq_example :
    constant_time_equals (7 ∷ 8 ∷ []) (7 ∷ 9 ∷ []) ≡ list_eq (7 ∷ 8 ∷ []) (7 ∷ 9 ∷ [])
constant_time_equals-list_eq_example =
    constant_time_equals-list_eq (7 ∷ 8 ∷ []) (7 ∷ 9 ∷ []) (omega arith) (omega arith)

verify_hash-salted_example :
    verify_hash abc (salted_text (1 ∷ []) (5 ∷ [])) HashAlgorithm.sha256
    ≡ ok (list_eq (sha256 (5 ∷ abc)) (1 ∷ []))
unfolding digest
verify_hash-salted_example =
    verify_hash-salted abc (1 ∷ []) (5 ∷ []) HashAlgorithm.sha256 (sha256 (5 ∷ abc)) (omega arith)
      (omega arith) (omega arith) refl

verify_password_hash-generate_example :
    verify_password_hash abc (generate_password_hash_with_salt abc (1 ∷ 2 ∷ [])) ≡ true
verify_password_hash-generate_example = verify_password_hash-generate abc (1 ∷ 2 ∷ []) (omega arith)

verify_hash-generate_hash_example :
    verify_hash abc
      (salted_text (sha256 (replicate 16 0 ++ abc)) (replicate 16 0))
      HashAlgorithm.sha256
    ≡ ok true
unfolding generate_hash random_bytes_of digest
verify_hash-generate_hash_example =
    verify_hash-generate_hash zeros 0 abc HashAlgorithm.sha256 _ 1 refl

abbrev twenty : Multihash
twenty = record { kind = MultihashType.sha1; digest_bytes = replicate 20 7 }

from_bytes-to_bytes_example : from_bytes (to_bytes twenty ++ 1 ∷ []) ≡ ok twenty
unfolding multihash_length
from_bytes-to_bytes_example = from_bytes-to_bytes twenty (1 ∷ []) refl

-- A hash whose last part decodes to no bytes is accepted for every password.
empty_hash_accepted :
    (password : Bytes) → verify_password_hash password (codes "1000_AA==_=") ≡ true
unfolding verify_password_hash verify_parts split_lines stoi base64_decode pbkdf2_hmac_sha1
    pbkdf2_loop resize constant_time_equals
empty_hash_accepted password = refl

multihash_texts_example :
    (from_base58 (to_base58 twenty) ≡ ok twenty)
    × (multihash_from_json trees (multihash_to_json trees twenty) ≡ ok twenty)
unfolding multihash_length
multihash_texts_example = multihash_texts trees twenty (omega arith) refl
