-- ===== src/Crypto/Multihash/RoundTrip.antt =====
-- A Multihash is read back from its bytes and from its hexadecimal text.
use ra_common_cpp.Base.{
  ℕ, ◌%◌, ◌<◌, ◌≡◌, refl, ap, true, false, [], ◌∷◌, ◌++◌, append-nil, bit_and, Bytes, get_or,
  length, length-append, take-append, IsBytes, holds_below, holds_below→, ltb, ok, arith,
}
use ra_common_cpp.Base.Bits.{shr}
use ra_common_cpp.Std.Numbers.{stoi}
use ra_common_cpp.Crypto.HashUtil.{parse_pairs}
use ra_common_cpp.Crypto.HashUtil.Hex.{reads, reads→eq}
use ra_common_cpp.Crypto.Multihash.{
  Multihash, MultihashType, multihash_code, multihash_length, multihash_type_from_code,
  new_multihash, read_digest, to_bytes, from_bytes, lower_hex, lower_hex_digits, to_hex_string,
  from_hex_string,
}

code_back : (k : MultihashType) → multihash_type_from_code (multihash_code k % 256) ≡ ok k
unfolding multihash_type_from_code multihash_code
code_back MultihashType.sha1 = refl
code_back MultihashType.sha2_256 = refl
code_back MultihashType.sha2_512 = refl
code_back MultihashType.sha3 = refl
code_back MultihashType.blake2b = refl
code_back MultihashType.blake2s = refl

lengths : (k : MultihashType) → multihash_length k < 128
unfolding multihash_length
lengths MultihashType.sha1 = omega arith
lengths MultihashType.sha2_256 = omega arith
lengths MultihashType.sha2_512 = omega arith
lengths MultihashType.sha3 = omega arith
lengths MultihashType.blake2b = omega arith
lengths MultihashType.blake2s = omega arith

pub new_multihash_lem :
    (m : Multihash)
    → length m.digest_bytes ≡ multihash_length m.kind
    → new_multihash m.kind m.digest_bytes ≡ ok m
unfolding new_multihash
new_multihash_lem m h = ground (arith, lengths m.kind, h)

read_digest_lem :
    (m : Multihash) (rest : Bytes)
    → length m.digest_bytes ≡ multihash_length m.kind
    → read_digest m.kind (length m.digest_bytes) (m.digest_bytes ++ rest) ≡ ok m
unfolding read_digest
read_digest_lem m rest h =
    let long : ltb (length (m.digest_bytes ++ rest)) (length m.digest_bytes) ≡ false =
      ground (arith, length-append m.digest_bytes rest) in
    rw (long, take-append m.digest_bytes rest) (new_multihash_lem m h)

-- FromBytes reads a Multihash whose digest has the length of its kind from its bytes, whatever
-- bytes follow them.
pub from_bytes-to_bytes :
    (m : Multihash) (rest : Bytes)
    → length m.digest_bytes ≡ multihash_length m.kind
    → from_bytes (to_bytes m ++ rest) ≡ ok m
unfolding from_bytes to_bytes
from_bytes-to_bytes m rest h =
    let size : length m.digest_bytes % 256 ≡ length m.digest_bytes =
      omega (arith, h, lengths m.kind) in
    rw (code_back m.kind, size) (read_digest_lem m rest h)

abbrev high : ℕ → ℕ
high b = get_or lower_hex (shr b 4) 0

abbrev low : ℕ → ℕ
low b = get_or lower_hex (bit_and b 0xf) 0

lower_table : holds_below 256 (λ b. reads (stoi 16 (high b ∷ low b ∷ [])) b) ≡ true
unfolding holds_below stoi
lower_table = refl

parse_pairs-lower_hex_digits :
    (bytes : Bytes) → IsBytes bytes → parse_pairs (lower_hex_digits bytes) ≡ ok bytes
unfolding parse_pairs lower_hex_digits
parse_pairs-lower_hex_digits [] h = refl
parse_pairs-lower_hex_digits (b ∷ bs) h =
    let here = reads→eq (stoi 16 (high b ∷ low b ∷ [])) b (holds_below→ 256 _ lower_table b h.0) in
    rw (here, parse_pairs-lower_hex_digits bs h.1)
      (ap (λ v. ok (v ∷ bs)) (let e : b % 256 ≡ b = omega arith in e))

-- FromHexString reads back the text of a Multihash whose digest consists of bytes and has the
-- length of its kind.
pub from_hex_string-to_hex_string :
    (m : Multihash)
    → length m.digest_bytes ≡ multihash_length m.kind
    → IsBytes m.digest_bytes
    → from_hex_string (to_hex_string m) ≡ ok m
unfolding from_hex_string to_hex_string
from_hex_string-to_hex_string m h bytes =
    let read : parse_pairs (lower_hex_digits (to_bytes m)) ≡ ok (to_bytes m) =
      parse_pairs-lower_hex_digits (to_bytes m)
        (unfold to_bytes in (omega arith, (omega arith, bytes))) in
    let whole : from_bytes (to_bytes m) ≡ ok m =
      rw (append-nil (to_bytes m)) at (from_bytes-to_bytes m [] h) in
    rw read whole
