-- ===== src/Crypto/Multihash.antt =====
-- include/ra_common/crypto/multihash.hpp.
pub mod RoundTrip
pub mod Texts
use ra_common_cpp.Base.{
  ℕ, zero, suc, ◌+◌, ◌/◌, ◌%◌, Bool, true, false, not, List, [], ◌∷◌, ◌++◌, bit_and, Bytes, codes,
  length, take, get_or, ltb, ◌==◌, list_eq, if◌then◌else◌, Result, ok, err, throw_invalid, ◌>>=◌,
}
use ra_common_cpp.Base.Bits.{shr}
use ra_common_cpp.Std.Numbers.{to_string}
use ra_common_cpp.Crypto.HashUtil.{parse_pairs}

pub data MultihashType : Type 0 where
  sha1 sha2_256 sha2_512 sha3 blake2b blake2s : MultihashType

unfoldable pub type_to_string : MultihashType → Bytes
type_to_string MultihashType.sha1 = codes "Sha1"
type_to_string MultihashType.sha2_256 = codes "Sha2_256"
type_to_string MultihashType.sha2_512 = codes "Sha2_512"
type_to_string MultihashType.sha3 = codes "Sha3"
type_to_string MultihashType.blake2b = codes "Blake2b"
type_to_string MultihashType.blake2s = codes "Blake2s"

unfoldable pub multihash_type_from_string : Bytes → Result MultihashType
multihash_type_from_string s =
    if list_eq s (codes "Sha1")
    then ok MultihashType.sha1
    else if list_eq s (codes "Sha2_256")
    then ok MultihashType.sha2_256
    else if list_eq s (codes "Sha2_512")
    then ok MultihashType.sha2_512
    else if list_eq s (codes "Sha3")
    then ok MultihashType.sha3
    else if list_eq s (codes "Blake2b")
    then ok MultihashType.blake2b
    else if list_eq s (codes "Blake2s")
    then ok MultihashType.blake2s
    else throw_invalid (codes "unknown multihash type: " ++ s)

unfoldable pub multihash_code : MultihashType → ℕ
multihash_code MultihashType.sha1 = 0x11
multihash_code MultihashType.sha2_256 = 0x12
multihash_code MultihashType.sha2_512 = 0x13
multihash_code MultihashType.sha3 = 0x14
multihash_code MultihashType.blake2b = 0x40
multihash_code MultihashType.blake2s = 0x41

unfoldable pub multihash_length : MultihashType → ℕ
multihash_length MultihashType.sha1 = 20
multihash_length MultihashType.sha2_256 = 32
multihash_length MultihashType.sha2_512 = 64
multihash_length MultihashType.sha3 = 64
multihash_length MultihashType.blake2b = 64
multihash_length MultihashType.blake2s = 32

abbrev pub lower_hex : Bytes
lower_hex = codes "0123456789abcdef"

-- os << std::hex << code; the fuel bounds the number of digits.
print_hex : ℕ → ℕ → Bytes → Bytes
print_hex zero n out = out
print_hex (suc fuel) n out =
    let out' = get_or lower_hex (n % 16) 0 ∷ out in
    let more = print_hex fuel (n / 16) out' in if ltb n 16 then out' else more

find_code : ℕ → List MultihashType → Result MultihashType
unfolding multihash_code
find_code code [] = throw_invalid (codes "unknown multihash type: 0x" ++ print_hex 8 code [])
find_code code (t ∷ types) =
    let rest = find_code code types in if multihash_code t == code then ok t else rest

unfoldable pub multihash_type_from_code : ℕ → Result MultihashType
unfolding find_code print_hex
multihash_type_from_code code = find_code code (
    MultihashType.sha1 ∷ MultihashType.sha2_256 ∷ MultihashType.sha2_512 ∷ MultihashType.sha3
    ∷ MultihashType.blake2b ∷ MultihashType.blake2s ∷ [])

pub record Multihash : Type 0 where
  pub kind : MultihashType
  pub digest_bytes : Bytes

-- The constructor.
unfoldable pub new_multihash : MultihashType → Bytes → Result Multihash
new_multihash k d =
    if ltb 127 (length d)
    then throw_invalid (codes "unsupported hash size: " ++ to_string (length d))
    else if not (length d == multihash_length k)
    then throw_invalid (
        codes "incorrect hash length: "
        ++ (to_string (length d) ++ (codes " != " ++ to_string (multihash_length k))))
    else ok (record { kind = k; digest_bytes = d })

unfoldable pub to_bytes : Multihash → Bytes
to_bytes m = multihash_code m.kind % 256 ∷ length m.digest_bytes % 256 ∷ m.digest_bytes

-- The size check of FromBytes and the constructor on the bytes behind the two of the header.
unfoldable pub read_digest : MultihashType → ℕ → Bytes → Result Multihash
read_digest k size bytes =
    if ltb (length bytes) size
    then throw_invalid (codes "multihash truncated")
    else new_multihash k (take size bytes)

unfoldable pub from_bytes : Bytes → Result Multihash
from_bytes [] = throw_invalid (codes "multihash too short")
from_bytes (code ∷ []) = throw_invalid (codes "multihash too short")
from_bytes (code ∷ size ∷ bytes) = do k ← multihash_type_from_code code; read_digest k size bytes

unfoldable pub lower_hex_digits : Bytes → Bytes
lower_hex_digits [] = []
lower_hex_digits (b ∷ bs) =
    get_or lower_hex (shr b 4) 0 ∷ get_or lower_hex (bit_and b 0xf) 0 ∷ lower_hex_digits bs

unfoldable pub to_hex_string : Multihash → Bytes
to_hex_string m = lower_hex_digits (to_bytes m)

unfoldable pub from_hex_string : Bytes → Result Multihash
from_hex_string text = do bytes ← parse_pairs text; from_bytes bytes

unfoldable pub multihash_equals : Multihash → Multihash → Bool
multihash_equals m other = list_eq (to_hex_string m) (to_hex_string other)
