-- ===== src/Encoding/Base58.antt =====
-- Base58Encode and Base58Decode of include/ra_common/encoding.hpp: numbers in base 58 and in base
-- 256 as vectors of digits, the least significant first.
pub mod Values
pub mod Canonical
pub mod RoundTrip
use mathlib.Core.List.{reverse}
use ra_common_cpp.Base.{
  ℕ, zero, suc, ◌+◌, ◌*◌, ◌/◌, ◌%◌, List, [], ◌∷◌, ◌++◌, map, Option, none, some, Bytes, codes,
  get_or, replicate, ◌==◌, if◌then◌else◌, Result, ok, throw_decode, ◌>>=◌, bit_and,
}
use ra_common_cpp.Base.Bits.{shr}

abbrev pub alphabet_58 : Bytes
alphabet_58 = codes "123456789ABCDEFGHJKLMNPQRSTUVWXYZabcdefghijkmnopqrstuvwxyz"

-- while (carry > 0); a round divides the carry, so `carry` rounds are enough.
unfoldable pub grow : ℕ → ℕ → List ℕ
grow zero carry = []
grow (suc fuel) carry =
    let rest = grow fuel (carry / 58) in if carry == 0 then [] else carry % 58 % 256 ∷ rest

-- The rounds for one byte: every digit times 256, with the carry.
unfoldable pub push_byte : List ℕ → ℕ → List ℕ
unfolding grow
push_byte [] carry = grow carry carry
push_byte (d ∷ digits) carry = let x = d * 256 + carry in x % 58 % 256 ∷ push_byte digits (x / 58)

unfoldable pub base58_digits : List ℕ → Bytes → List ℕ
base58_digits digits [] = digits
base58_digits digits (byte ∷ bytes) = base58_digits (push_byte digits byte) bytes

-- How often a vector begins with a value.
unfoldable pub leading : ℕ → Bytes → ℕ
leading v [] = 0
leading v (b ∷ bs) = let rest = leading v bs in if b == v then suc rest else 0

unfoldable pub base58_encode : Bytes → Bytes
base58_encode bytes =
    replicate (leading 0 bytes) b'1'
    ++ map (λ d. get_or alphabet_58 d 0) (reverse (base58_digits [] bytes))

-- std::strchr in the alphabet; the terminating zero counts as absent.
unfoldable pub index_of : ℕ → Bytes → Option ℕ
index_of ch [] = none
index_of ch (c ∷ cs) =
    let rest = index_of ch cs in
    if c == ch then some 0 else elim rest [ none ↦ none | some i ↦ some (suc i) ]

-- while (carry > 0) of the decoder.
unfoldable pub grow_bytes : ℕ → ℕ → Bytes
grow_bytes zero carry = []
grow_bytes (suc fuel) carry =
    let rest = grow_bytes fuel (shr carry 8) in if carry == 0 then [] else bit_and carry 0xff ∷ rest

unfoldable pub push_digit : Bytes → ℕ → Bytes
unfolding grow_bytes
push_digit [] carry = grow_bytes carry carry
push_digit (b ∷ bytes) carry = let x = b * 58 + carry in bit_and x 0xff ∷ push_digit bytes (shr x 8)

unfoldable pub base58_bytes : Bytes → Bytes → Result Bytes
base58_bytes bytes [] = ok bytes
base58_bytes bytes (ch ∷ text) = elim (index_of ch alphabet_58) [
  | none ↦ throw_decode (codes "invalid base58 character: " ++ ch ∷ [])
  | some i ↦ base58_bytes (push_digit bytes i) text
]

unfoldable pub base58_decode : Bytes → Result Bytes
base58_decode text = do
  bytes ← base58_bytes [] text
  ok (replicate (leading b'1' text) 0 ++ reverse bytes)
