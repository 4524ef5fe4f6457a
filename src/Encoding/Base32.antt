-- ===== src/Encoding/Base32.antt =====
-- Base32Encode and Base32Decode of include/ra_common/encoding.hpp. `int value` is kept modulo 2 ^ 32:
-- at most 12 of its low bits are read.
use ra_common_cpp.Base.{
  ℕ, zero, suc, ◌+◌, ◌-◌, [], ◌∷◌, ◌++◌, none, some, Bytes, codes, get_or, leb, ltb, bit_and,
  bit_or, if◌then◌else◌, Result, ok, throw_decode,
}
use ra_common_cpp.Base.Bits.{shl, shr}
use ra_common_cpp.Encoding.Base58.{index_of}

abbrev pub alphabet_32 : Bytes
alphabet_32 = codes "ABCDEFGHIJKLMNOPQRSTUVWXYZ234567"

-- while (bits >= 5), with the bits that are left; five are used each time, so `bits` rounds are enough.
unfoldable pub drain : ℕ → ℕ → ℕ → Bytes × ℕ
drain zero value bits = ([], bits)
drain (suc fuel) value bits =
    let (rest, left) = drain fuel value (bits - 5) in
    if leb 5 bits
    then (get_or alphabet_32 (bit_and (shr value (bits - 5)) 0x1f) 0 ∷ rest, left)
    else ([], bits)

unfoldable pub encode_32_loop : Bytes → ℕ → ℕ → Bytes
unfolding drain
encode_32_loop [] value bits =
    if ltb 0 bits then get_or alphabet_32 (bit_and (shl 32 value (5 - bits)) 0x1f) 0 ∷ [] else []
encode_32_loop (byte ∷ bytes) value bits =
    let value' = bit_or (shl 32 value 8) byte in
    let (out, left) = drain (bits + 8) value' (bits + 8) in out ++ encode_32_loop bytes value' left

unfoldable pub base32_encode : Bytes → Bytes
unfolding encode_32_loop
base32_encode bytes = encode_32_loop bytes 0 0

unfoldable pub decode_32_loop : Bytes → ℕ → ℕ → Bytes → Result Bytes
decode_32_loop [] value bits out = ok out
decode_32_loop (ch ∷ text) value bits out = elim (index_of ch alphabet_32) [
  | none ↦ throw_decode (codes "invalid base32 character: " ++ ch ∷ [])
  | some i ↦
      let value' = bit_or (shl 32 value 5) i in
      let full =
        decode_32_loop text value' (bits + 5 - 8)
          (out ++ bit_and (shr value' (bits + 5 - 8)) 0xff ∷ []) in
      let short = decode_32_loop text value' (bits + 5) out in
      if leb 8 (bits + 5) then full else short
]

unfoldable pub base32_decode : Bytes → Result Bytes
unfolding decode_32_loop
base32_decode text = decode_32_loop text 0 0 []
