-- ===== src/Util/Bytes.antt =====
-- include/ra_common/util/bytes_util.hpp. An int32_t is the integer that its 32 bits stand for.
pub mod RoundTrip
use ra_common_cpp.Base.{
  ℕ, zero, suc, ◌+◌, ◌-◌, ◌*◌, ◌/◌, ◌%◌, ◌^◌, List, [], ◌∷◌, bit_or, Bytes, ltb, get_or,
  if◌then◌else◌,
}
use ra_common_cpp.Base.Bits.{shl, shr}
use ra_common_cpp.Std.Numbers.{ℤ, pos, negsuc}

-- static_cast<int32_t> of a uint32_t, and static_cast<uint32_t> of an int32_t.
unfoldable pub to_int32 : ℕ → ℤ
to_int32 u = if ltb u (2 ^ 31) then pos u else negsuc (2 ^ 32 - 1 - u)

unfoldable pub to_uint32 : ℤ → ℕ
to_uint32 (pos n) = n % 2 ^ 32
to_uint32 (negsuc n) = 2 ^ 32 - 1 - n % 2 ^ 32

-- The array b is its first four bytes.
unfoldable pub pack_big_endian : ℕ → ℕ → ℕ → ℕ → ℤ
pack_big_endian b0 b1 b2 b3 =
    to_int32 (bit_or (bit_or (bit_or (shl 32 b0 24) (shl 32 b1 16)) (shl 32 b2 8)) b3)

unfoldable pub unpack_big_endian : ℤ → Bytes
unpack_big_endian x =
    let ux = to_uint32 x in shr ux 24 % 256 ∷ shr ux 16 % 256 ∷ shr ux 8 % 256 ∷ ux % 256 ∷ []

unfoldable pub pack_little_endian : ℕ → ℕ → ℕ → ℕ → ℤ
pack_little_endian b0 b1 b2 b3 =
    to_int32 (bit_or (bit_or (bit_or (shl 32 b3 24) (shl 32 b2 16)) (shl 32 b1 8)) b0)

unfoldable pub unpack_little_endian : ℤ → Bytes
unpack_little_endian x =
    let ux = to_uint32 x in ux % 256 ∷ shr ux 8 % 256 ∷ shr ux 16 % 256 ∷ shr ux 24 % 256 ∷ []
