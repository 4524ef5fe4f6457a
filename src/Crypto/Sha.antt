-- ===== src/Crypto/Sha.antt =====
-- include/ra_common/crypto/sha.hpp. The padding and the byte order are written out three times
-- there; here they stand once, with the block size and the place of the length as arguments.
-- `Sha/Sha1` and `Sha/Sha2` have the compression functions.
pub mod Sha1
pub mod Sha2
pub mod Padding
pub mod Digest
use ra_common_cpp.Base.{
  ℕ, zero, suc, ◌+◌, ◌-◌, ◌*◌, ◌/◌, ◌%◌, ◌^◌, List, [], ◌∷◌, ◌++◌, bit_or, Bytes, length, take,
  drop, replicate, ◌==◌, if◌then◌else◌,
}
use ra_common_cpp.Base.Bits.{shl, shr}

-- RotL32, RotR32 and RotR64, on words of w bits.
unfoldable pub rot_l : ℕ → ℕ → ℕ → ℕ
rot_l w x n = bit_or (shl w x n) (shr x (w - n))

unfoldable pub rot_r : ℕ → ℕ → ℕ → ℕ
rot_r w x n = bit_or (shr x n) (shl w x (w - n))

-- `~x` on a word of w bits.
abbrev pub complement : ℕ → ℕ → ℕ
complement w x = 2 ^ w - 1 - x

-- while (msg.size() % block != target) msg.push_back(0x00);
-- `block` rounds are enough.
unfoldable pub pad_zeros : ℕ → ℕ → ℕ → Bytes → Bytes
pad_zeros zero block target msg = msg
pad_zeros (suc fuel) block target msg =
    let more = pad_zeros fuel block target (msg ++ 0 ∷ []) in
    if length msg % block == target then msg else more

-- The n low bytes of x, highest first: `static_cast<uint8_t>(x >> (i * 8))` for i = n - 1 ... 0.
unfoldable pub big_endian : ℕ → ℕ → Bytes
big_endian zero x = []
big_endian (suc i) x = (shr x (i * 8) % 256) ∷ big_endian i x

-- The message, 0x80, zeros up to `target` in the last block, `high` zero bytes of the length, and
-- its 64 low bits.
unfoldable pub pad : ℕ → ℕ → ℕ → Bytes → Bytes
unfolding pad_zeros big_endian
pad block target high msg =
    let bit_len = length msg * 8 % 2 ^ 64 in
    pad_zeros block block target (msg ++ 0x80 ∷ []) ++ (replicate high 0 ++ big_endian 8 bit_len)

-- for (chunk = 0; chunk < msg.size(); chunk += block) compress
-- A block has at least one byte, so `length msg` rounds are enough.
unfoldable pub each_chunk {ℓ} : {S : Type ℓ} → ℕ → ℕ → (Bytes → S → S) → Bytes → S → S
each_chunk fuel block compress [] s = s
each_chunk zero block compress (b ∷ msg) s = s
each_chunk (suc fuel) block compress (b ∷ msg) s =
    each_chunk fuel block compress (drop block (b ∷ msg)) (compress (take block (b ∷ msg)) s)

-- The words of a block, of four or eight bytes each, highest byte first.
unfoldable pub words_32 : ℕ → Bytes → List ℕ
words_32 zero chunk = []
words_32 (suc n) (a ∷ b ∷ c ∷ d ∷ chunk) =
    bit_or (bit_or (bit_or (shl 32 a 24) (shl 32 b 16)) (shl 32 c 8)) d ∷ words_32 n chunk
words_32 (suc n) _ = []

-- for (j = 0; j < 8; j++) v = (v << 8) | msg[...];
unfoldable pub read_64 : ℕ → Bytes → ℕ → ℕ
read_64 zero chunk v = v
read_64 (suc j) [] v = v
read_64 (suc j) (b ∷ chunk) v = read_64 j chunk (bit_or (shl 64 v 8) b)

unfoldable pub words_64 : ℕ → Bytes → List ℕ
unfolding read_64
words_64 zero chunk = []
words_64 (suc n) chunk = read_64 8 chunk 0 ∷ words_64 n (drop 8 chunk)

-- The digest: each word as `n` bytes, highest first.
unfoldable pub words_to_bytes : ℕ → List ℕ → Bytes
unfolding big_endian
words_to_bytes n [] = []
words_to_bytes n (w ∷ ws) = big_endian n w ++ words_to_bytes n ws
