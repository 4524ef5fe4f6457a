-- ===== src/Crypto/Pbkdf2.antt =====
-- include/ra_common/crypto/pbkdf2.hpp: HMAC-SHA1 and PBKDF2-HMAC-SHA1.
pub mod Size
use ra_common_cpp.Base.{
  ℕ, zero, suc, ◌+◌, ◌-◌, ◌*◌, ◌/◌, ◌%◌, ◌^◌, List, [], ◌∷◌, ◌++◌, map, bit_xor, Bytes, length,
  take, replicate, ltb, if◌then◌else◌,
}
use ra_common_cpp.Crypto.Sha.{big_endian}
use ra_common_cpp.Crypto.Sha.Sha1.{sha1}

-- v.resize(n, 0x00)
unfoldable pub resize : ℕ → Bytes → Bytes
resize n v = take n v ++ replicate (n - length v) 0

unfoldable pub hmac_key : Bytes → Bytes
unfolding resize
hmac_key key_in = resize 64 (if ltb 64 (length key_in) then sha1 key_in else key_in)

-- `sha1` of the package, of the inner key before the message and of the outer key before that.
unfoldable pub hmac_sha1 : Bytes → Bytes → Bytes
unfolding hmac_key
hmac_sha1 key_in message =
    let key = hmac_key key_in in
    let ipad = map (λ b. bit_xor b 0x36) key in
    let opad = map (λ b. bit_xor b 0x5c) key in sha1 (opad ++ sha1 (ipad ++ message))

-- for (j = 0; j < t.size(); j++) t[j] ^= u[j];
unfoldable pub xor_into : Bytes → Bytes → Bytes
xor_into [] us = []
xor_into (t ∷ ts) [] = t ∷ ts
xor_into (t ∷ ts) (u ∷ us) = bit_xor t u ∷ xor_into ts us

-- The rounds that are left of `for (i = 1; i < iterations; i++)`.
unfoldable pub pbkdf2_rounds : ℕ → Bytes → Bytes → Bytes → Bytes
unfolding hmac_sha1 xor_into
pbkdf2_rounds zero pw u t = t
pbkdf2_rounds (suc n) pw u t = let u' = hmac_sha1 pw u in pbkdf2_rounds n pw u' (xor_into t u')

-- One block of twenty bytes. `iterations` is an int; below 1 it gives one round like 1.
unfoldable pub pbkdf2_block : Bytes → Bytes → ℕ → ℕ → Bytes
unfolding pbkdf2_rounds big_endian
pbkdf2_block pw salt iterations block_index =
    let u = hmac_sha1 pw (salt ++ big_endian 4 block_index) in pbkdf2_rounds (iterations - 1) pw u u

-- while (out.size() < key_len); block_index is a uint32_t.
unfoldable pub pbkdf2_loop : ℕ → Bytes → Bytes → ℕ → ℕ → ℕ → Bytes → Bytes
unfolding pbkdf2_block
pbkdf2_loop zero pw salt iterations key_len block_index out = out
pbkdf2_loop (suc fuel) pw salt iterations key_len block_index out =
    let more =
      pbkdf2_loop fuel pw salt iterations key_len ((block_index + 1) % 2 ^ 32)
        (out ++ pbkdf2_block pw salt iterations block_index) in
    if ltb (length out) key_len then more else out

-- Each round appends a byte at least, so `key_len` rounds are enough.
unfoldable pub pbkdf2_hmac_sha1 : Bytes → Bytes → ℕ → ℕ → Bytes
unfolding pbkdf2_loop resize
pbkdf2_hmac_sha1 password salt iterations key_len =
    resize key_len (pbkdf2_loop key_len password salt iterations key_len 1 [])
