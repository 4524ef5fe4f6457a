-- ===== src/Crypto/Pbkdf2/Size.antt =====
-- PBKDF2 returns as many bytes as it is asked for.
use ra_common_cpp.Base.{
  ℕ, zero, suc, ◌+◌, ◌-◌, ◌*◌, ◌/◌, ◌%◌, ◌^◌, ◌≤◌, ◌<◌, ◌≡◌, refl, sym, [], ◌∷◌, ◌++◌, append-nil,
  append_assoc, map, bit_xor, Bytes, length, take, replicate, length-append, length-take,
  length-replicate, IsBytes, All-append, All-take, All-replicate, arith,
}
use ra_common_cpp.Base.Bits.{xor-lt}
use ra_common_cpp.Crypto.Sha.{big_endian}
use ra_common_cpp.Crypto.Sha.Sha1.{sha1}
use ra_common_cpp.Crypto.Sha.Digest.{HasSize, sha1-HasSize}
use ra_common_cpp.Crypto.Pbkdf2.{
  resize, hmac_key, hmac_sha1, xor_into, pbkdf2_rounds, pbkdf2_block, pbkdf2_loop, pbkdf2_hmac_sha1,
}

hmac_sha1-HasSize : (key message : Bytes) → HasSize 20 (hmac_sha1 key message)
unfolding hmac_sha1
hmac_sha1-HasSize key message = sha1-HasSize (
    map (λ b. bit_xor b 0x5c) (hmac_key key)
    ++ sha1 (map (λ b. bit_xor b 0x36) (hmac_key key) ++ message))

xor_into-HasSize : (n : ℕ) (t u : Bytes) → HasSize n t → HasSize n u → HasSize n (xor_into t u)
unfolding xor_into
xor_into-HasSize n [] u ht hu = ht
xor_into-HasSize n (t ∷ ts) [] ht hu = ht
xor_into-HasSize zero (t ∷ ts) (u ∷ us) ht hu = absurd (omega (arith, ht.length_is))
xor_into-HasSize (suc n) (t ∷ ts) (u ∷ us) ht hu =
    let rest =
      xor_into-HasSize n ts us
        (record { length_is = omega (arith, ht.length_is); are_bytes = ht.are_bytes.1 })
        (record { length_is = omega (arith, hu.length_is); are_bytes = hu.are_bytes.1 }) in
    record {
      length_is = omega (arith, rest.length_is);
      are_bytes = (xor-lt 8 t u ht.are_bytes.0 hu.are_bytes.0, rest.are_bytes);
    }

pbkdf2_rounds-HasSize :
    (n : ℕ) (pw u t : Bytes) → HasSize 20 t → HasSize 20 (pbkdf2_rounds n pw u t)
unfolding pbkdf2_rounds
pbkdf2_rounds-HasSize zero pw u t ht = ht
pbkdf2_rounds-HasSize (suc n) pw u t ht =
    pbkdf2_rounds-HasSize n pw _ _ (xor_into-HasSize 20 t _ ht (hmac_sha1-HasSize pw u))

resize-HasSize : (n : ℕ) (v : Bytes) → IsBytes v → HasSize n (resize n v)
unfolding resize
resize-HasSize n v h = record {
  length_is = omega (
    arith,
    length-append (take n v) (replicate (n - length v) 0),
    length-take n v,
    length-replicate {A = ℕ} (n - length v) 0,
  );
  are_bytes =
      All-append _ (take n v) _ (All-take _ n v h) (All-replicate _ (n - length v) 0 (omega arith));
}

pbkdf2_block-HasSize :
    (pw salt : Bytes) (iterations i : ℕ) → HasSize 20 (pbkdf2_block pw salt iterations i)
unfolding pbkdf2_block
pbkdf2_block-HasSize pw salt iterations i =
    pbkdf2_rounds-HasSize (iterations - 1) pw _ _ (hmac_sha1-HasSize pw (salt ++ big_endian 4 i))

module _ (pw salt : Bytes) (iterations : ℕ) where
  -- The first k blocks from index i on: T_i || T_(i+1) || ...
  abbrev pub key_blocks : ℕ → ℕ → Bytes
  key_blocks zero i = []
  key_blocks (suc k) i = pbkdf2_block pw salt iterations i ++ key_blocks k ((i + 1) % 2 ^ 32)

  key_blocks-HasSize : (k i : ℕ) → HasSize (k * 20) (key_blocks k i)
  key_blocks-HasSize zero i = record { length_is = refl; are_bytes = tt }
  key_blocks-HasSize (suc k) i =
      let first = pbkdf2_block-HasSize pw salt iterations i in
      let rest = key_blocks-HasSize k ((i + 1) % 2 ^ 32) in
      record {
        length_is = omega (
          arith,
          length-append (pbkdf2_block pw salt iterations i) (key_blocks k ((i + 1) % 2 ^ 32)),
          first.length_is,
          rest.length_is,
        );
        are_bytes =
            All-append _ (pbkdf2_block pw salt iterations i) _ first.are_bytes rest.are_bytes;
      }

  -- With k blocks to go, and not fewer, the loop appends k blocks.
  pbkdf2_loop-key_blocks :
      (k fuel key_len i : ℕ) (out : Bytes)
      → k ≤ fuel
      → key_len ≤ length out + k * 20
      → length out + k * 20 < key_len + 20
      → pbkdf2_loop fuel pw salt iterations key_len i out ≡ out ++ key_blocks k i
  unfolding pbkdf2_loop
  pbkdf2_loop-key_blocks zero zero key_len i out hk lo hi = sym (append-nil out)
  pbkdf2_loop-key_blocks zero (suc fuel) key_len i out hk lo hi = ground (arith, append-nil out)
  pbkdf2_loop-key_blocks (suc k) zero key_len i out hk lo hi = absurd (omega arith)
  pbkdf2_loop-key_blocks (suc k) (suc fuel) key_len i out hk lo hi = ground (
    arith,
    pbkdf2_loop-key_blocks k fuel key_len ((i + 1) % 2 ^ 32)
        (out ++ pbkdf2_block pw salt iterations i),
    length-append out (pbkdf2_block pw salt iterations i),
    (pbkdf2_block-HasSize pw salt iterations i).length_is,
    append_assoc out (pbkdf2_block pw salt iterations i) (key_blocks k ((i + 1) % 2 ^ 32)),
  )

  -- PBKDF2 returns the first key_len bytes of the concatenated blocks T_1, T_2, ..., with as many
  -- blocks as are needed.
  pub pbkdf2_hmac_sha1-key_blocks :
      (key_len : ℕ)
      → pbkdf2_hmac_sha1 pw salt iterations key_len
        ≡ take key_len (key_blocks ((key_len + 19) / 20) 1)
  unfolding pbkdf2_hmac_sha1 resize
  pbkdf2_hmac_sha1-key_blocks key_len =
      rw
        (pbkdf2_loop-key_blocks ((key_len + 19) / 20) key_len key_len 1 [] (omega arith)
          (omega arith) (omega arith))
        (rw (enough, append-nil) refl)
    where
      enough : key_len - length (key_blocks ((key_len + 19) / 20) 1) ≡ 0
      enough = omega (arith, (key_blocks-HasSize ((key_len + 19) / 20) 1).length_is)

  pub pbkdf2_hmac_sha1-HasSize :
      (key_len : ℕ) → HasSize key_len (pbkdf2_hmac_sha1 pw salt iterations key_len)
  unfolding pbkdf2_hmac_sha1
  pbkdf2_hmac_sha1-HasSize key_len =
      rw
        (pbkdf2_loop-key_blocks ((key_len + 19) / 20) key_len key_len 1 [] (omega arith)
          (omega arith) (omega arith))
        (resize-HasSize key_len (key_blocks ((key_len + 19) / 20) 1)
          (key_blocks-HasSize ((key_len + 19) / 20) 1).are_bytes)
