-- ===== src/Crypto/Sha/Sha1.antt =====
-- Sha1 of include/ra_common/crypto/sha.hpp.
use mathlib.Core.List.{reverse}
use ra_common_cpp.Base.{
  ℕ, zero, suc, ◌+◌, ◌%◌, ◌^◌, List, [], ◌∷◌, bit_and, bit_or, bit_xor, Bytes, length, get_or, ltb,
  if◌then◌else◌,
}
use ra_common_cpp.Crypto.Sha.{rot_l, complement, pad, each_chunk, words_32, words_to_bytes}

-- The five words h[0..4], and a, b, c, d, e of the rounds.
pub record Words5 : Type 0 where
  pub a : ℕ
  pub b : ℕ
  pub c : ℕ
  pub d : ℕ
  pub e : ℕ

abbrev sha1_start : Words5
sha1_start = record {
  a = 0x67452301;
  b = 0xEFCDAB89;
  c = 0x98BADCFE;
  d = 0x10325476;
  e = 0xC3D2E1F0;
}

-- w[16..79]; the list is w so far, newest first.
sha1_expand : ℕ → List ℕ → List ℕ
unfolding rot_l
sha1_expand zero ws = ws
sha1_expand (suc n) ws =
    let w =
      rot_l 32
        (bit_xor (bit_xor (bit_xor (get_or ws 2 0) (get_or ws 7 0)) (get_or ws 13 0))
          (get_or ws 15 0))
        1 in
    sha1_expand n (w ∷ ws)

-- The function and the constant of round i.
sha1_mix : ℕ → Words5 → ℕ
sha1_mix i s =
    if ltb i 20
    then bit_or (bit_and s.b s.c) (bit_and (complement 32 s.b) s.d)
    else if ltb i 40
    then bit_xor (bit_xor s.b s.c) s.d
    else if ltb i 60
    then bit_or (bit_or (bit_and s.b s.c) (bit_and s.b s.d)) (bit_and s.c s.d)
    else bit_xor (bit_xor s.b s.c) s.d

sha1_constant : ℕ → ℕ
sha1_constant i =
    if ltb i 20
    then 0x5A827999
    else if ltb i 40
    then 0x6ED9EBA1
    else if ltb i 60
    then 0x8F1BBCDC
    else 0xCA62C1D6

sha1_round : ℕ → ℕ → Words5 → Words5
unfolding sha1_mix sha1_constant rot_l
sha1_round i w s =
    let temp = (rot_l 32 s.a 5 + sha1_mix i s + s.e + sha1_constant i + w) % 2 ^ 32 in
    record { a = temp; b = s.a; c = rot_l 32 s.b 30; d = s.c; e = s.d }

-- The rounds from i on, one for each word that is left.
sha1_rounds : ℕ → List ℕ → Words5 → Words5
sha1_rounds i [] s = s
sha1_rounds i (w ∷ ws) s = sha1_rounds (suc i) ws (sha1_round i w s)

-- One block: h[i] += ...
sha1_compress : Bytes → Words5 → Words5
unfolding sha1_expand sha1_round sha1_rounds words_32
sha1_compress chunk h =
    let s = sha1_rounds 0 (reverse (sha1_expand 64 (reverse (words_32 16 chunk)))) h in
    record {
      a = (h.a + s.a) % 2 ^ 32;
      b = (h.b + s.b) % 2 ^ 32;
      c = (h.c + s.c) % 2 ^ 32;
      d = (h.d + s.d) % 2 ^ 32;
      e = (h.e + s.e) % 2 ^ 32;
    }

-- h[0..4] after the last block.
unfoldable pub sha1_state : Bytes → Words5
unfolding sha1_compress pad each_chunk
sha1_state msg =
    let padded = pad 64 56 0 msg in each_chunk (length padded) 64 sha1_compress padded sha1_start

abbrev pub sha1_words : Words5 → List ℕ
sha1_words h = h.a ∷ h.b ∷ h.c ∷ h.d ∷ h.e ∷ []

unfoldable pub sha1 : Bytes → Bytes
sha1 msg = words_to_bytes 4 (sha1_words (sha1_state msg))
