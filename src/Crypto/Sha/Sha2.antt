-- ===== src/Crypto/Sha/Sha2.antt =====
-- Sha256 and Sha512 of include/ra_common/crypto/sha.hpp. The two are the same code over words of
-- 32 and of 64 bits, with their own shifts and constants, which are the fields of `Variant`.
use mathlib.Core.List.{reverse}
use ra_common_cpp.Base.{
  ℕ, zero, suc, ◌+◌, ◌-◌, ◌%◌, ◌^◌, List, [], ◌∷◌, bit_and, bit_xor, Bytes, length, get_or,
}
use ra_common_cpp.Base.Bits.{shr}
use ra_common_cpp.Crypto.Sha.{
  rot_r, complement, pad, each_chunk, words_32, words_64, words_to_bytes,
}

-- h[0..7], and a ... hh of the rounds.
pub record Words8 : Type 0 where
  pub a : ℕ
  pub b : ℕ
  pub c : ℕ
  pub d : ℕ
  pub e : ℕ
  pub f : ℕ
  pub g : ℕ
  pub hh : ℕ

-- The width, the rotations of s0 and s1 in the schedule with their last shifts, and those of the rounds.
pub record Variant : Type 0 where
  pub width : ℕ
  pub s0_first : ℕ
  pub s0_second : ℕ
  pub s0_shift : ℕ
  pub s1_first : ℕ
  pub s1_second : ℕ
  pub s1_shift : ℕ
  pub e_first : ℕ
  pub e_second : ℕ
  pub e_third : ℕ
  pub a_first : ℕ
  pub a_second : ℕ
  pub a_third : ℕ

abbrev variant_256 : Variant
variant_256 = record {
  width = 32;
  s0_first = 7;
  s0_second = 18;
  s0_shift = 3;
  s1_first = 17;
  s1_second = 19;
  s1_shift = 10;
  e_first = 6;
  e_second = 11;
  e_third = 25;
  a_first = 2;
  a_second = 13;
  a_third = 22;
}

abbrev variant_512 : Variant
variant_512 = record {
  width = 64;
  s0_first = 1;
  s0_second = 8;
  s0_shift = 7;
  s1_first = 19;
  s1_second = 61;
  s1_shift = 6;
  e_first = 14;
  e_second = 18;
  e_third = 41;
  a_first = 28;
  a_second = 34;
  a_third = 39;
}

sha256_round_constants : List ℕ
sha256_round_constants =
    0x428a2f98 ∷ 0x71374491 ∷ 0xb5c0fbcf ∷ 0xe9b5dba5 ∷ 0x3956c25b ∷ 0x59f111f1 ∷ 0x923f82a4
    ∷ 0xab1c5ed5 ∷ 0xd807aa98 ∷ 0x12835b01 ∷ 0x243185be ∷ 0x550c7dc3 ∷ 0x72be5d74 ∷ 0x80deb1fe
    ∷ 0x9bdc06a7 ∷ 0xc19bf174 ∷ 0xe49b69c1 ∷ 0xefbe4786 ∷ 0x0fc19dc6 ∷ 0x240ca1cc ∷ 0x2de92c6f
    ∷ 0x4a7484aa ∷ 0x5cb0a9dc ∷ 0x76f988da ∷ 0x983e5152 ∷ 0xa831c66d ∷ 0xb00327c8 ∷ 0xbf597fc7
    ∷ 0xc6e00bf3 ∷ 0xd5a79147 ∷ 0x06ca6351 ∷ 0x14292967 ∷ 0x27b70a85 ∷ 0x2e1b2138 ∷ 0x4d2c6dfc
    ∷ 0x53380d13 ∷ 0x650a7354 ∷ 0x766a0abb ∷ 0x81c2c92e ∷ 0x92722c85 ∷ 0xa2bfe8a1 ∷ 0xa81a664b
    ∷ 0xc24b8b70 ∷ 0xc76c51a3 ∷ 0xd192e819 ∷ 0xd6990624 ∷ 0xf40e3585 ∷ 0x106aa070 ∷ 0x19a4c116
    ∷ 0x1e376c08 ∷ 0x2748774c ∷ 0x34b0bcb5 ∷ 0x391c0cb3 ∷ 0x4ed8aa4a ∷ 0x5b9cca4f ∷ 0x682e6ff3
    ∷ 0x748f82ee ∷ 0x78a5636f ∷ 0x84c87814 ∷ 0x8cc70208 ∷ 0x90befffa ∷ 0xa4506ceb ∷ 0xbef9a3f7
    ∷ 0xc67178f2 ∷ []

sha512_round_constants : List ℕ
sha512_round_constants =
    0x428a2f98d728ae22 ∷ 0x7137449123ef65cd ∷ 0xb5c0fbcfec4d3b2f ∷ 0xe9b5dba58189dbbc
    ∷ 0x3956c25bf348b538 ∷ 0x59f111f1b605d019 ∷ 0x923f82a4af194f9b ∷ 0xab1c5ed5da6d8118
    ∷ 0xd807aa98a3030242 ∷ 0x12835b0145706fbe ∷ 0x243185be4ee4b28c ∷ 0x550c7dc3d5ffb4e2
    ∷ 0x72be5d74f27b896f ∷ 0x80deb1fe3b1696b1 ∷ 0x9bdc06a725c71235 ∷ 0xc19bf174cf692694
    ∷ 0xe49b69c19ef14ad2 ∷ 0xefbe4786384f25e3 ∷ 0x0fc19dc68b8cd5b5 ∷ 0x240ca1cc77ac9c65
    ∷ 0x2de92c6f592b0275 ∷ 0x4a7484aa6ea6e483 ∷ 0x5cb0a9dcbd41fbd4 ∷ 0x76f988da831153b5
    ∷ 0x983e5152ee66dfab ∷ 0xa831c66d2db43210 ∷ 0xb00327c898fb213f ∷ 0xbf597fc7beef0ee4
    ∷ 0xc6e00bf33da88fc2 ∷ 0xd5a79147930aa725 ∷ 0x06ca6351e003826f ∷ 0x142929670a0e6e70
    ∷ 0x27b70a8546d22ffc ∷ 0x2e1b21385c26c926 ∷ 0x4d2c6dfc5ac42aed ∷ 0x53380d139d95b3df
    ∷ 0x650a73548baf63de ∷ 0x766a0abb3c77b2a8 ∷ 0x81c2c92e47edaee6 ∷ 0x92722c851482353b
    ∷ 0xa2bfe8a14cf10364 ∷ 0xa81a664bbc423001 ∷ 0xc24b8b70d0f89791 ∷ 0xc76c51a30654be30
    ∷ 0xd192e819d6ef5218 ∷ 0xd69906245565a910 ∷ 0xf40e35855771202a ∷ 0x106aa07032bbd1b8
    ∷ 0x19a4c116b8d2d0c8 ∷ 0x1e376c085141ab53 ∷ 0x2748774cdf8eeb99 ∷ 0x34b0bcb5e19b48a8
    ∷ 0x391c0cb3c5c95a63 ∷ 0x4ed8aa4ae3418acb ∷ 0x5b9cca4f7763e373 ∷ 0x682e6ff3d6b2b8a3
    ∷ 0x748f82ee5defb2fc ∷ 0x78a5636f43172f60 ∷ 0x84c87814a1f0ab72 ∷ 0x8cc702081a6439ec
    ∷ 0x90befffa23631e28 ∷ 0xa4506cebde82bde9 ∷ 0xbef9a3f7b2c67915 ∷ 0xc67178f2e372532b
    ∷ 0xca273eceea26619c ∷ 0xd186b8c721c0c207 ∷ 0xeada7dd6cde0eb1e ∷ 0xf57d4f7fee6ed178
    ∷ 0x06f067aa72176fba ∷ 0x0a637dc5a2c898a6 ∷ 0x113f9804bef90dae ∷ 0x1b710b35131c471b
    ∷ 0x28db77f523047d84 ∷ 0x32caab7b40c72493 ∷ 0x3c9ebe0a15c9bebc ∷ 0x431d67c49c100d4c
    ∷ 0x4cc5d4becb3e42b6 ∷ 0x597f299cfc657e2a ∷ 0x5fcb6fab3ad6faec ∷ 0x6c44198c4a475817 ∷ []

abbrev sha256_start : Words8
sha256_start = record {
  a = 0x6a09e667;
  b = 0xbb67ae85;
  c = 0x3c6ef372;
  d = 0xa54ff53a;
  e = 0x510e527f;
  f = 0x9b05688c;
  g = 0x1f83d9ab;
  hh = 0x5be0cd19;
}

abbrev sha512_start : Words8
sha512_start = record {
  a = 0x6a09e667f3bcc908;
  b = 0xbb67ae8584caa73b;
  c = 0x3c6ef372fe94f82b;
  d = 0xa54ff53a5f1d36f1;
  e = 0x510e527fade682d1;
  f = 0x9b05688c2b3e6c1f;
  g = 0x1f83d9abfb41bd6b;
  hh = 0x5be0cd19137e2179;
}

-- w[16..]; the list is w so far, newest first.
sha2_expand : Variant → ℕ → List ℕ → List ℕ
unfolding rot_r
sha2_expand v zero ws = ws
sha2_expand v (suc n) ws =
    let x = get_or ws 14 0 in
    let y = get_or ws 1 0 in
    let s0 =
      bit_xor (bit_xor (rot_r v.width x v.s0_first) (rot_r v.width x v.s0_second))
        (shr x v.s0_shift) in
    let s1 =
      bit_xor (bit_xor (rot_r v.width y v.s1_first) (rot_r v.width y v.s1_second))
        (shr y v.s1_shift) in
    sha2_expand v n ((get_or ws 15 0 + s0 + get_or ws 6 0 + s1) % 2 ^ v.width ∷ ws)

-- One round, on the constant k[i] and the word w[i].
sha2_round : Variant → ℕ → ℕ → Words8 → Words8
unfolding rot_r
sha2_round v k w s =
    let rot = rot_r v.width in
    let m = 2 ^ v.width in
    let s1 = bit_xor (bit_xor (rot s.e v.e_first) (rot s.e v.e_second)) (rot s.e v.e_third) in
    let ch = bit_xor (bit_and s.e s.f) (bit_and (complement v.width s.e) s.g) in
    let temp1 = (s.hh + s1 + ch + k + w) % m in
    let s0 = bit_xor (bit_xor (rot s.a v.a_first) (rot s.a v.a_second)) (rot s.a v.a_third) in
    let maj = bit_xor (bit_xor (bit_and s.a s.b) (bit_and s.a s.c)) (bit_and s.b s.c) in
    let temp2 = (s0 + maj) % m in
    record {
      a = (temp1 + temp2) % m;
      b = s.a;
      c = s.b;
      d = s.c;
      e = (s.d + temp1) % m;
      f = s.e;
      g = s.f;
      hh = s.g;
    }

sha2_rounds : Variant → List ℕ → List ℕ → Words8 → Words8
sha2_rounds v [] ws s = s
sha2_rounds v (k ∷ ks) [] s = s
sha2_rounds v (k ∷ ks) (w ∷ ws) s = sha2_rounds v ks ws (sha2_round v k w s)

-- One block of 16 words, with the constants of the rounds.
sha2_compress : Variant → List ℕ → List ℕ → Words8 → Words8
unfolding sha2_expand sha2_round sha2_rounds
sha2_compress v ks words h =
    let m = 2 ^ v.width in
    let ws = reverse (sha2_expand v (length ks - 16) (reverse words)) in
    let s = sha2_rounds v ks ws h in
    record {
      a = (h.a + s.a) % m;
      b = (h.b + s.b) % m;
      c = (h.c + s.c) % m;
      d = (h.d + s.d) % m;
      e = (h.e + s.e) % m;
      f = (h.f + s.f) % m;
      g = (h.g + s.g) % m;
      hh = (h.hh + s.hh) % m;
    }

abbrev pub sha2_words : Words8 → List ℕ
sha2_words h = h.a ∷ h.b ∷ h.c ∷ h.d ∷ h.e ∷ h.f ∷ h.g ∷ h.hh ∷ []

-- h[0..7] after the last block.
unfoldable pub sha256_state : Bytes → Words8
unfolding sha2_compress sha256_round_constants pad each_chunk words_32
sha256_state msg =
    let padded = pad 64 56 0 msg in
    let compress =
      λ (chunk : Bytes). sha2_compress variant_256 sha256_round_constants (words_32 16 chunk) in
    each_chunk (length padded) 64 compress padded sha256_start

unfoldable pub sha512_state : Bytes → Words8
unfolding sha2_compress sha512_round_constants pad each_chunk words_64
sha512_state msg =
    let padded = pad 128 112 8 msg in
    let compress =
      λ (chunk : Bytes). sha2_compress variant_512 sha512_round_constants (words_64 16 chunk) in
    each_chunk (length padded) 128 compress padded sha512_start

unfoldable pub sha256 : Bytes → Bytes
sha256 msg = words_to_bytes 4 (sha2_words (sha256_state msg))

unfoldable pub sha512 : Bytes → Bytes
sha512 msg = words_to_bytes 8 (sha2_words (sha512_state msg))
