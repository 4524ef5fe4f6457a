-- ===== src/Util/Bytes/RoundTrip.antt =====
-- Packing and unpacking undo each other, in both byte orders.
use ra_common_cpp.Base.{ℕ, ◌+◌, ◌*◌, ◌^◌, ◌<◌, ◌≡◌, refl, ap, ◌∙◌, [], ◌∷◌, bit_or, arith}
use ra_common_cpp.Base.Bits.{shl, or_disjoint}
use ra_common_cpp.Util.Bytes.{
  to_int32, to_uint32, pack_big_endian, unpack_big_endian, pack_little_endian, unpack_little_endian,
}

top_two :
    (a b : ℕ) → a < 256 → b < 256 → bit_or (shl 32 a 24) (shl 32 b 16) ≡ (a * 256 + b) * 2 ^ 16
top_two a b ha hb =
    let ea : shl 32 a 24 ≡ a * 2 ^ 24 = omega arith in
    let eb : shl 32 b 16 ≡ b * 65536 = omega arith in
    rw (ea, eb) (or_disjoint 24 a (b * 65536) (omega arith) ∙ omega arith)

top_three :
    (a b c : ℕ)
    → a < 256
    → b < 256
    → c < 256
    → bit_or (bit_or (shl 32 a 24) (shl 32 b 16)) (shl 32 c 8) ≡ ((a * 256 + b) * 256 + c) * 2 ^ 8
top_three a b c ha hb hc =
    let ec : shl 32 c 8 ≡ c * 256 = omega arith in
    rw (top_two a b ha hb, ec) (or_disjoint 16 (a * 256 + b) (c * 256) (omega arith) ∙ omega arith)

word :
    (a b c d : ℕ)
    → a < 256
    → b < 256
    → c < 256
    → d < 256
    → bit_or (bit_or (bit_or (shl 32 a 24) (shl 32 b 16)) (shl 32 c 8)) d
      ≡ ((a * 256 + b) * 256 + c) * 256 + d
word a b c d ha hb hc hd =
    rw (top_three a b c ha hb hc) (or_disjoint 8 ((a * 256 + b) * 256 + c) d hd)

to_uint32-to_int32 : (u : ℕ) → u < 2 ^ 32 → to_uint32 (to_int32 u) ≡ u
unfolding to_uint32 to_int32
to_uint32-to_int32 u h = ground arith

same_bytes :
    (a b c d x y z w : ℕ) → a ≡ x → b ≡ y → c ≡ z → d ≡ w → a ∷ b ∷ c ∷ d ∷ [] ≡ x ∷ y ∷ z ∷ w ∷ []
same_bytes a b c d x y z w ea eb ec ed = cc

big_word : ℕ → ℕ → ℕ → ℕ → ℕ
big_word a b c d = ((a * 256 + b) * 256 + c) * 256 + d

pack_big_endian_lem :
    (a b c d : ℕ)
    → a < 256
    → b < 256
    → c < 256
    → d < 256
    → to_uint32 (pack_big_endian a b c d) ≡ big_word a b c d
unfolding pack_big_endian big_word
pack_big_endian_lem a b c d ha hb hc hd =
    ap (λ u. to_uint32 (to_int32 u)) (word a b c d ha hb hc hd)
    ∙ to_uint32-to_int32 (((a * 256 + b) * 256 + c) * 256 + d) (omega arith)

unpack-pack_big_endian :
    (a b c d : ℕ)
    → a < 256
    → b < 256
    → c < 256
    → d < 256
    → unpack_big_endian (pack_big_endian a b c d) ≡ a ∷ b ∷ c ∷ d ∷ []
unfolding unpack_big_endian big_word
unpack-pack_big_endian a b c d ha hb hc hd =
    rw (pack_big_endian_lem a b c d ha hb hc hd)
      (same_bytes _ _ _ _ a b c d (omega arith) (omega arith) (omega arith) (omega arith))

-- Unpacking a number packed from four bytes gives back the bytes, in both byte orders, and
-- packing in one order is packing the reverse in the other.
pub unpack-pack :
    (a b c d : ℕ)
    → a < 256
    → b < 256
    → c < 256
    → d < 256
    → (unpack_big_endian (pack_big_endian a b c d) ≡ a ∷ b ∷ c ∷ d ∷ [])
      × ((unpack_little_endian (pack_little_endian a b c d) ≡ a ∷ b ∷ c ∷ d ∷ [])
          × (pack_little_endian a b c d ≡ pack_big_endian d c b a))
unfolding unpack_little_endian pack_little_endian pack_big_endian big_word
unpack-pack a b c d ha hb hc hd = (
  unpack-pack_big_endian a b c d ha hb hc hd,
  (
    rw (pack_big_endian_lem d c b a hd hc hb ha)
        (same_bytes _ _ _ _ a b c d (omega arith) (omega arith) (omega arith) (omega arith)),
    refl,
  ),
)
