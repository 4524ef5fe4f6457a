-- ===== src/Crypto/HashCash/Bits.antt =====
-- LeadingZeroBits of include/ra_common/crypto/hash_cash.hpp: the strength of a proof of work.
use ra_common_cpp.Base.{
  ℕ, zero, suc, ◌+◌, ◌-◌, ◌*◌, ◌/◌, ◌^◌, ◌≤◌, ◌<◌, ◌≡◌, ◌↔◌, refl, ap, true, [], ◌∷◌, Bytes, length,
  ltb, leb, ◌==◌, if◌then◌else◌, IsBytes, holds_below, holds_below→, arith,
}
use native.Mathlib.Nat.{pow-suc, one-le-pow}
use native.Mathlib.Decide.{dec_lt}

-- std::bit_width of an unsigned number that has at most `fuel` bits.
unfoldable pub bit_width : ℕ → ℕ → ℕ
bit_width zero n = 0
bit_width (suc fuel) n = let rest = bit_width fuel (n / 2) in if n == 0 then 0 else rest + 1

unfoldable pub leading_zero_bits : Bytes → ℕ
unfolding bit_width
leading_zero_bits [] = 0
leading_zero_bits (byte ∷ rest) =
    let more = leading_zero_bits rest in if byte == 0 then 8 + more else 8 - bit_width 8 byte

-- The number that the bytes write, highest byte first.
abbrev pub number_of : Bytes → ℕ
number_of [] = 0
number_of (byte ∷ rest) = byte * 2 ^ (8 * length rest) + number_of rest

pow-add : (a b : ℕ) → 2 ^ (a + b) ≡ 2 ^ a * 2 ^ b
pow-add zero b = let e : 0 + b ≡ b = omega arith in rw e (omega arith)
pow-add (suc a) b =
    let e : suc a + b ≡ suc (a + b) = omega arith in
    rw e (omega (arith, pow-suc 2 (a + b), ap (λ (t : ℕ). t * 2 ^ b) (pow-suc 2 a), pow-add a b))

mul_le : (m k p : ℕ) → m ≤ k → m * p ≤ k * p
mul_le m k p h = let e : m + (k - m) ≡ k = omega arith in omega (arith, ap (λ (t : ℕ). t * p) e)

pow_mono : (i j : ℕ) → i ≤ j → 2 ^ i ≤ 2 ^ j
pow_mono i j h =
    let e : j ≡ (j - i) + i = omega arith in
    rw e (
      omega (
        arith,
        pow-add (j - i) i,
        mul_le 1 (2 ^ (j - i)) (2 ^ i) (one-le-pow (j - i) 2 (omega arith)),
      ))

one_byte_more : (n : ℕ) → 2 ^ (8 * suc n) ≡ 256 * 2 ^ (8 * n)
one_byte_more n = let e : 8 * suc n ≡ 8 + 8 * n = omega arith in rw e (pow-add 8 (8 * n))

number_of-lt : (bytes : Bytes) → IsBytes bytes → number_of bytes < 2 ^ (8 * length bytes)
number_of-lt [] h = omega arith
number_of-lt (byte ∷ rest) h = omega (
  arith,
  one_byte_more (length rest),
  mul_le byte 255 (2 ^ (8 * length rest)) (omega arith),
  number_of-lt rest h.1,
)

-- The highest digit decides.
high_digit : (b q p r : ℕ) → r < p → (b * p + r < q * p) ↔ (b < q)
high_digit b q p r small = (
  λ h. elim (dec_lt b q) [
    | yes lt ↦ lt
    | no ge ↦ absurd (omega (arith, mul_le q b p (omega arith)))
  ],
  λ lt. omega (arith, mul_le (suc b) q p (omega arith)),
)

abbrev byte_zeros : ℕ → ℕ
byte_zeros byte = if byte == 0 then 8 else 8 - bit_width 8 byte

byte_table :
    holds_below 256 (λ b.
      holds_below 9
        (λ n. if leb n (byte_zeros b) then ltb b (2 ^ (8 - n)) else leb (2 ^ (8 - n)) b))
    ≡ true
unfolding holds_below bit_width
byte_table = refl

byte_zeros_at : (b n : ℕ) → b < 256 → n < 9 → (n ≤ byte_zeros b) ↔ (b < 2 ^ (8 - n))
byte_zeros_at b n hb hn = ground (arith, holds_below→ 9 _ (holds_below→ 256 _ byte_table b hb) n hn)

-- A byte that is not 0 has a bit, so its own zeros are counted, and what follows is not.
byte_zeros-lt : (b : ℕ) → 0 < b → byte_zeros b < 8
unfolding bit_width
byte_zeros-lt b h = ground arith

leading_zero_bits-zero :
    (b : ℕ) (rest : Bytes) → b ≡ 0 → leading_zero_bits (b ∷ rest) ≡ 8 + leading_zero_bits rest
unfolding leading_zero_bits
leading_zero_bits-zero b rest h = ground arith

leading_zero_bits-pos : (b : ℕ) (rest : Bytes) → 0 < b → leading_zero_bits (b ∷ rest) ≡ byte_zeros b
unfolding leading_zero_bits
leading_zero_bits-pos b rest h = ground arith

module _ (b : ℕ) (rest : Bytes) (n : ℕ) (hb : b < 256) (hr : IsBytes rest) where
  -- Few bits: the first byte has them, or has not.
  in_first_byte :
      n < 9
      → (number_of (b ∷ rest) < 2 ^ (8 * suc (length rest) - n))
        ↔ (n ≤ leading_zero_bits (b ∷ rest))
  in_first_byte hn =
      let e : 8 * suc (length rest) - n ≡ (8 - n) + 8 * length rest = omega arith in
      let split =
        high_digit b (2 ^ (8 - n)) (2 ^ (8 * length rest)) (number_of rest)
          (number_of-lt rest hr) in
      let table = byte_zeros_at b n hb hn in
      elim (dec_lt 0 b) [
        | yes pos ↦
            rw (e, pow-add (8 - n) (8 * length rest), leading_zero_bits-pos b rest pos)
              (λ h. table.1 (split.0 h), λ h. split.1 (table.0 h))
        | no z ↦
            rw (leading_zero_bits-zero b rest (omega arith), e, pow-add (8 - n) (8 * length rest))
              (λ h. omega arith, λ h. split.1 (omega (arith, one-le-pow (8 - n) 2)))
      ]

-- For bytes and an n of at most their number of bits, LeadingZeroBits is at least n just when the
-- number that the bytes write, highest first, is below 2 to the power of the other bits.
pub leading_zero_bits_lem :
    (bytes : Bytes) (n : ℕ)
    → IsBytes bytes
    → n ≤ 8 * length bytes
    → (number_of bytes < 2 ^ (8 * length bytes - n)) ↔ (n ≤ leading_zero_bits bytes)
leading_zero_bits_lem [] n h small = (λ lt. omega arith, λ le. omega (arith, one-le-pow (0 - n) 2))
leading_zero_bits_lem (b ∷ rest) n h small = elim (dec_lt n 9) [
  | yes few ↦ in_first_byte b rest n h.0 h.1 few
  | no many ↦
      let e : 8 * suc (length rest) - n ≡ 8 * length rest - (n - 8) = omega arith in
      let ih = leading_zero_bits_lem rest (n - 8) h.1 (omega arith) in
      elim (dec_lt 0 b) [
        | no z ↦
            let none_here : b * 2 ^ (8 * length rest) ≡ 0 * 2 ^ (8 * length rest) =
              ap (λ (t : ℕ). t * 2 ^ (8 * length rest)) (let z' : b ≡ 0 = omega arith in z') in
            rw (leading_zero_bits-zero b rest (omega arith), e)
              (λ lt. omega (arith, ih.0 (omega arith)), λ le. omega (arith, ih.1 (omega arith)))
        | yes pos ↦
            rw (leading_zero_bits-pos b rest pos, e)
              (
                λ lt. absurd (
                    omega (
                      arith,
                      mul_le 1 b (2 ^ (8 * length rest)) pos,
                      pow_mono (8 * length rest - (n - 8)) (8 * length rest) (omega arith),
                    )),
                λ le. absurd (omega (arith, byte_zeros-lt b pos)),
              )
      ]
]
