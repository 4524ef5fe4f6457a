-- ===== src/Encoding/Base58/Values.antt =====
-- The numbers that the digit vectors of Base58Encode and Base58Decode stand for.
use ra_common_cpp.Base.{
  ℕ, zero, suc, ◌+◌, ◌*◌, ◌/◌, ◌≤◌, ◌<◌, ◌≡◌, refl, ap, ◌∙◌, inl, inr, Bool-cases, List, [], ◌∷◌,
  Bytes, All, ◌==◌, arith,
}
use ra_common_cpp.Base.Bits.{and_low}
use ra_common_cpp.Encoding.Base58.{grow, push_byte, base58_digits, grow_bytes, push_digit}

-- Digits, the least significant first.
abbrev pub value : ℕ → List ℕ → ℕ
value base [] = 0
value base (d ∷ ds) = d + base * value base ds

-- Bytes or digits read on from a number, the most significant first.
abbrev pub number_from : ℕ → ℕ → List ℕ → ℕ
number_from base n [] = n
number_from base n (d ∷ ds) = number_from base (n * base + d) ds

pub value-grow : (fuel carry : ℕ) → carry ≤ fuel → value 58 (grow fuel carry) ≡ carry
unfolding grow
value-grow zero carry h = omega arith
value-grow (suc fuel) carry h = elim (Bool-cases (carry == 0)) [
  | inl e ↦ rw e (ground arith)
  | inr e ↦ rw e (ground (arith, value-grow fuel (carry / 58)))
]

pub value-push_byte :
    (digits : List ℕ) (carry : ℕ)
    → value 58 (push_byte digits carry) ≡ value 58 digits * 256 + carry
unfolding push_byte
value-push_byte [] carry = value-grow carry carry (omega arith) ∙ omega arith
value-push_byte (d ∷ ds) carry = omega (arith, value-push_byte ds ((d * 256 + carry) / 58))

-- Read on from some digits, the digits are those of the number read on from theirs.
pub value-base58_digits :
    (digits : List ℕ) (bytes : Bytes)
    → value 58 (base58_digits digits bytes) ≡ number_from 256 (value 58 digits) bytes
unfolding base58_digits
value-base58_digits digits [] = refl
value-base58_digits digits (b ∷ bs) =
    value-base58_digits (push_byte digits b) bs
    ∙ ap (λ n. number_from 256 n bs) (value-push_byte digits b)

grow-All : (fuel carry : ℕ) → All (λ d. d < 58) (grow fuel carry)
unfolding grow
grow-All zero carry = tt
grow-All (suc fuel) carry = elim (Bool-cases (carry == 0)) [
  | inl e ↦ rw e tt
  | inr e ↦ rw e (omega arith, grow-All fuel (carry / 58))
]

push_byte-All : (digits : List ℕ) (carry : ℕ) → All (λ d. d < 58) (push_byte digits carry)
unfolding push_byte
push_byte-All [] carry = grow-All carry carry
push_byte-All (d ∷ ds) carry = (omega arith, push_byte-All ds ((d * 256 + carry) / 58))

base58_digits-All :
    (digits : List ℕ) (bytes : Bytes)
    → All (λ d. d < 58) digits
    → All (λ d. d < 58) (base58_digits digits bytes)
unfolding base58_digits
base58_digits-All digits [] h = h
base58_digits-All digits (b ∷ bs) h =
    base58_digits-All (push_byte digits b) bs (push_byte-All digits b)

-- The digits that Base58Encode writes are below 58, and stand in base 58 for the number that the
-- bytes stand for in base 256.
pub base58_digits_lem :
    (bytes : Bytes)
    → (value 58 (base58_digits [] bytes) ≡ number_from 256 0 bytes)
      × All (λ d. d < 58) (base58_digits [] bytes)
base58_digits_lem bytes = (value-base58_digits [] bytes, base58_digits-All [] bytes tt)

pub value-grow_bytes : (fuel carry : ℕ) → carry ≤ fuel → value 256 (grow_bytes fuel carry) ≡ carry
unfolding grow_bytes
value-grow_bytes zero carry h = omega arith
value-grow_bytes (suc fuel) carry h = elim (Bool-cases (carry == 0)) [
  | inl e ↦ rw e (ground arith)
  | inr e ↦ rw e (ground (arith, value-grow_bytes fuel (carry / 256), and_low 8 carry))
]

pub value-push_digit :
    (bytes : Bytes) (carry : ℕ) → value 256 (push_digit bytes carry) ≡ value 256 bytes * 58 + carry
unfolding push_digit
value-push_digit [] carry = value-grow_bytes carry carry (omega arith) ∙ omega arith
value-push_digit (b ∷ bs) carry =
    omega (arith, value-push_digit bs ((b * 58 + carry) / 256), and_low 8 (b * 58 + carry))
