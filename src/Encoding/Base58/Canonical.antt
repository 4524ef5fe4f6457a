-- ===== src/Encoding/Base58/Canonical.antt =====
-- Digit vectors with no digit 0 at their end.
use ra_common_cpp.Base.{
  ℕ, zero, suc, ◌+◌, ◌*◌, ◌/◌, ◌≤◌, ◌<◌, ◌≡◌, refl, ap₂, inl, inr, Bool-cases, List, [], ◌∷◌, Bytes,
  ◌==◌, arith,
}
use ra_common_cpp.Base.Bits.{and_low}
use ra_common_cpp.Encoding.Base58.{grow, push_byte, base58_digits, grow_bytes, push_digit}
use ra_common_cpp.Encoding.Base58.Values.{
  value, value-grow, value-push_byte, value-grow_bytes, value-push_digit,
}

-- Every digit is below the base, and what is left of the vector from any digit on is not 0.
abbrev pub IsCanonical : ℕ → List ℕ → Type 0
IsCanonical base [] = Unit {0}
IsCanonical base (d ∷ ds) = (d < base) × (0 < value base (d ∷ ds)) × IsCanonical base ds

-- Base 256 is that of the bytes.
pub canonical_unique :
    (xs ys : Bytes)
    → IsCanonical 256 xs
    → IsCanonical 256 ys
    → value 256 xs ≡ value 256 ys
    → xs ≡ ys
canonical_unique [] [] hx hy e = refl
canonical_unique [] (y ∷ ys) hx hy e = absurd (omega (arith, hy.1))
canonical_unique (x ∷ xs) [] hx hy e = absurd (omega (arith, hx.1))
canonical_unique (x ∷ xs) (y ∷ ys) hx hy e =
    ap₂ (◌∷◌) (omega arith) (canonical_unique xs ys hx.2 hy.2 (omega arith))

grow-IsCanonical : (fuel carry : ℕ) → carry ≤ fuel → IsCanonical 58 (grow fuel carry)
unfolding grow
grow-IsCanonical zero carry h = tt
grow-IsCanonical (suc fuel) carry h = elim (Bool-cases (carry == 0)) [
  | inl e ↦ rw e tt
  | inr e ↦ rw e (
    omega arith,
    ground (arith, value-grow fuel (carry / 58)),
    grow-IsCanonical fuel (carry / 58) (omega arith),
  )
]

push_byte-IsCanonical :
    (digits : List ℕ) (carry : ℕ) → IsCanonical 58 digits → IsCanonical 58 (push_byte digits carry)
unfolding push_byte
push_byte-IsCanonical [] carry h = grow-IsCanonical carry carry (omega arith)
push_byte-IsCanonical (d ∷ ds) carry h = (
  omega arith,
  omega (arith, value-push_byte ds ((d * 256 + carry) / 58), h.1),
  push_byte-IsCanonical ds ((d * 256 + carry) / 58) h.2,
)

pub base58_digits-IsCanonical :
    (digits : List ℕ) (bytes : Bytes)
    → IsCanonical 58 digits
    → IsCanonical 58 (base58_digits digits bytes)
unfolding base58_digits
base58_digits-IsCanonical digits [] h = h
base58_digits-IsCanonical digits (b ∷ bs) h =
    base58_digits-IsCanonical (push_byte digits b) bs (push_byte-IsCanonical digits b h)

grow_bytes-IsCanonical : (fuel carry : ℕ) → carry ≤ fuel → IsCanonical 256 (grow_bytes fuel carry)
unfolding grow_bytes
grow_bytes-IsCanonical zero carry h = tt
grow_bytes-IsCanonical (suc fuel) carry h = elim (Bool-cases (carry == 0)) [
  | inl e ↦ rw e tt
  | inr e ↦ rw e (
    omega (arith, and_low 8 carry),
    ground (arith, value-grow_bytes fuel (carry / 256), and_low 8 carry),
    grow_bytes-IsCanonical fuel (carry / 256) (omega arith),
  )
]

pub push_digit-IsCanonical :
    (bytes : Bytes) (carry : ℕ) → IsCanonical 256 bytes → IsCanonical 256 (push_digit bytes carry)
unfolding push_digit
push_digit-IsCanonical [] carry h = grow_bytes-IsCanonical carry carry (omega arith)
push_digit-IsCanonical (b ∷ bs) carry h = (
  omega (arith, and_low 8 (b * 58 + carry)),
  omega (arith, value-push_digit bs ((b * 58 + carry) / 256), and_low 8 (b * 58 + carry), h.1),
  push_digit-IsCanonical bs ((b * 58 + carry) / 256) h.2,
)
