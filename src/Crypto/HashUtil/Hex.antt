-- ===== src/Crypto/HashUtil/Hex.antt =====
-- FromHex undoes ToHex: the colons are removed and each pair of digits is read back.
use ra_common_cpp.Base.{
  ℕ, ◌%◌, ◌<◌, ◌≡◌, ◌≢◌, refl, ap, ◌∙◌, Bool, true, false, ◌&&◌, [], ◌∷◌, bit_and, Bytes, get_or,
  IsBytes, Lacks, ◌==◌, not, holds_below, holds_below→, Result, ok, err, arith,
}
use ra_common_cpp.Base.Bits.{shr}
use ra_common_cpp.Std.Numbers.{ℤ, pos, negsuc, stoi}
use ra_common_cpp.Crypto.HashUtil.{
  upper_hex, hex_digits, group_hex, to_hex, erase_colons, parse_pairs, from_hex,
}

abbrev high_digit : ℕ → ℕ
high_digit b = get_or upper_hex (shr b 4) 0

abbrev low_digit : ℕ → ℕ
low_digit b = get_or upper_hex (bit_and b 0xf) 0

abbrev pub reads : Result (ℤ × ℕ) → ℕ → Bool
reads (ok (pos n, count)) b = n == b && count == 2
reads (ok (negsuc n, count)) b = false
reads (err e) b = false

pub reads→eq : (r : Result (ℤ × ℕ)) (b : ℕ) → reads r b ≡ true → r ≡ ok (pos b, 2)
reads→eq (ok (pos n, count)) b h = ground arith
reads→eq (ok (negsuc n, count)) b h = cc
reads→eq (err e) b h = cc

digits_table :
    holds_below 256 (λ b.
      reads (stoi 16 (high_digit b ∷ low_digit b ∷ [])) b
      && (not (high_digit b == b':') && not (low_digit b == b':')))
    ≡ true
unfolding holds_below stoi
digits_table = refl

digits_at :
    (b : ℕ)
    → b < 256
    → (stoi 16 (high_digit b ∷ low_digit b ∷ []) ≡ ok (pos b, 2))
      × (high_digit b ≢ b':')
      × (low_digit b ≢ b':')
digits_at b h = ground (
  arith,
  holds_below→ 256 _ digits_table b h,
  reads→eq (stoi 16 (high_digit b ∷ low_digit b ∷ [])) b,
)

hex_digits-Lacks : (bytes : Bytes) → IsBytes bytes → Lacks b':' (hex_digits bytes)
unfolding hex_digits
hex_digits-Lacks [] h = tt
hex_digits-Lacks (b ∷ bs) h = let at = digits_at b h.0 in (at.1, (at.2, hex_digits-Lacks bs h.1))

erase_colons_lem : (hex : Bytes) → Lacks b':' hex → erase_colons hex ≡ hex
unfolding erase_colons
erase_colons_lem [] h = refl
erase_colons_lem (c ∷ hex) h = ground (arith, erase_colons_lem hex h.1)

erase_colons-group_hex :
    (first : Bool) (hex : Bytes) → Lacks b':' hex → erase_colons (group_hex first hex) ≡ hex
unfolding erase_colons group_hex
erase_colons-group_hex first [] h = refl
erase_colons-group_hex first (a ∷ b ∷ c ∷ d ∷ hex) h =
    ground (arith, erase_colons-group_hex false hex h.1.1.1.1)
erase_colons-group_hex first (a ∷ []) h = ground arith
erase_colons-group_hex first (a ∷ b ∷ []) h = ground arith
erase_colons-group_hex first (a ∷ b ∷ c ∷ []) h = ground arith

parse_pairs-hex_digits : (bytes : Bytes) → IsBytes bytes → parse_pairs (hex_digits bytes) ≡ ok bytes
unfolding parse_pairs hex_digits
parse_pairs-hex_digits [] h = refl
parse_pairs-hex_digits (b ∷ bs) h =
    rw ((digits_at b h.0).0, parse_pairs-hex_digits bs h.1)
      (ap (λ v. ok (v ∷ bs)) (let e : b % 256 ≡ b = omega arith in e))

-- FromHex gives back the bytes that ToHex was given, for any list of bytes.
pub from_hex-to_hex : (bytes : Bytes) → IsBytes bytes → from_hex (to_hex bytes) ≡ ok bytes
unfolding from_hex to_hex
from_hex-to_hex bytes h =
    ap parse_pairs (erase_colons-group_hex true (hex_digits bytes) (hex_digits-Lacks bytes h))
    ∙ parse_pairs-hex_digits bytes h
