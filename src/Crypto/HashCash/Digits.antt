-- ===== src/Crypto/HashCash/Digits.antt =====
-- The hexadecimal digits that class HashCash writes.
use ra_common_cpp.Base.{ℕ, zero, suc, ◌/◌, ◌%◌, ◌≢◌, [], ◌∷◌, Bytes, get_or, Lacks, arith}
use ra_common_cpp.Crypto.HashCash.Work.{lower_digits, hex_bytes, hex_number}

get_or-Lacks : (c : ℕ) (xs : Bytes) (i : ℕ) → Lacks c xs → 0 ≢ c → get_or xs i 0 ≢ c
get_or-Lacks c [] i h other = other
get_or-Lacks c (x ∷ xs) zero h other = h.0
get_or-Lacks c (x ∷ xs) (suc i) h other = get_or-Lacks c xs i h.1 other

digit-Lacks : (i : ℕ) → get_or lower_digits i 0 ≢ b':'
digit-Lacks i = get_or-Lacks b':' lower_digits i (omega arith) (omega arith)

pub hex_bytes-Lacks : (bytes : Bytes) → Lacks b':' (hex_bytes bytes)
unfolding hex_bytes
hex_bytes-Lacks [] = tt
hex_bytes-Lacks (b ∷ bytes) =
    (digit-Lacks (b / 16 % 16), (digit-Lacks (b % 16), hex_bytes-Lacks bytes))

pub hex_number-Lacks :
    (fuel n : ℕ) (out : Bytes) → Lacks b':' out → Lacks b':' (hex_number fuel n out)
unfolding hex_number
hex_number-Lacks zero n out h = h
hex_number-Lacks (suc fuel) n out h = ground (
  arith,
  digit-Lacks (n % 16),
  hex_number-Lacks fuel (n / 16) (get_or lower_digits (n % 16) 0 ∷ out),
)
