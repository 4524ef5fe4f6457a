-- ===== src/Std/Numbers/Decimal.antt =====
-- What std::to_string writes is what std::stoll reads.
use ra_common_cpp.Base.{
  ℕ, zero, suc, ◌+◌, ◌*◌, ◌/◌, ◌%◌, ◌^◌, ◌<◌, false, ◌≡◌, refl, ap, some, [], ◌∷◌, Bytes, Lacks,
  length, ltb, ◌==◌, ok, inl, inr, Bool-cases, arith,
}
use ra_common_cpp.Std.Numbers.{
  ℤ, pos, negsuc, digit_value, read_digits, decimal, to_string, signed_to_string, stoll, is_space,
  skip_spaces, read_sign, skip_prefix, to_int, with_count, stoi,
}

digit_value-digit : (d : ℕ) → d < 10 → digit_value 10 (b'0' + d) ≡ some d
unfolding digit_value
digit_value-digit d small = ground arith

read_digits-digit :
    (d : ℕ) (s : Bytes) (acc : ℕ)
    → d < 10
    → read_digits 10 ((b'0' + d) ∷ s) acc ≡ read_digits 10 s (acc * 10 + d)
unfolding read_digits
read_digits-digit d s acc small = rw (digit_value-digit d small, read_digits) refl

digits_value : (n : ℕ) → n / 10 * 10 + n % 10 ≡ n
digits_value n = omega arith

read_digits-decimal :
    (fuel n : ℕ) (out : Bytes)
    → n < 10 ^ fuel
    → read_digits 10 (decimal fuel n out) 0 ≡ read_digits 10 out n
unfolding decimal
read_digits-decimal zero n out small = let e : n ≡ 0 = omega arith in rw e refl
read_digits-decimal (suc fuel) n out small = elim (Bool-cases (ltb n 10)) [
  | inl e ↦
      rw (e, read_digits-digit (n % 10) out 0 (omega arith))
        (ap (read_digits 10 out) (ground arith))
  | inr e ↦
      rw
        (
          e,
          read_digits-decimal fuel (n / 10) ((b'0' + n % 10) ∷ out) (omega arith),
          read_digits-digit (n % 10) out (n / 10) (omega arith),
        )
        (ap (read_digits 10 out) (digits_value n))
]

data Digits : Bytes → Type 0 where
  digits : (d : ℕ) (s : Bytes) → d < 10 → Digits ((b'0' + d) ∷ s)

decimal-Digits : (fuel n : ℕ) (out : Bytes) → Digits (decimal (suc fuel) n out)
unfolding decimal
decimal-Digits zero n out = elim (Bool-cases (ltb n 10)) [
  | inl e ↦ rw e (digits (n % 10) out (omega arith))
  | inr e ↦ rw e (digits (n % 10) out (omega arith))
]
decimal-Digits (suc fuel) n out = elim (Bool-cases (ltb n 10)) [
  | inl e ↦ rw e (digits (n % 10) out (omega arith))
  | inr e ↦ rw e (decimal-Digits fuel (n / 10) ((b'0' + n % 10) ∷ out))
]

skip_spaces-Digits : (s : Bytes) → Digits s → skip_spaces s ≡ s
unfolding skip_spaces is_space
skip_spaces-Digits _ (digits d s small) = ground arith

read_sign-Digits : (s : Bytes) → Digits s → read_sign s ≡ (false, s)
unfolding read_sign
read_sign-Digits _ (digits d s small) = ground arith

unread-Digits : (s : Bytes) → Digits s → (0 == length s) ≡ false
unread-Digits _ (digits d s small) = ground arith

abbrev pub IsInt64 : ℤ → Type 0
IsInt64 (pos n) = n < 2 ^ 63
IsInt64 (negsuc n) = n < 2 ^ 63

to_string-Digits : (n : ℕ) → Digits (to_string n)
unfolding to_string
to_string-Digits n = decimal-Digits 63 n []

read_digits-to_string : (n : ℕ) → n < 10 ^ 64 → read_digits 10 (to_string n) 0 ≡ (n, [])
unfolding to_string read_digits
read_digits-to_string n small = rw (read_digits-decimal 64 n [] small) refl

stoll-Digits :
    (s : Bytes) (n : ℕ)
    → Digits s
    → read_digits 10 s 0 ≡ (n, [])
    → n < 2 ^ 63
    → stoll s ≡ ok (pos n)
unfolding stoll
stoll-Digits s n d reads small =
    rw (skip_spaces-Digits s d, read_sign-Digits s d, reads, unread-Digits s d) (ground arith)

stoll-minus_Digits :
    (s : Bytes) (n : ℕ)
    → Digits s
    → read_digits 10 s 0 ≡ (suc n, [])
    → n < 2 ^ 63
    → stoll (b'-' ∷ s) ≡ ok (negsuc n)
unfolding stoll
stoll-minus_Digits s n d reads small = rw (reads, unread-Digits s d) (ground arith)

-- What std::to_string writes of an int64_t is what std::stoll reads.
pub stoll-signed_to_string : (z : ℤ) → IsInt64 z → stoll (signed_to_string z) ≡ ok z
unfolding signed_to_string
stoll-signed_to_string (pos n) small =
    stoll-Digits (to_string n) n (to_string-Digits n) (read_digits-to_string n (omega arith)) small
stoll-signed_to_string (negsuc n) small =
    stoll-minus_Digits (to_string (suc n)) n (to_string-Digits (suc n))
      (read_digits-to_string (suc n) (omega arith)) small

abbrev pub IsInt32 : ℤ → Type 0
IsInt32 (pos n) = n < 2 ^ 31
IsInt32 (negsuc n) = n < 2 ^ 31

skip_prefix_ten : (s : Bytes) → skip_prefix 10 s ≡ s
unfolding skip_prefix
skip_prefix_ten [] = refl
skip_prefix_ten (a ∷ []) = refl
skip_prefix_ten (a ∷ b ∷ []) = refl
skip_prefix_ten (a ∷ b ∷ c ∷ s) = refl

stoi-Digits :
    (s : Bytes) (n : ℕ)
    → Digits s
    → read_digits 10 s 0 ≡ (n, [])
    → n < 2 ^ 31
    → stoi 10 s ≡ ok (pos n, length s)
unfolding stoi to_int with_count
stoi-Digits s n d reads small =
    rw (skip_spaces-Digits s d, read_sign-Digits s d, skip_prefix_ten s, reads, unread-Digits s d)
      (ground arith)

stoi-minus_Digits :
    (s : Bytes) (n : ℕ)
    → Digits s
    → read_digits 10 s 0 ≡ (suc n, [])
    → n < 2 ^ 31
    → stoi 10 (b'-' ∷ s) ≡ ok (negsuc n, suc (length s))
unfolding stoi to_int with_count
stoi-minus_Digits s n d reads small =
    rw (skip_prefix_ten s, reads, unread-Digits s d) (ground arith)

-- What std::to_string writes of an int is what std::stoi reads, to its end.
pub stoi-signed_to_string :
    (z : ℤ) → IsInt32 z → stoi 10 (signed_to_string z) ≡ ok (z, length (signed_to_string z))
unfolding signed_to_string
stoi-signed_to_string (pos n) small =
    stoi-Digits (to_string n) n (to_string-Digits n) (read_digits-to_string n (omega arith)) small
stoi-signed_to_string (negsuc n) small =
    stoi-minus_Digits (to_string (suc n)) n (to_string-Digits (suc n))
      (read_digits-to_string (suc n) (omega arith)) small

-- Two digits.
pub stoi-two_digits :
    (d e : ℕ) → d < 10 → e < 10 → stoi 10 ((b'0' + d) ∷ (b'0' + e) ∷ []) ≡ ok (pos (d * 10 + e), 2)
unfolding read_digits
stoi-two_digits d e hd he =
    stoi-Digits ((b'0' + d) ∷ (b'0' + e) ∷ []) (d * 10 + e) (digits d ((b'0' + e) ∷ []) hd)
      (rw (read_digits-digit d ((b'0' + e) ∷ []) 0 hd, read_digits-digit e [] (0 * 10 + d) he)
        (ground arith))
      (omega arith)

-- Only digits are written, and a minus.
decimal-Lacks : (c fuel n : ℕ) (out : Bytes) → b'9' < c → Lacks c out → Lacks c (decimal fuel n out)
unfolding decimal
decimal-Lacks c zero n out above h = h
decimal-Lacks c (suc fuel) n out above h =
    ground (arith, decimal-Lacks c fuel (n / 10) ((b'0' + n % 10) ∷ out))

pub signed_to_string-Lacks : (c : ℕ) (z : ℤ) → b'9' < c → Lacks c (signed_to_string z)
unfolding signed_to_string to_string
signed_to_string-Lacks c (pos n) above = decimal-Lacks c 64 n [] above tt
signed_to_string-Lacks c (negsuc n) above = (omega arith, decimal-Lacks c 64 (suc n) [] above tt)
