-- ===== src/Crypto/HashUtil/Compare.antt =====
-- ConstantTimeEquals of hash_util.hpp against equality of vectors.
use ra_common_cpp.Base.{
  ℕ, ◌%◌, ◌≡◌, refl, sym, ◌∙◌, inl, inr, true, [], ◌∷◌, bit_or, bit_xor, Bytes, length, IsBytes,
  ◌==◌, list_eq, list_eq_iff, list_eq→eq, list_eq_refl, ==_iff, Bool-cases, arith,
}
use ra_common_cpp.Base.Bits.{zero-or, or-eq-zero, xor-eq-zero, xor_self, xor-lt}
use ra_common_cpp.Crypto.HashUtil.{gather_diff, constant_time_equals}

-- The bits gathered are all zero exactly if none was set and the bytes agree.
gather_diff_zero :
    (xs ys : Bytes) (diff : ℕ)
    → IsBytes xs
    → IsBytes ys
    → length xs ≡ length ys
    → gather_diff xs ys diff ≡ 0
    → (diff ≡ 0) × (xs ≡ ys)
unfolding gather_diff
gather_diff_zero [] [] diff hx hy e h = (h, refl)
gather_diff_zero [] (y ∷ ys) diff hx hy e h = absurd (omega arith)
gather_diff_zero (x ∷ xs) [] diff hx hy e h = absurd (omega arith)
gather_diff_zero (x ∷ xs) (y ∷ ys) diff hx hy e h =
    let (gathered, rest) =
      gather_diff_zero xs ys (bit_or diff (bit_xor x y % 256)) hx.1 hy.1 (omega arith) h in
    let (before, here) = or-eq-zero diff (bit_xor x y % 256) gathered in
    let small = xor-lt 8 x y hx.0 hy.0 in
    let same = xor-eq-zero x y (omega arith) in (before, rw (same, rest) refl)

gather_diff_self : (xs : Bytes) → gather_diff xs xs 0 ≡ 0
unfolding gather_diff
gather_diff_self [] = refl
gather_diff_self (x ∷ xs) =
    let none_set : bit_or 0 (bit_xor x x % 256) ≡ 0 = rw xor_self (zero-or _) in
    rw none_set (gather_diff_self xs)

constant_time_equals→eq :
    (xs ys : Bytes) → IsBytes xs → IsBytes ys → constant_time_equals xs ys ≡ true → xs ≡ ys
unfolding constant_time_equals
constant_time_equals→eq xs ys hx hy h = elim (Bool-cases (length xs == length ys)) [
  | inl same ↦
      (gather_diff_zero xs ys 0 hx hy (ground arith)
        ((==_iff (gather_diff xs ys 0) 0).0 (rw same at h))).1
  | inr differ ↦ ground arith
]

pub constant_time_equals_self : (xs : Bytes) → constant_time_equals xs xs ≡ true
unfolding constant_time_equals
constant_time_equals_self xs = ground (arith, gather_diff_self xs)

-- On byte vectors ConstantTimeEquals answers what the comparison of the vectors answers.
pub constant_time_equals-list_eq :
    (xs ys : Bytes) → IsBytes xs → IsBytes ys → constant_time_equals xs ys ≡ list_eq xs ys
constant_time_equals-list_eq xs ys hx hy = elim (Bool-cases (list_eq xs ys)) [
  | inl same ↦ rw (list_eq→eq xs ys same) (constant_time_equals_self ys ∙ sym (list_eq_refl ys))
  | inr differ ↦ elim (Bool-cases (constant_time_equals xs ys)) [
    | inl agrees ↦ cc ((list_eq_iff xs ys).1 (constant_time_equals→eq xs ys hx hy agrees))
    | inr disagrees ↦ disagrees ∙ sym differ
  ]
]
