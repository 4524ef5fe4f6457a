-- ===== src/Util/Version/Order.antt =====
-- The answers of VersionCompare, and exchanged texts.
use ra_common_cpp.Base.{
  ℕ, zero, suc, ◌+◌, ◌≤◌, ◌≡◌, ◌≢◌, refl, ap₂, ◌∙◌, inl, inr, true, false, [], ◌∷◌, Bytes, length,
  list_eq, list_eq_iff, list_eq_refl, list_eq→eq, Bool-cases, arith,
}
use ra_common_cpp.Util.Version.Digits.{digits, IsDefined, version_compare-IsDefined}
use ra_common_cpp.Util.Version.{
  Parsed, number, no_digits, overflow, Outcome, less, equal, greater, undefined, out_of_fuel,
  segment, parse_long, take_number, next_number, unless_equal, compare_parsed, compare_loop,
  version_compare,
}

segment-shorter : (c : ℕ) (s : Bytes) → length (segment (c ∷ s)).1 ≤ length s
unfolding segment
segment-shorter c [] = ground arith
segment-shorter c (d ∷ s) = ground (arith, segment-shorter d s)

take_number-shorter :
    (p : Parsed) (behind : Bytes) (rest : Parsed × Bytes) (n : ℕ)
    → length behind ≤ n
    → length rest.1 ≤ n
    → length (take_number p behind rest).1 ≤ n
unfolding take_number
take_number-shorter (number m) behind rest n hb hr = hb
take_number-shorter no_digits behind rest n hb hr = hr
take_number-shorter overflow behind rest n hb hr = hb

next_number-no_longer : (fuel : ℕ) (s : Bytes) → length (next_number fuel s).1 ≤ length s
unfolding next_number
next_number-no_longer zero [] = omega arith
next_number-no_longer (suc fuel) [] = omega arith
next_number-no_longer zero (c ∷ s) = omega arith
next_number-no_longer (suc fuel) (c ∷ s) =
    let short = segment-shorter c s in
    let rest = next_number-no_longer fuel (segment (c ∷ s)).1 in
    take_number-shorter (parse_long (segment (c ∷ s)).0 0 false) _ _ (suc (length s))
      (omega (arith, short)) (omega (arith, short, rest))

next_number-shorter :
    (fuel c : ℕ) (s : Bytes) → length (next_number (suc fuel) (c ∷ s)).1 ≤ length s
unfolding next_number
next_number-shorter fuel c s =
    let short = segment-shorter c s in
    let rest = next_number-no_longer fuel (segment (c ∷ s)).1 in
    take_number-shorter (parse_long (segment (c ∷ s)).0 0 false) _ _ (length s) short
      (omega (arith, short, rest))

-- The answer to the exchanged question.
abbrev pub flip : Outcome → Outcome
flip less = greater
flip greater = less
flip equal = equal
flip undefined = undefined
flip out_of_fuel = out_of_fuel

abbrev pub IsAnswer : Outcome → Type 0
IsAnswer o = o ≢ out_of_fuel

compare_parsed-flip : (l r : Parsed) → compare_parsed r l ≡ flip (compare_parsed l r)
unfolding compare_parsed
compare_parsed-flip overflow overflow = refl
compare_parsed-flip overflow no_digits = refl
compare_parsed-flip overflow (number r) = refl
compare_parsed-flip no_digits overflow = refl
compare_parsed-flip no_digits no_digits = refl
compare_parsed-flip no_digits (number r) = refl
compare_parsed-flip (number l) overflow = refl
compare_parsed-flip (number l) no_digits = refl
compare_parsed-flip (number l) (number r) = ground arith

unless_equal-flip :
    (o again : Outcome) → unless_equal (flip o) (flip again) ≡ flip (unless_equal o again)
unfolding unless_equal
unless_equal-flip less again = refl
unless_equal-flip equal again = refl
unless_equal-flip greater again = refl
unless_equal-flip undefined again = refl
unless_equal-flip out_of_fuel again = refl

compare_loop-flip : (fuel : ℕ) (l r : Bytes) → compare_loop fuel r l ≡ flip (compare_loop fuel l r)
unfolding compare_loop
compare_loop-flip zero [] [] = refl
compare_loop-flip zero [] (r ∷ right) = refl
compare_loop-flip zero (l ∷ left) [] = refl
compare_loop-flip zero (l ∷ left) (r ∷ right) = refl
compare_loop-flip (suc fuel) [] [] = refl
compare_loop-flip (suc fuel) [] (r ∷ right) = refl
compare_loop-flip (suc fuel) (l ∷ left) [] = refl
compare_loop-flip (suc fuel) (l ∷ left) (r ∷ right) =
    let lv = next_number (suc (length left)) (l ∷ left) in
    let rv = next_number (suc (length right)) (r ∷ right) in
    ap₂ unless_equal (compare_parsed-flip lv.0 rv.0) (compare_loop-flip fuel lv.1 rv.1)
    ∙ unless_equal-flip (compare_parsed lv.0 rv.0) (compare_loop fuel lv.1 rv.1)

compare_parsed-IsAnswer : (l r : Parsed) → IsAnswer (compare_parsed l r)
unfolding compare_parsed
compare_parsed-IsAnswer overflow r = cc
compare_parsed-IsAnswer no_digits overflow = cc
compare_parsed-IsAnswer no_digits no_digits = cc
compare_parsed-IsAnswer no_digits (number r) = cc
compare_parsed-IsAnswer (number l) overflow = cc
compare_parsed-IsAnswer (number l) no_digits = cc
compare_parsed-IsAnswer (number l) (number r) = ground arith

unless_equal-IsAnswer :
    (o again : Outcome) → IsAnswer o → IsAnswer again → IsAnswer (unless_equal o again)
unfolding unless_equal
unless_equal-IsAnswer less again ho ha = ho
unless_equal-IsAnswer equal again ho ha = ha
unless_equal-IsAnswer greater again ho ha = ho
unless_equal-IsAnswer undefined again ho ha = ho
unless_equal-IsAnswer out_of_fuel again ho ha = ho

compare_loop-IsAnswer :
    (fuel : ℕ) (l r : Bytes) → length l ≤ fuel → IsAnswer (compare_loop fuel l r)
unfolding compare_loop
compare_loop-IsAnswer fuel [] [] h = cc
compare_loop-IsAnswer fuel [] (r ∷ right) h = cc
compare_loop-IsAnswer fuel (l ∷ left) [] h = cc
compare_loop-IsAnswer zero (l ∷ left) (r ∷ right) h = absurd (omega arith)
compare_loop-IsAnswer (suc fuel) (l ∷ left) (r ∷ right) h =
    let lv = next_number (suc (length left)) (l ∷ left) in
    let rv = next_number (suc (length right)) (r ∷ right) in
    unless_equal-IsAnswer (compare_parsed lv.0 rv.0) _ (compare_parsed-IsAnswer lv.0 rv.0) (
      compare_loop-IsAnswer fuel lv.1 rv.1
        (omega (arith, next_number-shorter (length left) l left)))

version_compare-IsAnswer : (l r : Bytes) → IsAnswer (version_compare l r)
unfolding version_compare
version_compare-IsAnswer l r = elim (Bool-cases (list_eq l r)) [
  | inl e ↦ rw e (cc)
  | inr e ↦ rw e (compare_loop-IsAnswer (length l + length r) l r (omega arith))
]

version_compare_self : (l : Bytes) → version_compare l l ≡ equal
unfolding version_compare
version_compare_self l = rw (list_eq_refl l) refl

version_compare-flip : (l r : Bytes) → version_compare r l ≡ flip (version_compare l r)
unfolding version_compare
version_compare-flip l r = elim (Bool-cases (list_eq l r)) [
  | inl e ↦
      let back : list_eq r l ≡ true = rw (list_eq→eq l r e) (list_eq_refl r) in rw (e, back) refl
  | inr e ↦
      let back : list_eq r l ≡ false =
        ground (arith, e, list_eq_iff l r, list_eq_iff r l, list_eq_refl l) in
      let sum : length r + length l ≡ length l + length r = omega arith in
      rw (e, back, sum) (compare_loop-flip (length l + length r) l r)
]

-- On two texts with at most 18 digits each, VersionCompare comes to an end with an answer, no
-- number overflowing a long of 64 bits; exchanging the texts reverses the answer, and a text is
-- equal to itself.
pub version_compare_lem :
    (l r : Bytes)
    → digits l ≤ 18
    → digits r ≤ 18
    → (IsAnswer (version_compare l r) × IsDefined (version_compare l r))
      × ((version_compare r l ≡ flip (version_compare l r)) × (version_compare l l ≡ equal))
version_compare_lem l r hl hr = (
  (version_compare-IsAnswer l r, version_compare-IsDefined l r hl hr),
  (version_compare-flip l r, version_compare_self l),
)
