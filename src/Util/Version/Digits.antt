-- ===== src/Util/Version/Digits.antt =====
-- Texts with so few digits that no number of VersionCompare leaves a long of 64 bits.
use ra_common_cpp.Base.{
  ℕ, zero, suc, ◌+◌, ◌-◌, ◌*◌, ◌^◌, ◌≤◌, ◌<◌, ◌≡◌, ◌≢◌, refl, Bool, true, false, ◌&&◌, inl, inr,
  Bool-cases, [], ◌∷◌, Bytes, length, ltb, leb, list_eq, if◌then◌else◌, arith,
}
use native.Mathlib.Nat.{pow-suc, pow-le-pow_right}
use ra_common_cpp.Util.Version.{
  Parsed, number, no_digits, overflow, Outcome, less, equal, greater, undefined, out_of_fuel,
  is_separator, segment, parse_long, take_number, next_number, unless_equal, compare_parsed,
  compare_loop, version_compare,
}

-- How many digits a text has.
unfoldable pub digits : Bytes → ℕ
digits [] = 0
digits (c ∷ s) = (if leb b'0' c && leb c b'9' then 1 else 0) + digits s

-- A number of k digits.
abbrev Below : ℕ → ℕ → Type 0
Below k rv = rv < 10 ^ k

next_digit :
    (c k rv : ℕ)
    → (leb b'0' c && leb c b'9') ≡ true
    → Below k rv
    → Below (suc k) (rv * 10 + (c - b'0'))
next_digit c k rv d h = ground (arith, pow-suc 10 k)

eighteen : (k rv : ℕ) → k ≤ 18 → Below k rv → rv < 2 ^ 63
eighteen k rv h b =
    let top : 10 ^ k ≤ 10 ^ 18 = pow-le-pow_right (omega arith) h in omega (arith, top)

parse_long-number :
    (s : Bytes) (k rv : ℕ) (parsed_any : Bool)
    → k + digits s ≤ 18
    → Below k rv
    → parse_long s rv parsed_any ≢ overflow
unfolding parse_long digits
parse_long-number [] k rv true h b = cc
parse_long-number [] k rv false h b = cc
parse_long-number (c ∷ s) k rv parsed_any h b = elim (Bool-cases (leb b'0' c && leb c b'9')) [
  | inl d ↦
      let longer : 1 + digits s + k ≤ 18 = ground (arith, d) in
      let value : Below (suc k) (rv * 10 + (c - b'0')) = next_digit c k rv d b in
      let fits : ltb (rv * 10 + (c - b'0')) (2 ^ 63) ≡ true =
        let small = eighteen (suc k) (rv * 10 + (c - b'0')) (omega (arith, longer)) value in
        ground (arith, small) in
      rw (d, fits)
        (parse_long-number s (suc k) (rv * 10 + (c - b'0')) true (omega (arith, longer)) value)
  | inr d ↦ rw d (parse_long-number s k rv parsed_any (ground (arith, d)) b)
]

digits-segment : (s : Bytes) → (digits (segment s).0 ≤ digits s) × (digits (segment s).1 ≤ digits s)
unfolding segment digits
digits-segment [] = (omega arith, omega arith)
digits-segment (c ∷ s) =
    let (before, behind) = digits-segment s in
    elim (Bool-cases (is_separator c)) [
      | inl e ↦ rw e (omega arith, omega arith)
      | inr e ↦ rw e (omega (arith, before), omega (arith, behind))
    ]

-- The number that is taken is one, and the rest has no more digits.
abbrev Taken : ℕ → Parsed × Bytes → Type 0
Taken n p = (p.0 ≢ overflow) × (digits p.1 ≤ n)

take_number-Taken :
    (p : Parsed) (behind : Bytes) (rest : Parsed × Bytes) (n : ℕ)
    → p ≢ overflow
    → digits behind ≤ n
    → Taken n rest
    → Taken n (take_number p behind rest)
unfolding take_number
take_number-Taken (number m) behind rest n hp hb hr = (hp, hb)
take_number-Taken no_digits behind rest n hp hb hr = hr
take_number-Taken overflow behind rest n hp hb hr = absurd (hp refl)

no_digits-Taken : (s : Bytes) (n : ℕ) → digits s ≤ n → Taken n (no_digits, s)
no_digits-Taken s n h = (cc, h)

next_number-Taken :
    (fuel : ℕ) (s : Bytes) (n : ℕ) → digits s ≤ n → n ≤ 18 → Taken n (next_number fuel s)
unfolding next_number
next_number-Taken zero [] n h small = no_digits-Taken [] n h
next_number-Taken (suc fuel) [] n h small = no_digits-Taken [] n h
next_number-Taken zero (c ∷ s) n h small = no_digits-Taken (c ∷ s) n h
next_number-Taken (suc fuel) (c ∷ s) n h small =
    let (before, behind) = digits-segment (c ∷ s) in
    take_number-Taken (parse_long (segment (c ∷ s)).0 0 false) _ _ n
      (parse_long-number (segment (c ∷ s)).0 0 0 false (omega (arith, before)) (omega arith))
      (omega (arith, behind))
      (next_number-Taken fuel (segment (c ∷ s)).1 n (omega (arith, behind)) small)

-- A comparison that is defined.
abbrev pub IsDefined : Outcome → Type 0
IsDefined o = o ≢ undefined

compare_parsed-IsDefined :
    (l r : Parsed) → l ≢ overflow → r ≢ overflow → IsDefined (compare_parsed l r)
unfolding compare_parsed
compare_parsed-IsDefined overflow r hl hr = absurd (hl refl)
compare_parsed-IsDefined no_digits overflow hl hr = absurd (hr refl)
compare_parsed-IsDefined (number l) overflow hl hr = absurd (hr refl)
compare_parsed-IsDefined no_digits no_digits hl hr = cc
compare_parsed-IsDefined no_digits (number r) hl hr = cc
compare_parsed-IsDefined (number l) no_digits hl hr = cc
compare_parsed-IsDefined (number l) (number r) hl hr = ground arith

unless_equal-IsDefined :
    (o again : Outcome) → IsDefined o → IsDefined again → IsDefined (unless_equal o again)
unfolding unless_equal
unless_equal-IsDefined less again ho ha = ho
unless_equal-IsDefined equal again ho ha = ha
unless_equal-IsDefined greater again ho ha = ho
unless_equal-IsDefined undefined again ho ha = ho
unless_equal-IsDefined out_of_fuel again ho ha = ho

compare_loop-IsDefined :
    (fuel : ℕ) (l r : Bytes) → digits l ≤ 18 → digits r ≤ 18 → IsDefined (compare_loop fuel l r)
unfolding compare_loop
compare_loop-IsDefined fuel [] [] hl hr = cc
compare_loop-IsDefined fuel [] (r ∷ right) hl hr = cc
compare_loop-IsDefined fuel (l ∷ left) [] hl hr = cc
compare_loop-IsDefined zero (l ∷ left) (r ∷ right) hl hr = cc
compare_loop-IsDefined (suc fuel) (l ∷ left) (r ∷ right) hl hr =
    let (lv, more) = next_number-Taken (suc (length left)) (l ∷ left) 18 hl (omega arith) in
    let (rv, more') = next_number-Taken (suc (length right)) (r ∷ right) 18 hr (omega arith) in
    unless_equal-IsDefined _ _ (compare_parsed-IsDefined _ _ lv rv)
      (compare_loop-IsDefined fuel _ _ more more')

pub version_compare-IsDefined :
    (l r : Bytes) → digits l ≤ 18 → digits r ≤ 18 → IsDefined (version_compare l r)
unfolding version_compare
version_compare-IsDefined l r hl hr = elim (Bool-cases (list_eq l r)) [
  | inl e ↦ rw e (cc)
  | inr e ↦ rw e (compare_loop-IsDefined (length l + length r) l r hl hr)
]
