-- ===== src/Crypto/HashCash/Dates/RoundTrip.antt =====
-- Dates of this century, written and read.
use ra_common_cpp.Base.{
  ℕ, ◌+◌, ◌-◌, ◌*◌, ◌%◌, ◌<◌, ◌≡◌, refl, ap, true, false, [], ◌∷◌, ◌++◌, Bytes, Lacks, codes,
  length, ◌==◌, ok, ok-injective, throw_invalid, arith, ◌/◌, ◌∙◌, list_eq, list_eq→eq, holds_below,
  holds_below→, Bool-cases, ==_iff, inl, inr, sym,
}
use ra_common_cpp.Std.Numbers.{pos, stoi}
use ra_common_cpp.Std.Numbers.Decimal.{stoi-two_digits}
use ra_common_cpp.Crypto.HashCash.Dates.{
  YearMonthDay, two_digits, signed_two_digits, year_digits, fmt_yy_mm_dd, all_digits, last_day,
  date_ok, two_at, parse_yy_mm_dd,
}

two_digits_table :
    holds_below 100 (λ n. list_eq (two_digits n) ((b'0' + n / 10) ∷ (b'0' + n % 10) ∷ [])) ≡ true
unfolding holds_below two_digits list_eq
two_digits_table = refl

two_digits_lem : (n : ℕ) → n < 100 → two_digits n ≡ (b'0' + n / 10) ∷ (b'0' + n % 10) ∷ []
two_digits_lem n h = list_eq→eq _ _ (holds_below→ 100 _ two_digits_table n h)

stoi-two : (n : ℕ) → n < 100 → stoi 10 ((b'0' + n / 10) ∷ (b'0' + n % 10) ∷ []) ≡ ok (pos n, 2)
stoi-two n h =
    stoi-two_digits (n / 10) (n % 10) (omega arith) (omega arith)
    ∙ ap (λ v. ok (pos v, 2)) (let e : n / 10 * 10 + n % 10 ≡ n = omega arith in e)

date_ok-lt : (y m d : ℕ) → date_ok y m d ≡ true → (m < 100) × (d < 100)
unfolding date_ok last_day
date_ok-lt y m d h = ground arith

abbrev pub six : ℕ → ℕ → ℕ → Bytes
six y m d =
    (b'0' + y / 10)
    ∷ (b'0' + y % 10)
    ∷ (b'0' + m / 10)
    ∷ (b'0' + m % 10)
    ∷ (b'0' + d / 10)
    ∷ (b'0' + d % 10)
    ∷ []

six_digits : (y m d : ℕ) → y < 100 → m < 100 → d < 100 → all_digits (six y m d) ≡ true
unfolding all_digits
six_digits y m d hy hm hd = ground arith

abbrev pub century_date : ℕ → ℕ → ℕ → YearMonthDay
century_date y m d = record { year = pos (2000 + y); month = m; day = d }

pub parse_six :
    (y m d : ℕ)
    → y < 100
    → date_ok (2000 + y) m d ≡ true
    → parse_yy_mm_dd (six y m d) ≡ ok (century_date y m d)
unfolding parse_yy_mm_dd two_at
parse_six y m d hy h =
    let (hm, hd) = date_ok-lt (2000 + y) m d h in
    rw (six_digits y m d hy hm hd, stoi-two y hy, stoi-two m hm, stoi-two d hd, h) refl

fmt_six : (y m d : ℕ) → y < 100 → m < 100 → d < 100 → fmt_yy_mm_dd (century_date y m d) ≡ six y m d
unfolding fmt_yy_mm_dd year_digits signed_two_digits
fmt_six y m d hy hm hd =
    let e : (2000 + y) % 100 ≡ y = omega arith in
    rw (e, two_digits_lem y hy, two_digits_lem m hm, two_digits_lem d hd) refl

-- A date of the years 2000 to 2099 that is written is read back.
pub parse_yy_mm_dd-fmt :
    (y m d : ℕ)
    → y < 100
    → date_ok (2000 + y) m d ≡ true
    → parse_yy_mm_dd (fmt_yy_mm_dd (century_date y m d)) ≡ ok (century_date y m d)
parse_yy_mm_dd-fmt y m d hy h =
    let (hm, hd) = date_ok-lt (2000 + y) m d h in rw (fmt_six y m d hy hm hd) (parse_six y m d hy h)

-- The digits of such a date.
pub fmt_yy_mm_dd-Lacks :
    (c y m d : ℕ)
    → b'9' < c
    → y < 100
    → date_ok (2000 + y) m d ≡ true
    → Lacks c (fmt_yy_mm_dd (century_date y m d))
fmt_yy_mm_dd-Lacks c y m d above hy h =
    let (hm, hd) = date_ok-lt (2000 + y) m d h in rw (fmt_six y m d hy hm hd) (omega arith)

-- A text of six digits.
pub six_of :
    (s : Bytes)
    → length s ≡ 6
    → all_digits s ≡ true
    → (y : ℕ) × (m : ℕ) × (d : ℕ) × (y < 100) × (m < 100) × (d < 100) × (s ≡ six y m d)
unfolding all_digits
six_of [] l h = absurd (omega arith)
six_of (a ∷ []) l h = absurd (omega arith)
six_of (a ∷ b ∷ []) l h = absurd (omega arith)
six_of (a ∷ b ∷ c ∷ []) l h = absurd (omega arith)
six_of (a ∷ b ∷ c ∷ d ∷ []) l h = absurd (omega arith)
six_of (a ∷ b ∷ c ∷ d ∷ e ∷ []) l h = absurd (omega arith)
six_of (a ∷ b ∷ c ∷ d ∷ e ∷ f ∷ x ∷ s) l h = absurd (omega arith)
six_of (a ∷ b ∷ c ∷ d ∷ e ∷ f ∷ []) l h = (
  (a - 48) * 10 + (b - 48),
  (c - 48) * 10 + (d - 48),
  (e - 48) * 10 + (f - 48),
  ground arith,
  ground arith,
  ground arith,
  ground arith,
)

-- What an accepted date is.
pub record InCentury (s : Bytes) (date : YearMonthDay) : Type 0 where
  pub y : ℕ
  pub this_century : y < 100
  pub is_year : date.year ≡ pos (2000 + y)
  pub is_date : date_ok (2000 + y) date.month date.day ≡ true
  pub prints : fmt_yy_mm_dd date ≡ s

pub parse_six_bad :
    (y m d : ℕ)
    → y < 100
    → m < 100
    → d < 100
    → date_ok (2000 + y) m d ≡ false
    → parse_yy_mm_dd (six y m d) ≡ throw_invalid (codes "bad hashcash date: " ++ six y m d)
unfolding parse_yy_mm_dd two_at
parse_six_bad y m d hy hm hd e =
    rw (six_digits y m d hy hm hd, stoi-two y hy, stoi-two m hm, stoi-two d hd, e) refl

parse_six-InCentury :
    (y m d : ℕ) (date : YearMonthDay)
    → y < 100
    → m < 100
    → d < 100
    → parse_yy_mm_dd (six y m d) ≡ ok date
    → InCentury (six y m d) date
parse_six-InCentury y m d date hy hm hd h = elim (Bool-cases (date_ok (2000 + y) m d)) [
  | inl e ↦
      let same : century_date y m d ≡ date = ok-injective (sym (parse_six y m d hy e) ∙ h) in
      rw (← same) (record {
        y = y;
        this_century = hy;
        is_year = refl;
        is_date = e;
        prints = fmt_six y m d hy hm hd;
      })
  | inr e ↦ absurd (cc (sym h ∙ parse_six_bad y m d hy hm hd e))
]

-- Whatever ParseYyMmDd accepts is a date of the years 2000 to 2099, and is written as the same text.
pub parse_yy_mm_dd-InCentury :
    (s : Bytes) (date : YearMonthDay) → parse_yy_mm_dd s ≡ ok date → InCentury s date
unfolding parse_yy_mm_dd
parse_yy_mm_dd-InCentury s date h = elim (Bool-cases (length s == 6)) [
  | inr e ↦ absurd (cc (rw e at h))
  | inl e ↦ elim (Bool-cases (all_digits s)) [
    | inr e' ↦ absurd (cc (rw (e, e') at h))
    | inl e' ↦
        let (y, m, d, hy, hm, hd, same) = six_of s ((==_iff (length s) 6).0 e) e' in
        rw same (parse_six-InCentury y m d date hy hm hd (rw same at h))
  ]
]
