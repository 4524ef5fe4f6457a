-- ===== src/Crypto/HashCash/Dates.antt =====
-- FmtYyMmDd and ParseYyMmDd of include/ra_common/crypto/hash_cash.hpp. A std::chrono::year_month_day is
-- its three fields; of what the standard library gives, `last_day` and `date_ok` are days_in_month and ok().
pub mod RoundTrip
use ra_common_cpp.Base.{
  ℕ, suc, ◌+◌, ◌-◌, ◌*◌, ◌%◌, ◌≤◌, ◌<◌, ◌≡◌, refl, ap, Bool, true, false, ◌&&◌, ◌||◌, not, List, [],
  ◌∷◌, ◌++◌, Bytes, Lacks, codes, length, take, drop, ltb, leb, ◌==◌, if◌then◌else◌, Result, ok,
  err, throw_invalid, throw_if, ◌>>=◌, ◌>>◌, arith, ◌/◌, ◌∙◌, list_eq, list_eq→eq, holds_below,
  holds_below→,
}
use ra_common_cpp.Std.Numbers.{ℤ, pos, negsuc, pos_part, to_string, stoi}
use ra_common_cpp.Std.Numbers.Decimal.{stoi-two_digits}

pub record YearMonthDay : Type 0 where
  pub year : ℤ
  pub month : ℕ
  pub day : ℕ

-- `%02u`
unfoldable pub two_digits : ℕ → Bytes
unfolding to_string
two_digits n = if ltb n 10 then b'0' ∷ to_string n else to_string n

-- `%02d`, where the minus is one of the two characters.
unfoldable pub signed_two_digits : Bool → ℕ → Bytes
unfolding two_digits to_string
signed_two_digits minus n = if minus && ltb 0 n then b'-' ∷ to_string n else two_digits n

-- year % 100 has the sign of the year.
unfoldable pub year_digits : ℤ → Bytes
unfolding signed_two_digits
year_digits (pos n) = signed_two_digits false (n % 100)
year_digits (negsuc n) = signed_two_digits true (suc n % 100)

-- snprintf writes six characters at most into a buffer of seven.
unfoldable pub fmt_yy_mm_dd : YearMonthDay → Bytes
unfolding year_digits two_digits
fmt_yy_mm_dd d = take 6 (year_digits d.year ++ (two_digits d.month ++ two_digits d.day))

unfoldable pub all_digits : Bytes → Bool
all_digits [] = true
all_digits (c ∷ s) = (leb b'0' c && leb c b'9') && all_digits s

unfoldable pub is_leap : ℕ → Bool
is_leap y = y % 4 == 0 && (not (y % 100 == 0) || y % 400 == 0)

unfoldable pub last_day : ℕ → ℕ → ℕ
unfolding is_leap
last_day y m =
    if m == 2
    then (if is_leap y then 29 else 28)
    else if m == 4 || m == 6 || m == 9 || m == 11
    then 30
    else 31

-- date.ok() for a year from 0 on.
unfoldable pub date_ok : ℕ → ℕ → ℕ → Bool
unfolding last_day
date_ok y m d = (leb 1 m && leb m 12) && (leb 1 d && leb d (last_day y m))

unfoldable pub two_at : Bytes → ℕ → Result ℕ
unfolding stoi
two_at s i = do (value, _) ← stoi 10 (take 2 (drop i s)); ok (pos_part value)

unfoldable pub parse_yy_mm_dd : Bytes → Result YearMonthDay
unfolding all_digits two_at date_ok
parse_yy_mm_dd s = do
  throw_if (not (length s == 6) || not (all_digits s))
      (throw_invalid (codes "bad hashcash date: " ++ s))
  yy ← two_at s 0
  mm ← two_at s 2
  dd ← two_at s 4
  throw_if (not (date_ok (2000 + yy) mm dd)) (throw_invalid (codes "bad hashcash date: " ++ s))
  ok (record { year = pos (2000 + yy); month = mm; day = dd })
