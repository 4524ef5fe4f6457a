-- ===== src/Util/Version.antt =====
-- VersionCompare of include/ra_common/util/version_comparator.hpp. An index into a text is the rest of
-- the text from there on.
pub mod Digits
pub mod Order
use ra_common_cpp.Base.{
  ℕ, zero, suc, ◌+◌, ◌-◌, ◌*◌, ◌^◌, Bool, true, false, ◌&&◌, ◌||◌, List, [], ◌∷◌, Bytes, length,
  ltb, leb, ◌==◌, list_eq, if◌then◌else◌,
}
use ra_common_cpp.Std.Numbers.{ℤ, pos, negsuc}

unfoldable pub is_separator : ℕ → Bool
is_separator c = c == b'.' || c == b'-' || c == b'_'

-- NextSeparator: the text before the next separator, and the text behind it.
unfoldable pub segment : Bytes → Bytes × Bytes
segment [] = ([], [])
segment (c ∷ s) =
    let (before, behind) = segment s in if is_separator c then ([], s) else (c ∷ before, behind)

-- What ParseLong gives: a number, -1, or the undefined behaviour of a long that overflows.
pub data Parsed : Type 0 where
  number : ℕ → Parsed
  no_digits : Parsed
  overflow : Parsed

unfoldable pub parse_long : Bytes → ℕ → Bool → Parsed
parse_long [] rv parsed_any = if parsed_any then number rv else no_digits
parse_long (c ∷ s) rv parsed_any =
    let value = rv * 10 + (c - b'0') in
    let digit = parse_long s value true in
    let other = parse_long s rv parsed_any in
    if leb b'0' c && leb c b'9' then (if ltb value (2 ^ 63) then digit else overflow) else other

-- `lv == -1` goes on with the rest; a number leaves the loop.
unfoldable pub take_number : Parsed → Bytes → Parsed × Bytes → Parsed × Bytes
take_number no_digits behind rest = rest
take_number (number n) behind rest = (number n, behind)
take_number overflow behind rest = (overflow, behind)

-- while (lv == -1 && il < ll), with the rest of the text. A round takes a character at least, so a
-- round for each character is enough.
unfoldable pub next_number : ℕ → Bytes → Parsed × Bytes
next_number fuel [] = (no_digits, [])
next_number zero (c ∷ s) = (no_digits, c ∷ s)
next_number (suc fuel) (c ∷ s) =
    let (before, behind) = segment (c ∷ s) in
    take_number (parse_long before 0 false) behind (next_number fuel behind)

-- The comparison's answer; `undefined` where a number overflows.
pub data Outcome : Type 0 where
  less equal greater undefined out_of_fuel : Outcome

-- lv < rv and lv > rv, where no digits are -1; `equal` goes round again.
unfoldable pub compare_parsed : Parsed → Parsed → Outcome
compare_parsed overflow r = undefined
compare_parsed no_digits overflow = undefined
compare_parsed (number l) overflow = undefined
compare_parsed no_digits no_digits = equal
compare_parsed no_digits (number r) = less
compare_parsed (number l) no_digits = greater
compare_parsed (number l) (number r) = if ltb l r then less else if ltb r l then greater else equal

-- A round that finds equal numbers is followed by the next.
unfoldable pub unless_equal : Outcome → Outcome → Outcome
unless_equal equal again = again
unless_equal less again = less
unless_equal greater again = greater
unless_equal undefined again = undefined
unless_equal out_of_fuel again = out_of_fuel

-- for (;;); each round takes a character at least from both texts.
unfoldable pub compare_loop : ℕ → Bytes → Bytes → Outcome
compare_loop fuel [] [] = equal
compare_loop fuel [] (r ∷ right) = less
compare_loop fuel (l ∷ left) [] = greater
compare_loop zero (l ∷ left) (r ∷ right) = out_of_fuel
compare_loop (suc fuel) (l ∷ left) (r ∷ right) =
    let (lv, left') = next_number (suc (length left)) (l ∷ left) in
    let (rv, right') = next_number (suc (length right)) (r ∷ right) in
    unless_equal (compare_parsed lv rv) (compare_loop fuel left' right')

unfoldable pub version_compare : Bytes → Bytes → Outcome
version_compare left right =
    if list_eq left right then equal else compare_loop (length left + length right) left right
