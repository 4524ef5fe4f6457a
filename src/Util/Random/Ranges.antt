-- ===== src/Util/Random/Ranges.antt =====
-- The ranges of the numbers and of the texts drawn.
use ra_common_cpp.Base.{
  ℕ, suc, ◌+◌, ◌-◌, ◌%◌, ◌^◌, ◌≤◌, ◌<◌, ◌≡◌, refl, ap, ◌∙◌, [], ◌∷◌, Option, some, Bytes, All,
  get_or, length, leb, ◌&&◌, ◌||◌, ◌==◌, IsBytes, ok, arith, Bool, true, false, holds_below,
  holds_below→,
}
use ra_common_cpp.Std.Numbers.{ℤ, pos, negsuc}
use mathlib.Core.Path.{subst}
use native.Mathlib.Nat.{pow-suc}
use ra_common_cpp.Std.Numbers.Decimal.{IsInt32, IsInt64}
use ra_common_cpp.Std.Entropy.{Source, random_bytes_of_lem, NeverFails}
use ra_common_cpp.Util.Random.{
  little_endian, to_word, from_word, alphanumerics, alphanumeric_of, random_alphanumeric, int_in,
  next_int_in, next_long,
}

-- The place of an int among the ints, from the smallest one, which has place 0.
abbrev pub place : ℤ → ℕ
place (pos n) = 2 ^ 31 + n
place (negsuc n) = 2 ^ 31 - 1 - n

-- A word of 32 bits and the place of its int.
place-from_word : (x : ℕ) → x < 2 ^ 32 → place (from_word 32 x) ≡ (x + 2 ^ 31) % 2 ^ 32
unfolding from_word
place-from_word x h = ground arith

to_word-place : (x : ℤ) → IsInt32 x → to_word 32 x ≡ (place x + 2 ^ 31) % 2 ^ 32
unfolding to_word
to_word-place (pos n) h = omega arith
to_word-place (negsuc n) h = omega arith

place-lt : (x : ℤ) → IsInt32 x → place x < 2 ^ 32
place-lt (pos n) h = omega arith
place-lt (negsuc n) h = omega arith

shifted :
    (l u : ℕ)
    → l < u
    → u < 2 ^ 32
    → ((u + 2 ^ 31) % 2 ^ 32 + 2 ^ 32 - (l + 2 ^ 31) % 2 ^ 32) % 2 ^ 32 ≡ u - l
shifted l u h k = omega arith

-- From the word of the lower bound, r steps up.
steps_up :
    (l r : ℕ) → l + r < 2 ^ 32 → (((l + 2 ^ 31) % 2 ^ 32 + r) % 2 ^ 32 + 2 ^ 31) % 2 ^ 32 ≡ l + r
steps_up l r h = omega arith

remainder-lt : (raw span : ℕ) → 0 < span → raw % span < span
remainder-lt raw span h = grind arith

-- The int that is drawn from any word.
abbrev pub Draws : ℤ → ℤ → Option ℤ → Type 0
Draws lower upper o = (x : ℤ) × (o ≡ some x) × (place lower ≤ place x) × (place x < place upper)

int_in-Draws :
    (lower upper : ℤ) (raw : ℕ)
    → IsInt32 lower
    → IsInt32 upper
    → place lower < place upper
    → Draws lower upper (int_in lower upper raw)
unfolding int_in
int_in-Draws lower upper raw hl hu h =
    let span : (to_word 32 upper + 2 ^ 32 - to_word 32 lower) % 2 ^ 32 ≡ place upper - place lower =
      rw (to_word-place lower hl, to_word-place upper hu)
        (shifted (place lower) (place upper) h (place-lt upper hu)) in
    let small = remainder-lt raw (place upper - place lower) (omega arith) in
    let r : ℕ = raw % (place upper - place lower) in
    let e : place (from_word 32 ((to_word 32 lower + raw % (place upper - place lower)) % 2 ^ 32))
        ≡ place lower + raw % (place upper - place lower) =
      place-from_word _ (omega arith)
      ∙ rw (to_word-place lower hl) (
          steps_up (place lower) (raw % (place upper - place lower))
            (omega (arith, small, place-lt upper hu))) in
    let full : (place upper - place lower == 0) ≡ false = ground arith in
    (
      from_word 32 ((to_word 32 lower + raw % (place upper - place lower)) % 2 ^ 32),
      rw (span, full) refl,
      omega (arith, e),
      omega (arith, e, small),
    )

-- If getentropy succeeds for every count of at most 256 bytes, the lower bound is below the upper
-- one, and their difference is an int, NextIntIn returns an int from the lower bound on and below
-- the upper one. The order of the ints is that of their places, counted from the smallest int.
pub next_int_in-Draws :
    (source : Source) (call : ℕ) (lower upper : ℤ)
    → NeverFails source
    → IsInt32 lower
    → IsInt32 upper
    → place lower < place upper
    → place upper < place lower + 2 ^ 31
    → (result : Option ℤ × ℕ) × (next_int_in source call lower upper ≡ ok result)
      × Draws lower upper result.0
unfolding next_int_in
next_int_in-Draws source call lower upper always hl hu h fits =
    let ((buf, next), (gives, _)) = random_bytes_of_lem source call 4 always in
    (
      (int_in lower upper (little_endian buf), next),
      rw gives refl,
      int_in-Draws lower upper (little_endian buf) hl hu h,
    )

-- A letter or a digit.
unfoldable pub is_alphanumeric : ℕ → Bool
is_alphanumeric c =
    (leb b'0' c && leb c b'9') || (leb b'A' c && leb c b'Z') || (leb b'a' c && leb c b'z')

alphabet_table : holds_below 62 (λ i. is_alphanumeric (get_or alphanumerics i 0)) ≡ true
unfolding holds_below is_alphanumeric
alphabet_table = refl

alphanumeric_of-All : (bytes : Bytes) → All (λ c. is_alphanumeric c ≡ true) (alphanumeric_of bytes)
unfolding alphanumeric_of
alphanumeric_of-All [] = tt
alphanumeric_of-All (b ∷ bytes) =
    (holds_below→ 62 _ alphabet_table (b % 62) (omega arith), alphanumeric_of-All bytes)

length-alphanumeric_of : (bytes : Bytes) → length (alphanumeric_of bytes) ≡ length bytes
unfolding alphanumeric_of
length-alphanumeric_of [] = refl
length-alphanumeric_of (b ∷ bytes) = ap suc (length-alphanumeric_of bytes)

-- RandomAlphanumeric returns as many letters and digits as were asked for.
pub random_alphanumeric-All :
    (source : Source) (call count : ℕ)
    → NeverFails source
    → (result : Bytes × ℕ) × (random_alphanumeric source call count ≡ ok result)
      × (length result.0 ≡ count)
      × All (λ c. is_alphanumeric c ≡ true) result.0
unfolding random_alphanumeric
random_alphanumeric-All source call count always =
    let ((bytes, next), (gives, (size, _))) = random_bytes_of_lem source call count always in
    (
      (alphanumeric_of bytes, next),
      rw gives refl,
      length-alphanumeric_of bytes ∙ size,
      alphanumeric_of-All bytes,
    )

little_endian-lt : (bytes : Bytes) → IsBytes bytes → little_endian bytes < 256 ^ length bytes
unfolding little_endian
little_endian-lt [] h = omega arith
little_endian-lt (b ∷ bytes) h =
    omega (arith, little_endian-lt bytes h.1, pow-suc 256 (length bytes))

from_word-IsInt64 : (x : ℕ) → x < 2 ^ 64 → IsInt64 (from_word 64 x)
unfolding from_word
from_word-IsInt64 x h = ground arith

-- NextLong returns an int64_t.
pub next_long-IsInt64 :
    (source : Source) (call : ℕ)
    → NeverFails source
    → (result : ℤ × ℕ) × (next_long source call ≡ ok result) × IsInt64 result.0
unfolding next_long
next_long-IsInt64 source call always =
    let ((buf, next), (gives, (size, good))) = random_bytes_of_lem source call 8 always in
    let small : little_endian buf < 256 ^ 8 =
      subst (λ (n : ℕ). little_endian buf < 256 ^ n) size (little_endian-lt buf good) in
    (
      (from_word 64 (little_endian buf), next),
      rw gives refl,
      from_word-IsInt64 (little_endian buf) (omega (arith, small)),
    )
