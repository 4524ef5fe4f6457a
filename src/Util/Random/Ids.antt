-- ===== src/Util/Random/Ids.antt =====
-- The ids that RandomUuidLike makes.
use ra_common_cpp.Base.{
  ℕ, zero, suc, ◌+◌, ◌*◌, ◌<◌, ◌≡◌, refl, ap, ap₂, sym, ◌∙◌, Bool, true, false, ==_iff, ◌≢◌, [],
  ◌∷◌, bit_and, Bytes, get_or, length, leb, ◌-◌, ◌==◌, ◌||◌, IsBytes, holds_below, holds_below→, ok,
  ok-injective, >>=-eq-ok, arith, if◌then◌else◌,
}
use ra_common_cpp.Base.Bits.{shr}
use ra_common_cpp.Std.Entropy.{
  Source, random_bytes_of, random_bytes_of_fills, random_bytes_of_lem, NeverFails,
}
use ra_common_cpp.Util.Random.{uuid_digits, uuid_from, uuid_result, random_uuid_like}

-- The value of a digit.
digit_of : ℕ → ℕ
digit_of c = if leb c b'9' then c - b'0' else c - b'a' + 10

digits_table :
    holds_below 256 (λ b.
      digit_of (get_or uuid_digits (shr b 4) 0) * 16
        + digit_of (get_or uuid_digits (bit_and b 0xf) 0)
      == b)
    ≡ true
unfolding holds_below digit_of
digits_table = refl

digits_at :
    (b : ℕ)
    → b < 256
    → digit_of (get_or uuid_digits (shr b 4) 0) * 16
        + digit_of (get_or uuid_digits (bit_and b 0xf) 0)
      ≡ b
digits_at b h = (==_iff _ b).0 (holds_below→ 256 _ digits_table b h)

same_digits :
    (b c : ℕ)
    → b < 256
    → c < 256
    → get_or uuid_digits (shr b 4) 0 ≡ get_or uuid_digits (shr c 4) 0
    → get_or uuid_digits (bit_and b 0xf) 0 ≡ get_or uuid_digits (bit_and c 0xf) 0
    → b ≡ c
same_digits b c hb hc high low =
    sym (digits_at b hb) ∙ ap₂ (λ (x y : ℕ). digit_of x * 16 + digit_of y) high low ∙ digits_at c hc

cons-injective : {x y : ℕ} {xs ys : Bytes} → x ∷ xs ≡ y ∷ ys → (x ≡ y) × (xs ≡ ys)
cons-injective h = (cc, cc)

-- What stands in front of the digits of byte i.
abbrev has_dash : ℕ → Bool
has_dash i = i == 4 || i == 6 || i == 8 || i == 10

undashed :
    (dash : Bool) (xs ys : Bytes)
    → (if dash then b'-' ∷ xs else xs) ≡ (if dash then b'-' ∷ ys else ys)
    → xs ≡ ys
undashed true xs ys h = (cons-injective h).1
undashed false xs ys h = h

not_empty : (dash : Bool) (x : ℕ) (xs : Bytes) → (if dash then b'-' ∷ x ∷ xs else x ∷ xs) ≢ []
not_empty true x xs h = cc
not_empty false x xs h = cc

-- Different bytes give different texts, wherever the dashes stand.
uuid_from-injective :
    (i : ℕ) (bytes other : Bytes)
    → IsBytes bytes
    → IsBytes other
    → uuid_from i bytes ≡ uuid_from i other
    → bytes ≡ other
unfolding uuid_from
uuid_from-injective i [] [] hb ho h = refl
uuid_from-injective i [] (c ∷ other) hb ho h = absurd (not_empty (has_dash i) _ _ (sym h))
uuid_from-injective i (b ∷ bytes) [] hb ho h = absurd (not_empty (has_dash i) _ _ h)
uuid_from-injective i (b ∷ bytes) (c ∷ other) hb ho h =
    let (high, more) = cons-injective (undashed (has_dash i) _ _ h) in
    let (low, rest) = cons-injective more in
    ap₂ (◌∷◌) (same_digits b c hb.0 ho.0 high low)
      (uuid_from-injective (i + 1) bytes other hb.1 ho.1 rest)

-- How many dashes stand in front of n bytes from byte i on.
dashes : ℕ → ℕ → ℕ
dashes i zero = 0
dashes i (suc n) = (if has_dash i then 1 else 0) + dashes (i + 1) n

length_dash :
    (dash : Bool) (xs : Bytes)
    → length (if dash then b'-' ∷ xs else xs) ≡ (if dash then 1 else 0) + length xs
length_dash true xs = omega arith
length_dash false xs = omega arith

length-uuid_from :
    (i : ℕ) (bytes : Bytes)
    → length (uuid_from i bytes) ≡ 2 * length bytes + dashes i (length bytes)
unfolding uuid_from dashes
length-uuid_from i [] = omega arith
length-uuid_from i (b ∷ bytes) =
    length_dash (has_dash i) _ ∙ omega (arith, length-uuid_from (i + 1) bytes)

four_dashes : dashes 0 16 ≡ 4
unfolding dashes
four_dashes = refl

uuid_from-sixteen : (bytes : Bytes) → length bytes ≡ 16 → length (uuid_from 0 bytes) ≡ 36
uuid_from-sixteen bytes size = length-uuid_from 0 bytes ∙ rw size (omega (arith, four_dashes))

-- Two calls of RandomUuidLike that return the same id were given the same sixteen random bytes,
-- and the id has 36 characters.
pub random_uuid_like-injective :
    (source : Source) (call again : ℕ) (id : Bytes) (next last : ℕ)
    → random_uuid_like source call ≡ ok (id, next)
    → random_uuid_like source again ≡ ok (id, last)
    → (bytes : Bytes) × (random_bytes_of source call 16 ≡ ok (bytes, next))
      × (random_bytes_of source again 16 ≡ ok (bytes, last))
      × (length id ≡ 36)
unfolding random_uuid_like
random_uuid_like-injective source call again id next last first second =
    let ((bytes, n), (written, drawn)) =
      >>=-eq-ok uuid_result (id, next) (random_bytes_of source call 16) first in
    let ((other, m), (rewritten, redrawn)) =
      >>=-eq-ok uuid_result (id, last) (random_bytes_of source again 16) second in
    let (size, good) = random_bytes_of_fills source call 16 bytes n drawn in
    let (_, fine) = random_bytes_of_fills source again 16 other m redrawn in
    let at : (uuid_from 0 bytes, n) ≡ (id, next) = ok-injective written in
    let at' : (uuid_from 0 other, m) ≡ (id, last) = ok-injective rewritten in
    let same =
      uuid_from-injective 0 bytes other good fine
        (ap (λ (p : Bytes × ℕ). p.0) at ∙ sym (ap (λ (p : Bytes × ℕ). p.0) at')) in
    (
      bytes,
      drawn ∙ ap (λ k. ok (bytes, k)) (ap (λ (p : Bytes × ℕ). p.1) at),
      redrawn ∙ ap₂ (λ (b : Bytes) (k : ℕ). ok (b, k)) (sym same) (ap (λ (p : Bytes × ℕ). p.1) at'),
      ap length (sym (ap (λ (p : Bytes × ℕ). p.0) at)) ∙ uuid_from-sixteen bytes size,
    )

-- RandomUuidLike returns if
-- getentropy succeeds for every count of at most 256 bytes.
pub random_uuid_like_lem :
    (source : Source) (call : ℕ)
    → NeverFails source
    → (result : Bytes × ℕ) × (random_uuid_like source call ≡ ok result) × (length result.0 ≡ 36)
unfolding random_uuid_like
random_uuid_like_lem source call always =
    let ((bytes, next), (gives, (size, _))) = random_bytes_of_lem source call 16 always in
    ((uuid_from 0 bytes, next), rw gives refl, uuid_from-sixteen bytes size)
