-- ===== src/Crypto/HashCash/Rejects.antt =====
-- How Parse of class HashCash fails.
use ra_common_cpp.Base.{
  ℕ, zero, suc, ◌+◌, ◌%◌, ◌^◌, ◌<◌, ◌≡◌, refl, sym, ap, ◌∙◌, Bool, true, false, not, inl, inr,
  Bool-cases, ==_iff, List, [], ◌∷◌, ◌++◌, Bytes, codes, length, ◌==◌, RaErrorKind, RaException,
  ra_exception, Error, thrown, Result, ok, err, ok-injective, throw_if, throw_invalid, ◌>>=◌, ◌>>◌,
  arith,
}
use mathlib.Core.Path.{subst}
use ra_common_cpp.Std.Numbers.{ℤ, pos, negsuc}
use ra_common_cpp.Crypto.HashCash.Dates.{date_ok, all_digits, parse_yy_mm_dd}
use ra_common_cpp.Crypto.HashCash.Dates.RoundTrip.{six, six_of, parse_six, parse_six_bad}
use ra_common_cpp.Crypto.HashCash.Split.{split_on}
use ra_common_cpp.Crypto.HashCash.Tokens.{
  HashCash, part_at, or_invalid, read_version, read_bits, expected_parts, claimed_bits, parse_rest,
  parse_as, parse_parts, parse,
}

-- An RaException of the kind Invalid.
pub data IsInvalid : Error → Type 0 where
  is_invalid : (e : RaException) → e.kind ≡ RaErrorKind.invalid → IsInvalid (thrown e)

abbrev FailsInvalid : {A : Type 0} → Result A → Type 0
FailsInvalid (ok a) = Unit {0}
FailsInvalid (err e) = IsInvalid e

throw_invalid-IsInvalid :
    (message : Bytes) → IsInvalid (thrown (ra_exception RaErrorKind.invalid message))
unfolding ra_exception
throw_invalid-IsInvalid message = is_invalid (ra_exception RaErrorKind.invalid message) refl

FailsInvalid->>= :
    {A B : Type 0} (m : Result A) (next : A → Result B)
    → FailsInvalid m
    → ((a : A) → m ≡ ok a → FailsInvalid (next a))
    → FailsInvalid (m >>= next)
FailsInvalid->>= (ok a) next h f = f a refl
FailsInvalid->>= (err e) next h f = h

or_invalid-FailsInvalid :
    {A : Type 0} (message : Bytes) (m : Result A) → FailsInvalid (or_invalid message m)
unfolding or_invalid
or_invalid-FailsInvalid message (ok a) = tt
or_invalid-FailsInvalid {A = A} message (err e) = throw_invalid-IsInvalid message

FailsInvalid-throw_if :
    {B : Type 0} (test : Bool) (message : Bytes) (m : Result B)
    → (test ≡ false → FailsInvalid m)
    → FailsInvalid (throw_if test (throw_invalid message) >> m)
FailsInvalid-throw_if true message m h = throw_invalid-IsInvalid message
FailsInvalid-throw_if false message m h = h refl

part_at-FailsInvalid :
    (i : ℕ) (parts : List Bytes) → i < length parts → FailsInvalid (part_at parts i)
unfolding part_at
part_at-FailsInvalid i [] h = absurd (omega arith)
part_at-FailsInvalid zero (part ∷ parts) h = tt
part_at-FailsInvalid (suc i) (part ∷ parts) h = part_at-FailsInvalid i parts (omega arith)

parse_six-FailsInvalid :
    (y m d : ℕ) → y < 100 → m < 100 → d < 100 → FailsInvalid (parse_yy_mm_dd (six y m d))
parse_six-FailsInvalid y m d hy hm hd = elim (Bool-cases (date_ok (2000 + y) m d)) [
  | inl e ↦ rw (parse_six y m d hy e) tt
  | inr e ↦
      rw (parse_six_bad y m d hy hm hd e)
        (throw_invalid-IsInvalid (codes "bad hashcash date: " ++ six y m d))
]

-- The first test of ParseYyMmDd leaves nothing for std::stoi to fail on.
parse_yy_mm_dd-FailsInvalid : (s : Bytes) → FailsInvalid (parse_yy_mm_dd s)
unfolding parse_yy_mm_dd
parse_yy_mm_dd-FailsInvalid s = elim (Bool-cases (length s == 6)) [
  | inr e ↦ rw e (throw_invalid-IsInvalid (codes "bad hashcash date: " ++ s))
  | inl e ↦ elim (Bool-cases (all_digits s)) [
    | inr e' ↦ rw (e, e') (throw_invalid-IsInvalid (codes "bad hashcash date: " ++ s))
    | inl e' ↦
        let (y, m, d, hy, hm, hd, same) = six_of s ((==_iff (length s) 6).0 e) e' in
        rw same (parse_six-FailsInvalid y m d hy hm hd)
  ]
]

then_two :
    (r : Result ℤ) (claimed : ℤ × ℕ)
    → (r >>= λ bits. ok (bits, 2)) ≡ ok claimed
    → claimed ≡ (claimed.0, 2)
then_two (ok bits) claimed h = sym (ok-injective h) ∙ ap (λ (c : ℤ × ℕ). (c.0, 2)) (ok-injective h)
then_two (err e) claimed h = absurd (cc)

module _ (token : Bytes) (parts : List Bytes) where
  parse_rest-FailsInvalid :
      (version claimed : ℤ) (idx : ℕ)
      → idx + 2 < length parts
      → FailsInvalid (parse_rest token parts version (claimed, idx))
  unfolding parse_rest
  parse_rest-FailsInvalid version claimed idx there =
      FailsInvalid->>= (part_at parts idx) _ (part_at-FailsInvalid idx parts (omega arith))
        (λ date_str _.
          FailsInvalid->>= (parse_yy_mm_dd date_str) _ (parse_yy_mm_dd-FailsInvalid date_str)
            (λ date _.
              FailsInvalid->>= (part_at parts (idx + 1)) _
                (part_at-FailsInvalid (idx + 1) parts (omega arith))
                (λ resource _.
                  FailsInvalid->>= (part_at parts (idx + 2)) _
                    (part_at-FailsInvalid (idx + 2) parts there) (λ ext_str _. tt))))

  parse_as-FailsInvalid : (version : ℤ) → FailsInvalid (parse_as token parts version)
  unfolding parse_as expected_parts claimed_bits
  parse_as-FailsInvalid (pos zero) =
      FailsInvalid-throw_if (not (length parts % 2 ^ 32 == 6)) (codes "improperly formed hashcash")
        _ (λ fine. parse_rest-FailsInvalid (pos 0) (pos 0) 1 (ground (arith, fine)))
  parse_as-FailsInvalid (pos (suc zero)) =
      FailsInvalid-throw_if (not (length parts % 2 ^ 32 == 7)) (codes "improperly formed hashcash")
        _
        (λ fine.
          FailsInvalid->>= (claimed_bits (pos 1) parts) _
            (FailsInvalid->>= (or_invalid (codes "bad hashcash bits") (read_bits parts)) _
              (or_invalid-FailsInvalid (codes "bad hashcash bits") (read_bits parts))
              (λ bits _. tt))
            (λ claimed e.
              rw (then_two (or_invalid (codes "bad hashcash bits") (read_bits parts)) claimed e)
                (parse_rest-FailsInvalid (pos 1) claimed.0 2 (ground (arith, fine)))))
  parse_as-FailsInvalid (pos (suc (suc n))) =
      throw_invalid-IsInvalid (codes "only hashcash versions 0 and 1 are supported")
  parse_as-FailsInvalid (negsuc n) =
      throw_invalid-IsInvalid (codes "only hashcash versions 0 and 1 are supported")

  parse_parts-FailsInvalid : FailsInvalid (parse_parts token parts)
  unfolding parse_parts
  parse_parts-FailsInvalid =
      FailsInvalid->>= (or_invalid (codes "bad hashcash version") (read_version parts)) _
        (or_invalid-FailsInvalid (codes "bad hashcash version") (read_version parts))
        (λ version _. parse_as-FailsInvalid version)

-- Every failure of Parse is an RaException of the kind Invalid: no exception of std::stoi or of
-- at() leaves it.
pub parse-IsInvalid : (token : Bytes) (e : Error) → parse token ≡ err e → IsInvalid e
unfolding parse
parse-IsInvalid token e h =
    failed (parse token) (parse_parts-FailsInvalid token (split_on b':' token)) h
  where
    failed : (r : Result HashCash) → FailsInvalid r → r ≡ err e → IsInvalid e
    failed (ok h) fine same = absurd (cc)
    failed (err x) fine same = subst IsInvalid (cc) fine
