-- ===== src/Crypto/HashCash/Accepts.antt =====
-- What Parse of class HashCash accepts.
use ra_common_cpp.Base.{
  ℕ, zero, suc, ◌+◌, ◌≡◌, refl, Bool, true, false, inl, inr, ◌⊎◌, List, [], ◌∷◌, Bytes, codes, All,
  Lacks, ok-injective, Result, ok, err, throw_if, throw_invalid, ◌>>=◌, ◌>>◌, arith,
}
use mathlib.Core.Path.{subst}
use ra_common_cpp.Std.Numbers.{ℤ, pos, negsuc}
use ra_common_cpp.Crypto.HashCash.Bits.{leading_zero_bits}
use ra_common_cpp.Crypto.HashCash.Dates.{parse_yy_mm_dd}
use ra_common_cpp.Crypto.HashCash.Dates.RoundTrip.{InCentury, parse_yy_mm_dd-InCentury}
use ra_common_cpp.Crypto.HashCash.Extensions.{deserialize_extensions}
use ra_common_cpp.Crypto.HashCash.Split.{split_on, split_on-Lacks}
use ra_common_cpp.Crypto.HashCash.Tokens.{
  HashCash, exceeds, part_at, or_invalid, read_version, read_bits, expected_parts, claimed_bits,
  smaller, parsed_value, parse_rest, parse_as, parse_parts, parse, computed_bits,
}
use ra_common_cpp.Crypto.HashCash.Work.{sha1_bits}

-- A result that is a value has the property.
abbrev Ensures : {A : Type 0} → (A → Type 0) → Result A → Type 0
Ensures P (ok a) = P a
Ensures P (err e) = Unit {0}

module _ {A B : Type 0} (Q : A → Type 0) (P : B → Type 0) where
  Ensures->>= :
      (m : Result A) (next : A → Result B)
      → Ensures Q m
      → ((a : A) → Q a → Ensures P (next a))
      → Ensures P (m >>= next)
  Ensures->>= (ok a) next q f = f a q
  Ensures->>= (err e) next q f = tt

Ensures-Anything : {A : Type 0} (m : Result A) → Ensures (λ a. Unit {0}) m
Ensures-Anything (ok a) = tt
Ensures-Anything (err e) = tt

Ensures-found :
    {A : Type 0} (P : A → Type 0) (m : Result A) → ((a : A) → m ≡ ok a → P a) → Ensures P m
Ensures-found P (ok a) f = f a refl
Ensures-found P (err e) f = tt

Ensures-ok : {A : Type 0} (P : A → Type 0) (m : Result A) (a : A) → Ensures P m → m ≡ ok a → P a
Ensures-ok P (ok b) a h e = subst P (ok-injective e) h
Ensures-ok P (err x) a h e = absurd (cc)

Ensures-throw_if :
    {B : Type 0} (P : B → Type 0) (test : Bool) (message : Bytes) (m : Result B)
    → Ensures P m
    → Ensures P (throw_if test (throw_invalid message) >> m)
Ensures-throw_if P true message m h = tt
Ensures-throw_if P false message m h = h

abbrev pub IsSupported : ℤ → Type 0
IsSupported version = (version ≡ pos 0) ⊎ (version ≡ pos 1)

expected_parts-IsSupported :
    (version : ℤ) → Ensures (λ n. IsSupported version) (expected_parts version)
unfolding expected_parts
expected_parts-IsSupported (pos zero) = inl refl
expected_parts-IsSupported (pos (suc zero)) = inr refl
expected_parts-IsSupported (pos (suc (suc n))) = tt
expected_parts-IsSupported (negsuc n) = tt

part_at-Lacks :
    (c i : ℕ) (parts : List Bytes) → All (Lacks c) parts → Ensures (Lacks c) (part_at parts i)
unfolding part_at
part_at-Lacks c i [] h = tt
part_at-Lacks c zero (part ∷ parts) h = h.0
part_at-Lacks c (suc i) (part ∷ parts) h = part_at-Lacks c i parts h.1

parse_yy_mm_dd-Ensures : (s : Bytes) → Ensures (InCentury s) (parse_yy_mm_dd s)
parse_yy_mm_dd-Ensures s =
    Ensures-found (InCentury s) (parse_yy_mm_dd s) (parse_yy_mm_dd-InCentury s)

-- The value is what the digest shows, or what is claimed if that is less.
not_overstated :
    (version : ℤ) (actual : ℕ) (claimed : ℤ)
    → exceeds (parsed_value version actual claimed) actual ≡ false
unfolding exceeds parsed_value smaller
not_overstated (pos zero) actual claimed = ground arith
not_overstated (pos (suc n)) actual (pos claimed) = ground arith
not_overstated (pos (suc n)) actual (negsuc claimed) = refl
not_overstated (negsuc n) actual (pos claimed) = ground arith
not_overstated (negsuc n) actual (negsuc claimed) = refl

-- Where the date stands among the parts.
abbrev pub date_place : ℤ → ℕ
date_place (pos zero) = 1
date_place version = 2

-- The resource stands behind the date, and the extensions behind the resource.
pub record Accepted (token : Bytes) (h : HashCash) : Type 0 where
  pub keeps_token : h.token ≡ token
  pub is_supported : IsSupported h.version
  pub value_is_shown : exceeds h.value (computed_bits h) ≡ false
  pub resource_lacks : Lacks b':' h.resource
  pub is_resource : part_at (split_on b':' token) (date_place h.version + 1) ≡ ok h.resource
  pub ext_str : Bytes
  pub is_ext_str : part_at (split_on b':' token) (date_place h.version + 2) ≡ ok ext_str
  pub has_extensions : h.extensions ≡ deserialize_extensions ext_str
  pub date_str : Bytes
  pub is_date_str : part_at (split_on b':' token) (date_place h.version) ≡ ok date_str
  pub in_century : InCentury date_str h.date

abbrev Anything : {A : Type 0} → A → Type 0
Anything a = Unit {0}

claimed_bits-place :
    (version : ℤ) (parts : List Bytes)
    → IsSupported version
    → Ensures (λ (c : ℤ × ℕ). c.1 ≡ date_place version) (claimed_bits version parts)
unfolding claimed_bits
claimed_bits-place (pos zero) parts s = refl
claimed_bits-place (pos (suc zero)) parts s =
    Ensures->>= Anything (λ (c : ℤ × ℕ). c.1 ≡ 2)
      (or_invalid (codes "bad hashcash bits") (read_bits parts)) _ (Ensures-Anything _)
      (λ bits _. refl)
claimed_bits-place (pos (suc (suc n))) parts (inl e) = absurd (cc)
claimed_bits-place (pos (suc (suc n))) parts (inr e) = absurd (cc)
claimed_bits-place (negsuc n) parts (inl e) = absurd (cc)
claimed_bits-place (negsuc n) parts (inr e) = absurd (cc)

module _ (token : Bytes) (h : All (Lacks b':') (split_on b':' token)) where
  abbrev parts : List Bytes
  parts = split_on b':' token

  -- A part that was read, and which one it is.
  abbrev Part : ℕ → Bytes → Type 0
  Part i part = (part_at parts i ≡ ok part) × Lacks b':' part

  part_at-Part : (i : ℕ) → Ensures (Part i) (part_at parts i)
  part_at-Part i = Ensures-found (Part i) (part_at parts i) (λ part e.
      (e, Ensures-ok (Lacks b':') (part_at parts i) part (part_at-Lacks b':' i parts h) e))

  parse_rest-Accepted :
      (version claimed : ℤ) (idx : ℕ)
      → IsSupported version
      → idx ≡ date_place version
      → Ensures (Accepted token) (parse_rest token parts version (claimed, idx))
  unfolding parse_rest computed_bits leading_zero_bits
  parse_rest-Accepted version claimed idx supported place =
      Ensures->>= (Part idx) (Accepted token) (part_at parts idx) _ (part_at-Part idx)
        (λ date_str date_part.
          Ensures->>= (InCentury date_str) (Accepted token) (parse_yy_mm_dd date_str) _
            (parse_yy_mm_dd-Ensures date_str)
            (λ date century.
              Ensures->>= (Part (idx + 1)) (Accepted token) (part_at parts (idx + 1)) _
                (part_at-Part (idx + 1))
                (λ resource resource_part.
                  Ensures->>= (Part (idx + 2)) (Accepted token) (part_at parts (idx + 2)) _
                    (part_at-Part (idx + 2))
                    (λ ext_str ext_part. record {
                      keeps_token = refl;
                      is_supported = supported;
                      value_is_shown = not_overstated version (sha1_bits token) claimed;
                      resource_lacks = resource_part.1;
                      is_resource = rw (← place) resource_part.0;
                      ext_str = ext_str;
                      is_ext_str = rw (← place) ext_part.0;
                      has_extensions = refl;
                      date_str = date_str;
                      is_date_str = rw (← place) date_part.0;
                      in_century = century;
                    }))))

  parse_as-Accepted : (version : ℤ) → Ensures (Accepted token) (parse_as token parts version)
  unfolding parse_as
  parse_as-Accepted version =
      Ensures->>= (λ n. IsSupported version) (Accepted token) (expected_parts version) _
        (expected_parts-IsSupported version)
        (λ expected supported.
          Ensures-throw_if (Accepted token) _ (codes "improperly formed hashcash") _ (
            Ensures->>= (λ (c : ℤ × ℕ). c.1 ≡ date_place version) (Accepted token)
              (claimed_bits version parts) _ (claimed_bits-place version parts supported)
              (λ claimed place. parse_rest-Accepted version claimed.0 claimed.1 supported place)))

  parse_parts-Accepted : Ensures (Accepted token) (parse_parts token parts)
  unfolding parse_parts
  parse_parts-Accepted =
      Ensures->>= Anything (Accepted token)
        (or_invalid (codes "bad hashcash version") (read_version parts)) _ (Ensures-Anything _)
        (λ version _. parse_as-Accepted version)

-- A token that Parse accepts is kept as it is, has version 0 or 1, a value that is not above its
-- computed bits, and a date, a resource and extensions that come from its parts: the part that
-- follows the version, or the bits in version 1, is what FmtYyMmDd writes of the date, which is a
-- valid one of the years 2000 to 2099; the next part is the resource, which has no colon; and
-- DeserializeExtensions reads the extensions from the part behind that.
pub parse-Accepted : (token : Bytes) (h : HashCash) → parse token ≡ ok h → Accepted token h
unfolding parse
parse-Accepted token h e =
    Ensures-ok (Accepted token) (parse token) h
      (parse_parts-Accepted token (split_on-Lacks b':' token)) e
