-- ===== src/Encoding/Base58/RoundTrip.antt =====
-- The texts of Base58Encode and Base58Decode.
use mathlib.Core.List.{reverse, reverse-cons, reverse-reverse}
use ra_common_cpp.Base.{
  ℕ, zero, suc, ◌+◌, ◌*◌, ◌<◌, ◌≡◌, ◌≢◌, refl, ap, ap₂, sym, ◌∙◌, Bool, true, false, not, ◌&&◌,
  ◌||◌, inl, inr, Bool-cases, List, [], ◌∷◌, ◌++◌, map, Option, none, some, Bytes, All, IsBytes,
  All-append, get_or, replicate, holds_below, holds_below→, ==_iff, ◌==◌, ok, arith,
}
use ra_common_cpp.Encoding.Base58.{
  alphabet_58, base58_digits, leading, base58_encode, index_of, push_digit, base58_bytes,
  base58_decode,
}
use ra_common_cpp.Encoding.Base58.Values.{value, number_from, base58_digits_lem, value-push_digit}
use ra_common_cpp.Encoding.Base58.Canonical.{
  IsCanonical, canonical_unique, base58_digits-IsCanonical, push_digit-IsCanonical,
}

abbrev letter : ℕ → ℕ
letter d = get_or alphabet_58 d 0

is_index : Option ℕ → ℕ → Bool
is_index none d = false
is_index (some i) d = i == d

is_index→eq : (o : Option ℕ) (d : ℕ) → is_index o d ≡ true → o ≡ some d
unfolding is_index
is_index→eq none d h = cc
is_index→eq (some i) d h = ground arith

alphabet_table :
    holds_below 58
      (λ d. is_index (index_of (letter d) alphabet_58) d && (not (letter d == b'1') || d == 0))
    ≡ true
unfolding holds_below is_index index_of
alphabet_table = refl

letter_at :
    (d : ℕ) → d < 58 → (index_of (letter d) alphabet_58 ≡ some d) × (0 < d → letter d ≢ b'1')
letter_at d h =
    ground
      (arith, holds_below→ 58 _ alphabet_table d h, is_index→eq (index_of (letter d) alphabet_58) d)

-- The vector after the digits of a text.
push_digits : Bytes → List ℕ → Bytes
push_digits bytes [] = bytes
push_digits bytes (d ∷ ds) = push_digits (push_digit bytes d) ds

base58_bytes-letters :
    (bytes : Bytes) (ds : List ℕ)
    → All (λ d. d < 58) ds
    → base58_bytes bytes (map letter ds) ≡ ok (push_digits bytes ds)
unfolding base58_bytes push_digits
base58_bytes-letters bytes [] h = refl
base58_bytes-letters bytes (d ∷ ds) h =
    rw ((letter_at d h.0).0, base58_bytes) (base58_bytes-letters (push_digit bytes d) ds h.1)

value-push_digits :
    (bytes : Bytes) (ds : List ℕ)
    → value 256 (push_digits bytes ds) ≡ number_from 58 (value 256 bytes) ds
unfolding push_digits
value-push_digits bytes [] = refl
value-push_digits bytes (d ∷ ds) =
    value-push_digits (push_digit bytes d) ds
    ∙ ap (λ n. number_from 58 n ds) (value-push_digit bytes d)

push_digits-IsCanonical :
    (bytes : Bytes) (ds : List ℕ) → IsCanonical 256 bytes → IsCanonical 256 (push_digits bytes ds)
unfolding push_digits
push_digits-IsCanonical bytes [] h = h
push_digits-IsCanonical bytes (d ∷ ds) h =
    push_digits-IsCanonical (push_digit bytes d) ds (push_digit-IsCanonical bytes d h)

-- A zero in front of a number changes nothing, in either base.
base58_bytes-ones :
    (n : ℕ) (text : Bytes) → base58_bytes [] (replicate n b'1' ++ text) ≡ base58_bytes [] text
unfolding base58_bytes index_of push_digit
base58_bytes-ones zero text = refl
base58_bytes-ones (suc n) text = base58_bytes-ones n text

number_from-zeros :
    (base n : ℕ) (r : List ℕ) → number_from base 0 (replicate n 0 ++ r) ≡ number_from base 0 r
number_from-zeros base zero r = refl
number_from-zeros base (suc n) r =
    ap (λ k. number_from base k (replicate n 0 ++ r)) (let e : 0 * base + 0 ≡ 0 = omega arith in e)
    ∙ number_from-zeros base n r

number_from-last :
    (base n : ℕ) (xs : List ℕ) (d : ℕ)
    → number_from base n (xs ++ d ∷ []) ≡ number_from base n xs * base + d
number_from-last base n [] d = refl
number_from-last base n (x ∷ xs) d = number_from-last base (n * base + x) xs d

-- Read from the other end.
number_from-reverse : (base : ℕ) (ds : List ℕ) → number_from base 0 (reverse ds) ≡ value base ds
number_from-reverse base [] = refl
number_from-reverse base (d ∷ ds) =
    ap (number_from base 0) (reverse-cons d ds)
    ∙ number_from-last base 0 (reverse ds) d
    ∙ rw (number_from-reverse base ds) (omega arith)

All-reverse : (n : ℕ) (xs : List ℕ) → All (λ b. b < n) xs → All (λ b. b < n) (reverse xs)
All-reverse n [] h = tt
All-reverse n (x ∷ xs) h =
    rw (reverse-cons x xs)
      (All-append (λ b. b < n) (reverse xs) (x ∷ []) (All-reverse n xs h.1) (h.0, tt))

value-last : (xs : Bytes) (b : ℕ) → 0 < b → 0 < value 256 (xs ++ b ∷ [])
value-last [] b pos = omega arith
value-last (x ∷ xs) b pos = omega (arith, value-last xs b pos)

last-IsCanonical :
    (xs : Bytes) (b : ℕ) → IsBytes xs → 0 < b → b < 256 → IsCanonical 256 (xs ++ b ∷ [])
last-IsCanonical [] b h pos small = (small, omega arith, tt)
last-IsCanonical (x ∷ xs) b h pos small =
    let rest = last-IsCanonical xs b h.1 pos small in
    (h.0, omega (arith, value-last xs b pos), rest)

-- The zeros in front, and bytes that begin with none.
split_zeros :
    (bytes : Bytes)
    → IsBytes bytes
    → (rest : Bytes) × (bytes ≡ replicate (leading 0 bytes) 0 ++ rest)
      × IsCanonical 256 (reverse rest)
unfolding leading
split_zeros [] h = ([], refl, tt)
split_zeros (b ∷ bs) h = elim (Bool-cases (b == 0)) [
  | inl e ↦
      let (rest, split, canonical) = split_zeros bs h.1 in
      (rest, rw e (ap₂ (◌∷◌) ((==_iff b 0).0 e) split), canonical)
  | inr e ↦ (
    b ∷ bs,
    rw e refl,
    rw (reverse-cons b bs)
        (last-IsCanonical (reverse bs) b (All-reverse 256 bs h.1) (ground (arith, e)) h.0),
  )
]

-- Canonical digits begin, read from the other end, with a digit that is not 0.
top_first :
    (d : ℕ) (ds : List ℕ)
    → IsCanonical 58 (d ∷ ds)
    → (top : ℕ) × (rest : List ℕ) × (reverse (d ∷ ds) ≡ top ∷ rest) × (0 < top) × (top < 58)
top_first d [] h = (d, [], refl, omega (arith, h.1), h.0)
top_first d (e ∷ ds) h =
    let (top, rest, same, pos, small) = top_first e ds h.2 in
    (top, rest ++ d ∷ [], reverse-cons d (e ∷ ds) ∙ ap (λ t. t ++ d ∷ []) same, pos, small)

no_one_letter :
    (top : ℕ) (rest : List ℕ) → 0 < top → top < 58 → leading b'1' (map letter (top ∷ rest)) ≡ 0
unfolding leading
no_one_letter top rest pos small = ground (arith, (letter_at top small).1 pos)

no_one_first : (D : List ℕ) → IsCanonical 58 D → leading b'1' (map letter (reverse D)) ≡ 0
unfolding leading
no_one_first [] h = refl
no_one_first (d ∷ ds) h =
    let (top, rest, same, pos, small) = top_first d ds h in
    ap (λ t. leading b'1' (map letter t)) same ∙ no_one_letter top rest pos small

leading-ones :
    (n : ℕ) (text : Bytes) → leading b'1' (replicate n b'1' ++ text) ≡ n + leading b'1' text
unfolding leading
leading-ones zero text = omega arith
leading-ones (suc n) text = omega (arith, leading-ones n text)

module _ (bytes : Bytes) (h : IsBytes bytes) where
  abbrev digits : List ℕ
  digits = reverse (base58_digits [] bytes)

  abbrev zeros : ℕ
  zeros = leading 0 bytes

  digits-lt : All (λ d. d < 58) digits
  digits-lt = All-reverse 58 (base58_digits [] bytes) (base58_digits_lem bytes).1

  decoded : base58_bytes [] (base58_encode bytes) ≡ ok (push_digits [] digits)
  unfolding base58_encode
  decoded = base58_bytes-ones zeros (map letter digits) ∙ base58_bytes-letters [] digits digits-lt

  ones : leading b'1' (base58_encode bytes) ≡ zeros
  unfolding base58_encode
  ones =
      leading-ones zeros (map letter digits)
      ∙ ap (◌+◌ zeros)
          (no_one_first (base58_digits [] bytes) (base58_digits-IsCanonical [] bytes tt))
      ∙ omega arith

  -- The decoded vector stands for the number of the bytes.
  same_number : value 256 (push_digits [] digits) ≡ number_from 256 0 bytes
  same_number =
      value-push_digits [] digits
      ∙ number_from-reverse 58 (base58_digits [] bytes)
      ∙ (base58_digits_lem bytes).0

  without_zeros :
      (rest : Bytes)
      → bytes ≡ replicate zeros 0 ++ rest
      → IsCanonical 256 (reverse rest)
      → reverse (push_digits [] digits) ≡ rest
  without_zeros rest split canonical =
      ap reverse (
        canonical_unique (push_digits [] digits) (reverse rest)
          (push_digits-IsCanonical [] digits tt) canonical
          (same_number
            ∙ ap (number_from 256 0) split
            ∙ number_from-zeros 256 zeros rest
            ∙ ap (number_from 256 0) (sym (reverse-reverse rest))
            ∙ number_from-reverse 256 (reverse rest)))
      ∙ reverse-reverse rest

  -- Base58Decode gives back the bytes that Base58Encode was given, zeros in front included.
  pub base58_decode-encode : base58_decode (base58_encode bytes) ≡ ok bytes
  unfolding base58_decode
  base58_decode-encode =
      let (rest, split, canonical) = split_zeros bytes h in
      rw (decoded, ones, without_zeros rest split canonical) (ap ok (sym split))
