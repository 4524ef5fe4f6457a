-- ===== src/Encoding/Base64/RoundTrip.antt =====
-- Base64Decode undoes Base64Encode.
use ra_common_cpp.Base.{
  ℕ, ◌+◌, ◌-◌, ◌*◌, ◌/◌, ◌%◌, ◌^◌, ◌<◌, ◌≡◌, refl, ap, ◌∙◌, [], ◌∷◌, ◌++◌, append_assoc, append-nil,
  true, false, ◌&&◌, not, some, bit_and, bit_or, Bytes, get_or, leb, IsBytes, holds_below,
  holds_below→, is_value, is_value→eq, if◌then◌else◌, ok, arith,
}
use ra_common_cpp.Base.Bits.{shl, or_disjoint, and_low}
use ra_common_cpp.Encoding.Base64.{
  alphabet, sextet_char, base64_encode, decode_char, is_skipped, decode_loop, base64_decode,
}

unfoldable pub digit : ℕ → ℕ
digit v = get_or alphabet v 0

alphabet_table :
    holds_below 64 (λ v. is_value (decode_char (digit v)) v && not (is_skipped (digit v))) ≡ true
unfolding holds_below digit decode_char is_skipped
alphabet_table = refl

alphabet_at : (v : ℕ) → v < 64 → (decode_char (digit v) ≡ some v) × (is_skipped (digit v) ≡ false)
alphabet_at v h =
    ground (arith, holds_below→ 64 _ alphabet_table v h, is_value→eq (decode_char (digit v)) v)

-- The buffer after six more bits.
shift_in : ℕ → ℕ → ℕ
shift_in buffer v = buffer % 2 ^ 26 * 64 + v

buffer_step : (buffer v : ℕ) → v < 64 → bit_or (shl 32 buffer 6) v ≡ shift_in buffer v
unfolding shift_in
buffer_step buffer v h =
    let e : shl 32 buffer 6 ≡ buffer % 2 ^ 26 * 2 ^ 6 = omega arith in
    rw e (or_disjoint 6 (buffer % 2 ^ 26) v h)

byte_mask : (n : ℕ) → bit_and n 0xff ≡ n % 256
byte_mask n = and_low 8 n

-- One character of the alphabet.
decode_digit :
    (v : ℕ) (text : Bytes) (buffer bits : ℕ) (out : Bytes)
    → v < 64
    → decode_loop (digit v ∷ text) buffer bits out ≡ (
        if leb 8 (bits + 6)
        then decode_loop text
            (shift_in buffer v)
            (bits + 6 - 8)
            (out ++ shift_in buffer v / 2 ^ (bits + 6 - 8) % 256 ∷ [])
        else decode_loop text (shift_in buffer v) (bits + 6) out)
unfolding decode_loop
decode_digit v text buffer bits out h =
    let (known, kept) = alphabet_at v h in rw (kept, known, buffer_step buffer v h, byte_mask) refl

-- Each byte is complete with its second, third and fourth character.
first_byte :
    (p q : ℕ) (text : Bytes) (buffer : ℕ) (out : Bytes)
    → p < 64
    → q < 64
    → decode_loop (digit p ∷ digit q ∷ text) buffer 0 out
      ≡ decode_loop text (shift_in (shift_in buffer p) q) 4 (out ++ (p * 4 + q / 16) ∷ [])
first_byte p q text buffer out hp hq =
    decode_digit p (digit q ∷ text) buffer 0 out hp
    ∙ decode_digit q text (shift_in buffer p) 6 out hq
    ∙ ap (λ b. decode_loop text (shift_in (shift_in buffer p) q) 4 (out ++ b ∷ [])) value
  where
    value : shift_in (shift_in buffer p) q / 16 % 256 ≡ p * 4 + q / 16
    value = unfold shift_in in omega arith

second_byte :
    (q r : ℕ) (text : Bytes) (buffer : ℕ) (out : Bytes)
    → q < 64
    → r < 64
    → decode_loop (digit r ∷ text) (shift_in buffer q) 4 out
      ≡ decode_loop text (shift_in (shift_in buffer q) r) 2 (out ++ (q % 16 * 16 + r / 4) ∷ [])
second_byte q r text buffer out hq hr =
    decode_digit r text (shift_in buffer q) 4 out hr
    ∙ ap (λ b. decode_loop text (shift_in (shift_in buffer q) r) 2 (out ++ b ∷ [])) value
  where
    value : shift_in (shift_in buffer q) r / 4 % 256 ≡ q % 16 * 16 + r / 4
    value = unfold shift_in in omega arith

third_byte :
    (r s : ℕ) (text : Bytes) (buffer : ℕ) (out : Bytes)
    → r < 64
    → s < 64
    → decode_loop (digit s ∷ text) (shift_in buffer r) 2 out
      ≡ decode_loop text (shift_in (shift_in buffer r) s) 0 (out ++ (r % 4 * 64 + s) ∷ [])
third_byte r s text buffer out hr hs =
    decode_digit s text (shift_in buffer r) 2 out hs
    ∙ ap (λ b. decode_loop text (shift_in (shift_in buffer r) s) 0 (out ++ b ∷ [])) value
  where
    value : shift_in (shift_in buffer r) s / 1 % 256 ≡ r % 4 * 64 + s
    value = unfold shift_in in omega arith

-- What the encoder writes, as digits.
sextet_at : (n k : ℕ) → sextet_char n k ≡ digit (n / 2 ^ k % 64)
unfolding sextet_char digit
sextet_at n k = ap (λ i. get_or alphabet i 0) (and_low 6 (n / 2 ^ k))

sextet : (n k v : ℕ) → n / 2 ^ k % 64 ≡ v → sextet_char n k ≡ digit v
sextet n k v e = sextet_at n k ∙ ap digit e

word_of_one : (a : ℕ) → a < 256 → shl 32 a 16 ≡ a * 65536
word_of_one a h = omega arith

word_of_two :
    (a b : ℕ) → a < 256 → b < 256 → bit_or (shl 32 a 16) (shl 32 b 8) ≡ (a * 256 + b) * 2 ^ 8
word_of_two a b ha hb =
    let eb : shl 32 b 8 ≡ b * 256 = omega arith in
    rw (word_of_one a ha, eb) (or_disjoint 16 a (b * 256) (omega arith) ∙ omega arith)

word_of_three :
    (a b c : ℕ)
    → a < 256
    → b < 256
    → c < 256
    → bit_or (bit_or (shl 32 a 16) (shl 32 b 8)) c ≡ (a * 256 + b) * 2 ^ 8 + c
word_of_three a b c ha hb hc = rw (word_of_two a b ha hb) (or_disjoint 8 (a * 256 + b) c hc)

pub encode_one :
    (a : ℕ)
    → a < 256
    → base64_encode (a ∷ []) ≡ digit (a / 4) ∷ digit (a % 4 * 16) ∷ b'=' ∷ b'=' ∷ []
unfolding base64_encode
encode_one a h =
    rw
      (
        word_of_one a h,
        sextet (a * 65536) 18 (a / 4) (omega arith),
        sextet (a * 65536) 12 (a % 4 * 16) (omega arith),
      )
      refl

pub encode_two :
    (a b : ℕ)
    → a < 256
    → b < 256
    → base64_encode (a ∷ b ∷ [])
      ≡ digit (a / 4) ∷ digit (a % 4 * 16 + b / 16) ∷ digit (b % 16 * 4) ∷ b'=' ∷ []
unfolding base64_encode
encode_two a b ha hb =
    rw
      (
        word_of_two a b ha hb,
        sextet ((a * 256 + b) * 2 ^ 8) 18 (a / 4) (omega arith),
        sextet ((a * 256 + b) * 2 ^ 8) 12 (a % 4 * 16 + b / 16) (omega arith),
        sextet ((a * 256 + b) * 2 ^ 8) 6 (b % 16 * 4) (omega arith),
      )
      refl

pub encode_three :
    (a b c : ℕ) (rest : Bytes)
    → a < 256
    → b < 256
    → c < 256
    → base64_encode (a ∷ b ∷ c ∷ rest)
      ≡ digit (a / 4)
        ∷ digit (a % 4 * 16 + b / 16)
        ∷ digit (b % 16 * 4 + c / 64)
        ∷ digit (c % 64)
        ∷ base64_encode rest
unfolding base64_encode
encode_three a b c rest ha hb hc =
    rw
      (
        word_of_three a b c ha hb hc,
        sextet ((a * 256 + b) * 2 ^ 8 + c) 18 (a / 4) (omega arith),
        sextet ((a * 256 + b) * 2 ^ 8 + c) 12 (a % 4 * 16 + b / 16) (omega arith),
        sextet ((a * 256 + b) * 2 ^ 8 + c) 6 (b % 16 * 4 + c / 64) (omega arith),
        sextet ((a * 256 + b) * 2 ^ 8 + c) 0 (c % 64) (omega arith),
      )
      refl

-- The bytes that two and three rounds append.
append_two :
    (out : Bytes) {a b x y : ℕ} → x ≡ a → y ≡ b → (out ++ x ∷ []) ++ y ∷ [] ≡ out ++ a ∷ b ∷ []
append_two out ea eb = rw (ea, eb) (append_assoc out _ _)

append_three :
    (out rest : Bytes) {a b c x y z : ℕ}
    → x ≡ a
    → y ≡ b
    → z ≡ c
    → (((out ++ x ∷ []) ++ y ∷ []) ++ z ∷ []) ++ rest ≡ out ++ a ∷ b ∷ c ∷ rest
append_three out rest ea eb ec = rw (ea, eb, ec) (simp append_assoc)

decode-encode :
    (bytes : Bytes) (buffer : ℕ) (out : Bytes)
    → IsBytes bytes
    → decode_loop (base64_encode bytes) buffer 0 out ≡ ok (out ++ bytes)
decode-encode [] buffer out h = rw append-nil (unfold decode_loop base64_encode in refl)
decode-encode (a ∷ []) buffer out h = rw (encode_one a h.0) (
    first_byte (a / 4) (a % 4 * 16) (b'=' ∷ b'=' ∷ []) buffer out (omega arith) (omega arith)
    ∙ unfold decode_loop is_skipped in
      ap (λ v. ok (out ++ v ∷ [])) (let e : a / 4 * 4 + a % 4 * 16 / 16 ≡ a = omega arith in e))
decode-encode (a ∷ b ∷ []) buffer out h = rw (encode_two a b h.0 h.1.0) (
    first_byte (a / 4) (a % 4 * 16 + b / 16) (digit (b % 16 * 4) ∷ b'=' ∷ []) buffer out
      (omega arith) (omega arith)
    ∙ second_byte (a % 4 * 16 + b / 16) (b % 16 * 4) (b'=' ∷ []) (shift_in buffer (a / 4))
        (out ++ (a / 4 * 4 + (a % 4 * 16 + b / 16) / 16) ∷ []) (omega arith) (omega arith)
    ∙ unfold decode_loop is_skipped in ap ok (append_two out (omega arith) (omega arith)))
decode-encode (a ∷ b ∷ c ∷ rest) buffer out h =
    let p = a / 4 in
    let q = a % 4 * 16 + b / 16 in
    let r = b % 16 * 4 + c / 64 in
    let s = c % 64 in
    rw (encode_three a b c rest h.0 h.1.0 h.1.1.0) (
      first_byte p q (digit r ∷ digit s ∷ base64_encode rest) buffer out (omega arith) (omega arith)
      ∙ second_byte q r (digit s ∷ base64_encode rest) (shift_in buffer p)
          (out ++ (p * 4 + q / 16) ∷ []) (omega arith) (omega arith)
      ∙ third_byte r s (base64_encode rest) (shift_in (shift_in buffer p) q)
          ((out ++ (p * 4 + q / 16) ∷ []) ++ (q % 16 * 16 + r / 4) ∷ []) (omega arith) (omega arith)
      ∙ decode-encode rest (shift_in (shift_in (shift_in (shift_in buffer p) q) r) s) _ h.1.1.1
      ∙ ap ok (append_three out rest (omega arith) (omega arith) (omega arith)))

-- Base64Decode gives back the bytes that Base64Encode was given, for any list of bytes.
pub base64_decode-encode :
    (bytes : Bytes) → IsBytes bytes → base64_decode (base64_encode bytes) ≡ ok bytes
unfolding base64_decode
base64_decode-encode bytes h = decode-encode bytes 0 [] h
