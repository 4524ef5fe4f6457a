-- ===== src/Crypto/HashCash/Mint.antt =====
-- The tokens of MintWith of class HashCash, part by part as Parse reads them.
use ra_common_cpp.Base.{
  ℕ, zero, suc, ◌+◌, ◌≤◌, ◌<◌, ◌≡◌, refl, ap, sym, ◌∙◌, true, false, List, [], ◌∷◌, ◌++◌,
  append_assoc, append-nil, Bytes, codes, Lacks, ok, arith,
}
use ra_common_cpp.Std.Numbers.{ℤ, pos, negsuc, stoi, signed_to_string}
use ra_common_cpp.Std.Numbers.Decimal.{IsInt32, stoi-signed_to_string, signed_to_string-Lacks}
use ra_common_cpp.Crypto.HashCash.Dates.{YearMonthDay, fmt_yy_mm_dd, parse_yy_mm_dd, date_ok}
use ra_common_cpp.Crypto.HashCash.Dates.RoundTrip.{
  century_date, parse_yy_mm_dd-fmt, fmt_yy_mm_dd-Lacks,
}
use ra_common_cpp.Crypto.HashCash.Digits.{hex_bytes-Lacks, hex_number-Lacks}
use ra_common_cpp.Crypto.HashCash.Extensions.{
  Extensions, is_one_of, has_any, deserialize_extensions,
}
use ra_common_cpp.Crypto.HashCash.Extensions.Keys.{has_any-Lacks}
use ra_common_cpp.Crypto.HashCash.Split.{split_on, join, join_more, split_on-join}
use ra_common_cpp.Crypto.HashCash.Tokens.{
  HashCash, prefix_of, minted_value, part_at, or_invalid, read_version, read_bits, expected_parts,
  claimed_bits, smaller, parsed_value, parse_rest, parse_as, parse_parts, parse,
}
use ra_common_cpp.Crypto.HashCash.Work.{sha1_bits, reaches, hex_bytes, hex_number, candidate}

module _ (bits date resource ext rnd hex : Bytes) where
  abbrev parts_0 : List Bytes
  parts_0 = codes "0" ∷ date ∷ resource ∷ ext ∷ rnd ∷ hex ∷ []

  abbrev parts_1 : List Bytes
  parts_1 = codes "1" ∷ bits ∷ date ∷ resource ∷ ext ∷ rnd ∷ hex ∷ []

  token_0 :
      ((codes "0:" ++ (date ++ b':' ∷ (resource ++ b':' ∷ (ext ++ codes ":"))))
          ++ (rnd ++ codes ":"))
        ++ hex
      ≡ join b':' parts_0
  unfolding join join_more
  token_0 = simp (append_assoc, append-nil) refl

  token_1 :
      ((codes "1:" ++ (bits ++ b':' ∷ (date ++ b':' ∷ (resource ++ b':' ∷ (ext ++ codes ":")))))
          ++ (rnd ++ codes ":"))
        ++ hex
      ≡ join b':' parts_1
  unfolding join join_more
  token_1 = simp (append_assoc, append-nil) refl

smaller-reaches : (actual : ℕ) (bits : ℤ) → reaches actual bits ≡ true → smaller actual bits ≡ bits
unfolding reaches smaller
smaller-reaches actual (pos bits) h = ap pos (ground arith)
smaller-reaches actual (negsuc n) h = refl

module _ (token date resource ext rnd hex : Bytes) (d : YearMonthDay)
    (extensions : Extensions) where
  module _ (reads_date : parse_yy_mm_dd date ≡ ok d)
      (reads_ext : deserialize_extensions ext ≡ extensions) where
    parse_parts_0 :
        parse_parts token (parts_0 [] date resource ext rnd hex)
        ≡ ok (record {
          token = token;
          value = pos (sha1_bits token);
          resource = resource;
          date = d;
          version = pos 0;
          extensions = extensions;
        })
    unfolding parse_parts parse_as parse_rest stoi read_version part_at or_invalid expected_parts
        claimed_bits parsed_value
    parse_parts_0 = rw (reads_date, reads_ext) refl

    parse_parts_1 :
        (bits : ℤ)
        → IsInt32 bits
        → reaches (sha1_bits token) bits ≡ true
        → parse_parts token (parts_1 (signed_to_string bits) date resource ext rnd hex)
          ≡ ok (record {
            token = token;
            value = bits;
            resource = resource;
            date = d;
            version = pos 1;
            extensions = extensions;
          })
    unfolding parse_parts parse_as parse_rest stoi read_version part_at or_invalid expected_parts
        claimed_bits parsed_value read_bits
    parse_parts_1 bits small enough =
        rw
          (
            stoi-signed_to_string bits small,
            reads_date,
            reads_ext,
            smaller-reaches (sha1_bits token) bits enough,
          )
          refl

-- What all candidates of a token begin with.
abbrev pub stem_of : ℕ → ℤ → YearMonthDay → Bytes → Bytes → Bytes → Bytes
stem_of version bits date resource text rnd =
    prefix_of (pos version) bits (fmt_yy_mm_dd date) resource text ++ (hex_bytes rnd ++ codes ":")

abbrev pub hash_cash_of : ℕ → ℤ → YearMonthDay → Bytes → Extensions → Bytes → HashCash
hash_cash_of version bits date resource extensions token = record {
  token = token;
  value = minted_value (pos version) bits token;
  resource = resource;
  date = date;
  version = pos version;
  extensions = extensions;
}

module _ (resource text : Bytes) (y m d : ℕ) (bits : ℤ) (extensions : Extensions) where
  module _ (no_colon : has_any (codes ":") resource ≡ false) (text_no_colon : Lacks b':' text)
      (reads_text : deserialize_extensions text ≡ extensions) (this_century : y < 100)
      (is_date : date_ok (2000 + y) m d ≡ true) (small : IsInt32 bits) where
    abbrev written : YearMonthDay
    written = century_date y m d

    lacks : Lacks b':' resource
    unfolding is_one_of
    lacks = has_any-Lacks (codes ":") resource b':' refl no_colon

    date-Lacks : Lacks b':' (fmt_yy_mm_dd written)
    date-Lacks = fmt_yy_mm_dd-Lacks b':' y m d (omega arith) this_century is_date

    pub parse-candidate :
        (version : ℕ) (rnd : Bytes) (n : ℕ) (token : Bytes)
        → version ≤ 1
        → candidate (stem_of version bits written resource text rnd) n ≡ token
        → reaches (sha1_bits token) bits ≡ true
        → parse token ≡ ok (hash_cash_of version bits written resource extensions token)
    unfolding parse candidate prefix_of minted_value
    parse-candidate zero rnd n token one same enough =
        let hex : Bytes = hex_number 16 n [] in
        let e : token
            ≡ join b':' (parts_0 [] (fmt_yy_mm_dd written) resource text (hex_bytes rnd) hex) =
          sym same ∙ token_0 [] (fmt_yy_mm_dd written) resource text (hex_bytes rnd) hex in
        ap (λ t. parse_parts token (split_on b':' t)) e
        ∙ ap (parse_parts token) (
            split_on-join b':' (codes "0")
              (fmt_yy_mm_dd written ∷ resource ∷ text ∷ hex_bytes rnd ∷ hex ∷ [])
              (
                omega arith,
                (
                  date-Lacks,
                  (
                    lacks,
                    (text_no_colon, (hex_bytes-Lacks rnd, (hex_number-Lacks 16 n [] tt, tt))),
                  ),
                ),
              ))
        ∙ parse_parts_0 token (fmt_yy_mm_dd written) resource text (hex_bytes rnd) hex written
            extensions (parse_yy_mm_dd-fmt y m d this_century is_date) reads_text
    parse-candidate (suc zero) rnd n token one same enough =
        let hex : Bytes = hex_number 16 n [] in
        let e : token
            ≡ join b':' (
                parts_1 (signed_to_string bits) (fmt_yy_mm_dd written) resource text (hex_bytes rnd)
                  hex) =
          sym same
          ∙ token_1 (signed_to_string bits) (fmt_yy_mm_dd written) resource text (hex_bytes rnd)
              hex in
        ap (λ t. parse_parts token (split_on b':' t)) e
        ∙ ap (parse_parts token) (
            split_on-join b':' (codes "1")
              (signed_to_string bits
                ∷ fmt_yy_mm_dd written
                ∷ resource
                ∷ text
                ∷ hex_bytes rnd
                ∷ hex
                ∷ [])
              (
                omega arith,
                (
                  signed_to_string-Lacks b':' bits (omega arith),
                  (
                    date-Lacks,
                    (
                      lacks,
                      (text_no_colon, (hex_bytes-Lacks rnd, (hex_number-Lacks 16 n [] tt, tt))),
                    ),
                  ),
                ),
              ))
        ∙ parse_parts_1 token (fmt_yy_mm_dd written) resource text (hex_bytes rnd) hex written
            extensions (parse_yy_mm_dd-fmt y m d this_century is_date) reads_text bits small enough
    parse-candidate (suc (suc k)) rnd n token one same enough = absurd (omega arith)
