-- ===== src/Examples/HashCash.antt =====
-- Hashcash tokens, and the theorems on them at concrete inputs.
use ra_common_cpp.Base.{
  ◌-◌, ◌^◌, ◌≤◌, ◌<◌, ◌≡◌, ◌↔◌, refl, true, false, [], ◌∷◌, Bytes, codes, replicate, ok, err,
  thrown, ra_exception, RaErrorKind, arith,
}
use ra_common_cpp.Std.Json.{less}
use ra_common_cpp.Std.Numbers.{pos, negsuc, stoi, signed_to_string}
use ra_common_cpp.Crypto.Sha.{words_to_bytes}
use ra_common_cpp.Crypto.Sha.Sha1.{sha1, sha1_state}
use ra_common_cpp.Crypto.HashCash.Accepts.{Accepted, parse-Accepted}
use ra_common_cpp.Crypto.HashCash.Bits.{leading_zero_bits, number_of, leading_zero_bits_lem}
use ra_common_cpp.Crypto.HashCash.Dates.{fmt_yy_mm_dd, parse_yy_mm_dd, date_ok}
use ra_common_cpp.Crypto.HashCash.Dates.RoundTrip.{century_date}
use ra_common_cpp.Crypto.HashCash.Extensions.{
  Extensions, has_any, serialize_extensions, deserialize_extensions,
}
use ra_common_cpp.Crypto.HashCash.Extensions.RoundTrip.{deserialize_extensions-serialize}
use ra_common_cpp.Crypto.HashCash.Mint.{stem_of}
use ra_common_cpp.Crypto.HashCash.Rejects.{IsInvalid, parse-IsInvalid}
use ra_common_cpp.Crypto.HashCash.RoundTrip.{parse-mint_with}
use ra_common_cpp.Crypto.HashCash.Search.{Succeeds, First, try_counters_lem}
use ra_common_cpp.Crypto.HashCash.Tokens.{
  HashCash, exceeds, mint_with, parse, is_valid_for, prefix_of,
}
use ra_common_cpp.Crypto.HashCash.Work.{sha1_bits, reaches, hex_bytes, candidate, try_counters}
use ra_common_cpp.Util.Random.{little_endian}
use ra_common_cpp.Std.Entropy.{random_bytes_of}
use ra_common_cpp.Examples.Crypto.{zeros}

abbrev notes : Extensions
notes = (codes "note", codes "a" ∷ codes "b" ∷ []) ∷ (codes "x", []) ∷ []

notes_text : serialize_extensions notes ≡ ok (codes "note=a,b;x")
unfolding serialize_extensions
notes_text = refl

notes-Ordered : less (codes "note") (codes "x") ≡ true
unfolding less
notes-Ordered = refl

leap_day : parse_yy_mm_dd (codes "240229") ≡ ok (century_date 24 2 29)
unfolding parse_yy_mm_dd
leap_day = refl

no_leap_day :
    parse_yy_mm_dd (codes "230229")
    ≡ err (thrown (ra_exception RaErrorKind.invalid (codes "bad hashcash date: 230229")))
unfolding parse_yy_mm_dd
no_leap_day = refl

abbrev eight_zeros : Bytes
eight_zeros = replicate 8 0

abbrev stem : Bytes
stem = codes "1:3:240229:adam:note=a,b;x:0000000000000000:"

minting_success :
    Succeeds
      (stem_of 1 (pos 3) (century_date 24 2 29) (codes "adam") (codes "note=a,b;x") eight_zeros)
      (pos 3)
      (little_endian eight_zeros)
      4
unfolding reaches sha1_bits candidate leading_zero_bits sha1 words_to_bytes sha1_state little_endian
    prefix_of fmt_yy_mm_dd hex_bytes signed_to_string
minting_success = refl

parse-mint_with_example :
    (minted : HashCash) × (mint_with zeros 0 10
        (codes "adam")
        notes
        (century_date 24 2 29)
        (pos 3)
        (pos 1)
      ≡ ok (minted, 2))
    × (parse minted.token ≡ ok minted)
    × (is_valid_for minted (codes "adam") (pos 3) ≡ true)
unfolding random_bytes_of exceeds has_any serialize_extensions date_ok
parse-mint_with_example =
    parse-mint_with zeros 0 1 2 eight_zeros eight_zeros refl refl 10 1 24 2 29 4 (codes "adam")
      (codes "note=a,b;x") notes (pos 3) (omega arith) refl (omega arith) refl (notes-Ordered, tt)
      (λ e. cc) notes_text (omega arith) refl (omega arith) minting_success

leading_zero_bits_lem_example :
    (number_of (0 ∷ 37 ∷ 255 ∷ []) < 2 ^ (24 - 10)) ↔ (10 ≤ leading_zero_bits (0 ∷ 37 ∷ 255 ∷ []))
leading_zero_bits_lem_example =
    leading_zero_bits_lem (0 ∷ 37 ∷ 255 ∷ []) 10 (omega arith) (omega arith)

deserialize_extensions-serialize_example : deserialize_extensions (codes "note=a,b;x") ≡ notes
deserialize_extensions-serialize_example =
    deserialize_extensions-serialize notes (codes "note=a,b;x") (notes-Ordered, tt) (λ e. cc)
      notes_text

abbrev old_token : Bytes
old_token = codes "0:040806:foo::65f460d0726f420d:13a6b8"

old_token_parsed :
    parse old_token
    ≡ ok (record {
      token = old_token;
      value = pos (sha1_bits old_token);
      resource = codes "foo";
      date = century_date 4 8 6;
      version = pos 0;
      extensions = [];
    })
unfolding parse stoi
old_token_parsed = refl

parse-Accepted_example : Accepted old_token (record {
  token = old_token;
  value = pos (sha1_bits old_token);
  resource = codes "foo";
  date = century_date 4 8 6;
  version = pos 0;
  extensions = [];
})
parse-Accepted_example = parse-Accepted old_token _ old_token_parsed

parse-IsInvalid_example :
    IsInvalid (thrown (ra_exception RaErrorKind.invalid (codes "bad hashcash version")))
unfolding parse stoi
parse-IsInvalid_example = parse-IsInvalid (codes "1x:3") _ refl

try_counters_lem_example :
    (token : Bytes) × (try_counters 10 stem 0 (pos 3) ≡ ok token) × First stem (pos 3) 0 4 token
unfolding reaches sha1_bits candidate leading_zero_bits sha1 words_to_bytes sha1_state
try_counters_lem_example = try_counters_lem stem (pos 3) 10 0 4 (omega arith) refl

-- A version below 0 is minted as a token of version 1, since only the upper bound is tested.
negative_version :
    (exceeds (negsuc 0) 1 ≡ false)
    × (prefix_of (negsuc 0) (pos 3) [] [] [] ≡ prefix_of (pos 1) (pos 3) [] [] [])
unfolding exceeds prefix_of
negative_version = (refl, refl)
