-- ===== src/Crypto/HashCash/Tokens.antt =====
-- class HashCash of include/ra_common/crypto/hash_cash.hpp: minting and parsing tokens. The random bytes are
-- those of a `Source`, and today's date is given; the search for a token runs on fuel.
use ra_common_cpp.Base.{
  ℕ, zero, suc, ◌+◌, ◌%◌, ◌^◌, min, Bool, false, ◌&&◌, not, List, [], ◌∷◌, ◌++◌, Bytes, codes,
  length, list_eq, ltb, ◌==◌, if◌then◌else◌, Result, ok, err, out_of_range, invalid_argument,
  throw_invalid, throw_if, ◌>>=◌, ◌>>◌,
}
use ra_common_cpp.Std.Numbers.{ℤ, pos, negsuc, stoi, signed_to_string}
use ra_common_cpp.Std.Entropy.{Source}
use ra_common_cpp.Crypto.HashCash.Dates.{YearMonthDay, fmt_yy_mm_dd, parse_yy_mm_dd}
use ra_common_cpp.Crypto.HashCash.Extensions.{
  Extensions, has_any, serialize_extensions, deserialize_extensions,
}
use ra_common_cpp.Crypto.HashCash.Split.{split_on}
use ra_common_cpp.Crypto.HashCash.Work.{sha1_bits, reaches, generate}

pub record HashCash : Type 0 where
  pub token : Bytes
  pub value : ℤ
  pub resource : Bytes
  pub date : YearMonthDay
  pub version : ℤ
  pub extensions : Extensions

abbrev pub hash_bits : ℕ
hash_bits = 160

-- x > limit
unfoldable pub exceeds : ℤ → ℕ → Bool
exceeds (pos x) limit = ltb limit x
exceeds (negsuc n) limit = false

-- "0:date:resource:ext:" or "1:bits:date:resource:ext:".
unfoldable pub prefix_of : ℤ → ℤ → Bytes → Bytes → Bytes → Bytes
prefix_of (pos zero) bits date_str resource ext_str =
    codes "0:" ++ (date_str ++ b':' ∷ (resource ++ b':' ∷ (ext_str ++ codes ":")))
prefix_of version bits date_str resource ext_str =
    codes "1:"
    ++ (signed_to_string bits
        ++ b':' ∷ (date_str ++ b':' ∷ (resource ++ b':' ∷ (ext_str ++ codes ":"))))

unfoldable pub minted_value : ℤ → ℤ → Bytes → ℤ
unfolding sha1_bits
minted_value (pos zero) bits token = pos (sha1_bits token)
minted_value version bits token = bits

unfoldable pub mint_with :
    Source → ℕ → ℕ → Bytes → Extensions → YearMonthDay → ℤ → ℤ → Result (HashCash × ℕ)
unfolding exceeds has_any serialize_extensions fmt_yy_mm_dd prefix_of generate minted_value
mint_with source call fuel resource extensions date bits version = do
  throw_if (exceeds version 1)
      (throw_invalid (codes "only hashcash versions 0 and 1 are supported"))
  throw_if (exceeds bits hash_bits) (throw_invalid (codes "value must be between 0 and 160"))
  throw_if (has_any (codes ":") resource) (throw_invalid (codes "resource may not contain a colon"))
  ext_str ← serialize_extensions extensions
  (token, last) ←
      generate source call fuel (prefix_of version bits (fmt_yy_mm_dd date) resource ext_str) bits
  ok (
    record {
      token = token;
      value = minted_value version bits token;
      resource = resource;
      date = date;
      version = version;
      extensions = extensions;
    },
    last,
  )

unfoldable pub mint : Source → ℕ → ℕ → YearMonthDay → Bytes → ℤ → Result (HashCash × ℕ)
unfolding mint_with
mint source call fuel today resource bits =
    mint_with source call fuel resource [] today bits (pos 1)

-- parts.at(i)
unfoldable pub part_at : List Bytes → ℕ → Result Bytes
part_at [] i = err out_of_range
part_at (part ∷ parts) zero = ok part
part_at (part ∷ parts) (suc i) = part_at parts i

-- `catch (...) { throw RaException::Invalid(message); }`
unfoldable pub or_invalid : {A : Type 0} → Bytes → Result A → Result A
or_invalid message (ok a) = ok a
or_invalid message (err e) = throw_invalid message

unfoldable pub read_version : List Bytes → Result ℤ
unfolding part_at
read_version parts = do
  part ← part_at parts 0
  (version, consumed) ← stoi 10 part
  if consumed == length part then ok version else err invalid_argument

unfoldable pub read_bits : List Bytes → Result ℤ
unfolding part_at
read_bits parts = do part ← part_at parts 1; (bits, _) ← stoi 10 part; ok bits

unfoldable pub expected_parts : ℤ → Result ℕ
expected_parts (pos zero) = ok 6
expected_parts (pos (suc zero)) = ok 7
expected_parts _ = throw_invalid (codes "only hashcash versions 0 and 1 are supported")

-- The claimed bits, and the index of the part that follows.
unfoldable pub claimed_bits : ℤ → List Bytes → Result (ℤ × ℕ)
unfolding or_invalid read_bits
claimed_bits (pos (suc zero)) parts = do
  bits ← or_invalid (codes "bad hashcash bits") (read_bits parts)
  ok (bits, 2)
claimed_bits version parts = ok (pos 0, 1)

-- std::min(actual, claimed)
unfoldable pub smaller : ℕ → ℤ → ℤ
smaller actual (pos claimed) = pos (min actual claimed)
smaller actual (negsuc n) = negsuc n

unfoldable pub parsed_value : ℤ → ℕ → ℤ → ℤ
unfolding smaller
parsed_value (pos zero) actual claimed = pos actual
parsed_value version actual claimed = smaller actual claimed

-- The date, the resource and the extensions, from part `idx` on.
unfoldable pub parse_rest : Bytes → List Bytes → ℤ → ℤ × ℕ → Result HashCash
unfolding part_at parse_yy_mm_dd deserialize_extensions sha1_bits parsed_value
parse_rest token parts version (claimed, idx) = do
  date_str ← part_at parts idx
  date ← parse_yy_mm_dd date_str
  resource ← part_at parts (idx + 1)
  ext_str ← part_at parts (idx + 2)
  ok (record {
    token = token;
    value = parsed_value version (sha1_bits token) claimed;
    resource = resource;
    date = date;
    version = version;
    extensions = deserialize_extensions ext_str;
  })

-- `static_cast<int>(parts.size())` keeps 32 bits.
unfoldable pub parse_as : Bytes → List Bytes → ℤ → Result HashCash
unfolding expected_parts claimed_bits parse_rest
parse_as token parts version = do
  expected ← expected_parts version
  throw_if (not (length parts % 2 ^ 32 == expected))
      (throw_invalid (codes "improperly formed hashcash"))
  claimed ← claimed_bits version parts
  parse_rest token parts version claimed

unfoldable pub parse_parts : Bytes → List Bytes → Result HashCash
unfolding or_invalid read_version parse_as
parse_parts token parts = do
  version ← or_invalid (codes "bad hashcash version") (read_version parts)
  parse_as token parts version

unfoldable pub parse : Bytes → Result HashCash
unfolding split_on parse_parts
parse token = parse_parts token (split_on b':' token)

unfoldable pub computed_bits : HashCash → ℕ
unfolding sha1_bits
computed_bits h = sha1_bits h.token

unfoldable pub is_valid_for : HashCash → Bytes → ℤ → Bool
unfolding computed_bits reaches
is_valid_for h resource min_bits = list_eq h.resource resource && reaches (computed_bits h) min_bits
