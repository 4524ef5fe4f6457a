-- ===== src/Crypto/HashCash/Extensions.antt =====
-- SerializeExtensions and DeserializeExtensions of include/ra_common/crypto/hash_cash.hpp. A std::map is
-- the list of its entries in the order of their keys.
pub mod Keys
pub mod Items
pub mod RoundTrip
use ra_common_cpp.Base.{
  ℕ, Bool, true, false, ◌||◌, List, [], ◌∷◌, ◌++◌, Option, none, some, Bytes, codes, list_eq, ◌==◌,
  if◌then◌else◌, Result, ok, err, throw_invalid, throw_if, ◌>>=◌, ◌>>◌,
}
use ra_common_cpp.Std.Json.{less}
use ra_common_cpp.Std.Json.Arrays.{read_all}
use ra_common_cpp.Config.{cut_at}
use ra_common_cpp.Crypto.HashCash.Split.{split_on, join}

abbrev pub Extensions : Type 0
Extensions = List (Bytes × List Bytes)

unfoldable pub is_one_of : Bytes → ℕ → Bool
is_one_of [] c = false
is_one_of (d ∷ chars) c = c == d || is_one_of chars c

-- s.find_first_of(chars) != std::string::npos
unfoldable pub has_any : Bytes → Bytes → Bool
unfolding is_one_of
has_any chars [] = false
has_any chars (c ∷ s) = is_one_of chars c || has_any chars s

unfoldable pub check_values : List Bytes → Result (Unit {0})
unfolding has_any
check_values [] = ok tt
check_values (v ∷ values) =
    throw_if (has_any (codes ":;,") v)
      (throw_invalid (codes "illegal char in extension value: " ++ v))
    >> check_values values

unfoldable pub serialize_values : Bytes → List Bytes → Result Bytes
unfolding check_values join
serialize_values key [] = ok key
serialize_values key (v ∷ values) =
    check_values (v ∷ values) >> ok (key ++ b'=' ∷ join b',' (v ∷ values))

unfoldable pub serialize_item : Bytes × List Bytes → Result Bytes
unfolding has_any serialize_values
serialize_item (key, values) =
    throw_if (has_any (codes ":;=") key)
      (throw_invalid (codes "illegal char in extension key: " ++ key))
    >> serialize_values key values

unfoldable pub serialize_extensions : Extensions → Result Bytes
unfolding serialize_item read_all join
serialize_extensions ext = do parts ← read_all serialize_item ext; ok (join b';' parts)

-- out[key] = values
unfoldable pub put_extension : Bytes → List Bytes → Extensions → Extensions
put_extension key values [] = (key, values) ∷ []
put_extension key values ((name, old) ∷ out) =
    let later = put_extension key values out in
    if list_eq name key
    then (name, values) ∷ out
    else if less name key
    then (name, old) ∷ later
    else (key, values) ∷ (name, old) ∷ out

unfoldable pub put_item : Bytes → Extensions → Extensions
unfolding put_extension split_on cut_at
put_item item out = elim (cut_at b'=' item) [
  | none ↦ put_extension item [] out
  | some (key, values) ↦ put_extension key (split_on b',' values) out
]

unfoldable pub put_items : List Bytes → Extensions → Extensions
unfolding put_item
put_items [] out = out
put_items (item ∷ items) out = put_items items (put_item item out)

unfoldable pub deserialize_extensions : Bytes → Extensions
unfolding put_items split_on
deserialize_extensions [] = []
deserialize_extensions (c ∷ text) = put_items (split_on b';' (c ∷ text)) []
