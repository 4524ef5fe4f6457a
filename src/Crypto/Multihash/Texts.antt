-- ===== src/Crypto/Multihash/Texts.antt =====
-- The base 58 and JSON forms of class Multihash.
use ra_common_cpp.Base.{
  ℕ, ◌%◌, ◌≡◌, refl, ap, sym, ◌∙◌, [], ◌∷◌, append-nil, map, some, Bytes, IsBytes, length, codes,
  list_eq, Result, ok, ◌>>=◌, arith,
}
use ra_common_cpp.Std.Numbers.{pos, to_u8}
use ra_common_cpp.Std.Json.{JsonLibrary}
use ra_common_cpp.Std.Json.Arrays.{read_all}
use ra_common_cpp.Std.Json.Fields.{Fields, field, present, at, at-field, at_string}
use ra_common_cpp.Encoding.Base58.{base58_encode, base58_decode}
use ra_common_cpp.Encoding.Base58.RoundTrip.{base58_decode-encode}
use ra_common_cpp.Crypto.Multihash.{
  Multihash, MultihashType, type_to_string, multihash_type_from_string, multihash_length,
  new_multihash, to_bytes, from_bytes,
}
use ra_common_cpp.Crypto.Multihash.RoundTrip.{from_bytes-to_bytes, new_multihash_lem}

unfoldable pub to_base58 : Multihash → Bytes
to_base58 m = base58_encode (to_bytes m)

unfoldable pub from_base58 : Bytes → Result Multihash
from_base58 text = do bytes ← base58_decode text; from_bytes bytes

to_bytes-IsBytes : (m : Multihash) → IsBytes m.digest_bytes → IsBytes (to_bytes m)
unfolding to_bytes
to_bytes-IsBytes m h = (omega arith, (omega arith, h))

from_base58-to_base58 :
    (m : Multihash)
    → IsBytes m.digest_bytes
    → length m.digest_bytes ≡ multihash_length m.kind
    → from_base58 (to_base58 m) ≡ ok m
unfolding from_base58 to_base58
from_base58-to_base58 m h size =
    rw (base58_decode-encode (to_bytes m) (to_bytes-IsBytes m h))
      (ap from_bytes (sym (append-nil (to_bytes m))) ∙ from_bytes-to_bytes m [] size)

type_back : (k : MultihashType) → multihash_type_from_string (type_to_string k) ≡ ok k
unfolding multihash_type_from_string type_to_string list_eq
type_back MultihashType.sha1 = refl
type_back MultihashType.sha2_256 = refl
type_back MultihashType.sha2_512 = refl
type_back MultihashType.sha3 = refl
type_back MultihashType.blake2b = refl
type_back MultihashType.blake2s = refl

module _ {Json : Type 0} (lib : JsonLibrary Json) where
  open lib use {
    of_int, of_string, of_array, of_object, get_int, get_string, get_array, get_int-of,
    get_string-of, get_array-of,
  }

  abbrev pub multihash_fields : Multihash → Fields Json
  multihash_fields m =
      (codes "type", some (of_string (type_to_string m.kind)))
      ∷ (codes "hash", some (of_array (map (λ b. of_int (pos b)) m.digest_bytes)))
      ∷ []

  unfoldable pub multihash_to_json : Multihash → Json
  multihash_to_json m = of_object (present (multihash_fields m))

  -- get<uint8_t>(), which narrows the number.
  unfoldable pub read_byte : Json → Result ℕ
  read_byte j = do n ← get_int j; ok (to_u8 n)

  unfoldable pub read_bytes : Json → Result Bytes
  unfolding read_byte read_all
  read_bytes j = do values ← get_array j; read_all read_byte values

  unfoldable pub multihash_from_json : Json → Result Multihash
  unfolding multihash_type_from_string read_bytes new_multihash
  multihash_from_json j = do
    name ← at lib get_string j (codes "type")
    kind ← multihash_type_from_string name
    digest ← at lib read_bytes j (codes "hash")
    new_multihash kind digest

  read_all-bytes :
      (bytes : Bytes)
      → IsBytes bytes
      → read_all read_byte (map (λ b. of_int (pos b)) bytes) ≡ ok bytes
  unfolding read_all read_byte
  read_all-bytes [] h = refl
  read_all-bytes (b ∷ bytes) h =
      rw (get_int-of (pos b), read_all-bytes bytes h.1)
        (ap (λ c. ok (c ∷ bytes)) (let e : b % 256 ≡ b = omega arith in e))

  read_bytes-of :
      (bytes : Bytes)
      → IsBytes bytes
      → read_bytes (of_array (map (λ b. of_int (pos b)) bytes)) ≡ ok bytes
  unfolding read_bytes
  read_bytes-of bytes h =
      rw (get_array-of (map (λ b. of_int (pos b)) bytes)) (read_all-bytes bytes h)

  multihash_from_json-to_json :
      (m : Multihash)
      → IsBytes m.digest_bytes
      → length m.digest_bytes ≡ multihash_length m.kind
      → multihash_from_json (multihash_to_json m) ≡ ok m
  unfolding multihash_from_json multihash_to_json field list_eq
  multihash_from_json-to_json m h size =
      rw
        (
          at_string lib (multihash_fields m) (codes "type") (type_to_string m.kind) refl,
          type_back m.kind,
          at-field lib read_bytes (multihash_fields m) (codes "hash") _ m.digest_bytes refl
              (read_bytes-of m.digest_bytes h),
        )
        (new_multihash_lem m size)

  -- A Multihash of bytes whose digest has the length of its kind is read back from its base 58
  -- text and from its JSON.
  pub multihash_texts :
      (m : Multihash)
      → IsBytes m.digest_bytes
      → length m.digest_bytes ≡ multihash_length m.kind
      → (from_base58 (to_base58 m) ≡ ok m) × (multihash_from_json (multihash_to_json m) ≡ ok m)
  multihash_texts m h size = (from_base58-to_base58 m h size, multihash_from_json-to_json m h size)
