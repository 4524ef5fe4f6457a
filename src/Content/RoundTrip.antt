-- ===== src/Content/RoundTrip.antt =====
-- What ToJson writes of a content is what FromJson reads.
use ra_common_cpp.Base.{
  ℕ, zero, suc, ◌+◌, ◌≤◌, ◌<◌, ◌^◌, [], ◌≡◌, refl, ap, ◌∙◌, Option, none, some, Bytes, IsBytes,
  codes, list_eq, Result, ok, arith,
}
use ra_common_cpp.Std.Numbers.{pos}
use ra_common_cpp.Std.Json.{JsonLibrary}
use ra_common_cpp.Std.Json.Arrays.{of_strings, read_strings, read_strings-of}
use ra_common_cpp.Std.Json.Fields.{
  Fields, field, or_else, written, present, optional, or_default, optional-field, optional_string,
  at_string, at-field, or_default-field, or_default_no_field, or_default_list, value-field,
  find_member-present,
}
use ra_common_cpp.Encoding.Base64.{base64_encode}
use ra_common_cpp.Encoding.Base64.RoundTrip.{base64_decode-encode}
use ra_common_cpp.Crypto.HashAlgorithm.{HashAlgorithm, algorithm_to_string}
use ra_common_cpp.Crypto.EncryptionAlgorithm.{
  EncryptionAlgorithm, encryption_to_string, encryption_from_string-to_string,
}
use ra_common_cpp.Identity.Json.{hash_to_json, hash_from_json, read_algorithm}
use ra_common_cpp.Identity.Json.RoundTrip.{hash_from_json-to_json, read_algorithm-of_string}
use ra_common_cpp.Route.Json.External.{read_bool, read_int}
use ra_common_cpp.Content.{
  ContentKind, plain_text, html, json, image, audio, video, binary, content_kind_to_string,
  content_kind_from_string, Facts, Content, Contents, content, no_children, child,
}
use ra_common_cpp.Content.Json.{
  content_fields, content_to_json, contents_to_json, read_kind, read_size, to_size, read_body,
  read_encryption, read_children, facts_and_children, content_from_json,
}

content_kind_from_string-to_string :
    (k : ContentKind) → content_kind_from_string (content_kind_to_string k) ≡ k
unfolding content_kind_from_string content_kind_to_string list_eq
content_kind_from_string-to_string plain_text = refl
content_kind_from_string-to_string html = refl
content_kind_from_string-to_string json = refl
content_kind_from_string-to_string image = refl
content_kind_from_string-to_string audio = refl
content_kind_from_string-to_string video = refl
content_kind_from_string-to_string binary = refl

abbrev pub IsOptionalBytes : Option Bytes → Type 0
IsOptionalBytes none = Unit
IsOptionalBytes (some bytes) = IsBytes bytes

-- The members that C++ types can hold: a body of bytes, and a size_t.
abbrev pub IsFacts : Facts → Type 0
IsFacts c = IsOptionalBytes c.body × (c.content_size < 2 ^ 64)

abbrev mutual
  pub IsContent : Content → Type 0
  IsContent (content c children) = IsFacts c × AreContents children

  pub AreContents : Contents → Type 0
  AreContents no_children = Unit
  AreContents (child c cs) = IsContent c × AreContents cs

-- The number of contents, children included.
abbrev mutual
  pub content_count : Content → ℕ
  content_count (content c children) = suc (contents_count children)

  pub contents_count : Contents → ℕ
  contents_count no_children = 0
  contents_count (child c cs) = content_count c + contents_count cs

module _ {Json : Type 0} (lib : JsonLibrary Json) where
  open lib use {
    of_bool, of_int, of_string, of_array, of_object, get_bool, get_int, get_string, elements,
    get_string-of, get_int-of, elements-of,
  }

  read_kind-of_string :
      (k : ContentKind) → read_kind lib (of_string (content_kind_to_string k)) ≡ ok k
  unfolding read_kind
  read_kind-of_string k =
      rw (get_string-of (content_kind_to_string k), content_kind_from_string-to_string k) refl

  read_size-of_int : (n : ℕ) → n < 2 ^ 64 → read_size lib (of_int (pos n)) ≡ ok n
  unfolding read_size to_size
  read_size-of_int n small = rw (get_int-of (pos n)) (ap ok (omega arith))

  read_encryption-of_string :
      (a : EncryptionAlgorithm) → read_encryption lib (of_string (encryption_to_string a)) ≡ ok a
  unfolding read_encryption
  read_encryption-of_string a =
      rw (get_string-of (encryption_to_string a), encryption_from_string-to_string a) refl

  body-read :
      (fields : Fields Json) (b : Option Bytes)
      → field (codes "body") fields
        ≡ or_else (written (λ bytes. of_string (base64_encode bytes)) b) none
      → IsOptionalBytes b
      → optional lib (read_body lib) (of_object (present fields)) (codes "body") ≡ ok b
  unfolding read_body optional
  body-read fields none there good =
      rw (find_member-present lib fields (codes "body") ∙ there, optional) refl
  body-read fields (some bytes) there good =
      rw
        (
          find_member-present lib fields (codes "body") ∙ there,
          optional,
          get_string-of (base64_encode bytes),
          base64_decode-encode bytes good,
        )
        refl

  children-read :
      (read : Json → Result Content) (c : Facts) (cs : Contents)
      → read_children lib read (contents_to_json lib cs) ≡ ok cs
      → or_default lib
          (λ v. read_children lib read (elements v))
          (of_object (present (content_fields lib c (contents_to_json lib cs))))
          (codes "children")
          no_children
        ≡ ok cs
  unfolding field list_eq content_to_json
  children-read read c no_children reads =
      or_default_no_field lib (λ v. read_children lib read (elements v)) (content_fields lib c [])
        (codes "children") no_children refl
  children-read read c (child d ds) reads =
      or_default-field lib (λ v. read_children lib read (elements v))
        (content_fields lib c (contents_to_json lib (child d ds))) (codes "children")
        (of_array (contents_to_json lib (child d ds))) no_children (child d ds) refl
        (rw (elements-of (contents_to_json lib (child d ds))) reads)

  facts-read :
      (read : Json → Result Content) (c : Facts) (cs : Contents)
      → IsFacts c
      → read_children lib read (contents_to_json lib cs) ≡ ok cs
      → facts_and_children lib read (content_to_json lib (content c cs)) ≡ ok (content c cs)
  unfolding facts_and_children content_to_json field list_eq
  facts-read read c cs (bytes, small) reads =
      let fields = content_fields lib c (contents_to_json lib cs) in
      rw
        (
          at-field lib (read_kind lib) fields (codes "type")
              (of_string (content_kind_to_string c.kind)) c.kind refl (read_kind-of_string c.kind),
          at_string lib fields (codes "content_type") c.content_type refl,
          read_int lib fields (codes "version") c.version refl,
          optional_string lib fields (codes "id") c.content_id refl,
          optional_string lib fields (codes "label") c.label refl,
          optional_string lib fields (codes "name") c.content_name refl,
          optional_string lib fields (codes "location") c.location refl,
          value-field lib (read_size lib) fields (codes "size") (of_int (pos c.content_size)) 0
              c.content_size refl (read_size-of_int c.content_size small),
          optional_string lib fields (codes "author_alias") c.author_alias refl,
          optional_string lib fields (codes "author_address") c.author_address refl,
          body-read fields c.body refl bytes,
          optional_string lib fields (codes "body_encoding") c.body_encoding refl,
          read_bool lib fields (codes "body_base64_encoded") c.body_base64_encoded refl,
          optional-field lib get_int fields (codes "created_at") of_int c.created_at refl
              get_int-of,
          optional-field lib (hash_from_json lib) fields (codes "hash") (hash_to_json lib) c.hash
              refl (hash_from_json-to_json lib),
          or_default-field lib (read_algorithm lib) fields (codes "hash_algorithm")
              (of_string (algorithm_to_string c.hash_algorithm)) HashAlgorithm.sha256
              c.hash_algorithm refl (read_algorithm-of_string lib c.hash_algorithm),
          optional-field lib (hash_from_json lib) fields (codes "fingerprint") (hash_to_json lib)
              c.fingerprint refl (hash_from_json-to_json lib),
          or_default-field lib (read_algorithm lib) fields (codes "fingerprint_algorithm")
              (of_string (algorithm_to_string c.fingerprint_algorithm)) HashAlgorithm.sha1
              c.fingerprint_algorithm refl (read_algorithm-of_string lib c.fingerprint_algorithm),
          children-read read c cs reads,
          read_bool lib fields (codes "encrypted") c.encrypted refl,
          optional-field lib (read_encryption lib) fields (codes "encryption_algorithm")
              (λ a. of_string (encryption_to_string a)) c.encryption_algorithm refl
              read_encryption-of_string,
          optional_string lib fields (codes "encryption_passphrase") c.encryption_passphrase refl,
          read_bool lib fields (codes "encryption_passphrase_encrypted")
              c.encryption_passphrase_encrypted refl,
          optional-field lib (read_encryption lib) fields (codes "encryption_passphrase_algorithm")
              (λ a. of_string (encryption_to_string a)) c.encryption_passphrase_algorithm refl
              read_encryption-of_string,
          optional_string lib fields (codes "base64_encoded_iv") c.base64_encoded_iv refl,
          or_default_list lib fields (codes "keywords") (read_strings lib) (of_strings lib)
              c.keywords refl (read_strings-of lib c.keywords),
          read_bool lib fields (codes "readable") c.readable refl,
          read_bool lib fields (codes "writeable") c.writeable refl,
        )
        refl

  mutual
    unfolding content_from_json read_children content_to_json

    content_round_trip :
        (c : Content) (fuel : ℕ)
        → IsContent c
        → content_count c ≤ fuel
        → content_from_json lib fuel (content_to_json lib c) ≡ ok c
    content_round_trip (content c cs) zero good enough = absurd (omega arith)
    content_round_trip (content c cs) (suc fuel) (facts, children) enough =
        facts-read (content_from_json lib fuel) c cs facts
          (contents_round_trip cs fuel children (omega arith))

    contents_round_trip :
        (cs : Contents) (fuel : ℕ)
        → AreContents cs
        → contents_count cs ≤ fuel
        → read_children lib (content_from_json lib fuel) (contents_to_json lib cs) ≡ ok cs
    contents_round_trip no_children fuel good enough = refl
    contents_round_trip (child c cs) fuel (good, goods) enough =
        rw
          (
            content_round_trip c fuel good (omega arith),
            contents_round_trip cs fuel goods (omega arith),
          )
          refl

  -- With fuel for each content, FromJson reads from the text of a content the same content with
  -- its children, nested to any depth, if the bodies consist of bytes and the sizes are below 2 ^
  -- 64.
  pub content_from_json-to_json :
      (c : Content) (fuel : ℕ)
      → IsContent c
      → content_count c ≤ fuel
      → content_from_json lib fuel (content_to_json lib c) ≡ ok c
  content_from_json-to_json c fuel good enough = content_round_trip c fuel good enough
