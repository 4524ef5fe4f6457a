-- ===== src/Content/Json.antt =====
-- Content::ToJson and FromJson. `fuel` bounds how deep children are nested.
use ra_common_cpp.Base.{
  ℕ, zero, suc, ◌-◌, ◌%◌, ◌^◌, false, List, [], ◌∷◌, some, Bytes, codes, Result, ok, err,
  out_of_fuel, ◌>>=◌,
}
use ra_common_cpp.Std.Numbers.{ℤ, pos, negsuc}
use ra_common_cpp.Std.Json.{JsonLibrary}
use ra_common_cpp.Std.Json.Arrays.{of_strings, read_strings}
use ra_common_cpp.Std.Json.Fields.{
  Fields, written, written_list, present, at, optional, or_default, value,
}
use ra_common_cpp.Encoding.Base64.{base64_encode, base64_decode}
use ra_common_cpp.Crypto.HashAlgorithm.{HashAlgorithm, algorithm_to_string}
use ra_common_cpp.Crypto.EncryptionAlgorithm.{
  EncryptionAlgorithm, encryption_to_string, encryption_from_string,
}
use ra_common_cpp.Identity.Json.{hash_to_json, hash_from_json, read_algorithm}
use ra_common_cpp.Content.{
  ContentKind, content_kind_to_string, content_kind_from_string, Facts, Content, Contents, content,
  no_children, child,
}

-- The conversion to size_t.
unfoldable pub to_size : ℤ → ℕ
to_size (pos n) = n % 2 ^ 64
to_size (negsuc n) = 2 ^ 64 - 1 - n % 2 ^ 64

module _ {Json : Type 0} (lib : JsonLibrary Json) where
  open lib use {
    of_bool, of_int, of_string, of_array, of_object, get_bool, get_int, get_string, find_member,
    elements,
  }

  -- `children` is what the loop over the children wrote.
  abbrev pub content_fields : Facts → List Json → Fields Json
  content_fields c children =
      (codes "type", some (of_string (content_kind_to_string c.kind)))
      ∷ (codes "content_type", some (of_string c.content_type))
      ∷ (codes "version", some (of_int c.version))
      ∷ (codes "id", written of_string c.content_id)
      ∷ (codes "label", written of_string c.label)
      ∷ (codes "name", written of_string c.content_name)
      ∷ (codes "location", written of_string c.location)
      ∷ (codes "author_alias", written of_string c.author_alias)
      ∷ (codes "author_address", written of_string c.author_address)
      ∷ (codes "body", written (λ bytes. of_string (base64_encode bytes)) c.body)
      ∷ (codes "body_encoding", written of_string c.body_encoding)
      ∷ (codes "created_at", written of_int c.created_at)
      ∷ (codes "hash", written (hash_to_json lib) c.hash)
      ∷ (codes "fingerprint", written (hash_to_json lib) c.fingerprint)
      ∷ (
        codes "encryption_algorithm",
        written (λ a. of_string (encryption_to_string a)) c.encryption_algorithm,
      )
      ∷ (codes "encryption_passphrase", written of_string c.encryption_passphrase)
      ∷ (
        codes "encryption_passphrase_algorithm",
        written (λ a. of_string (encryption_to_string a)) c.encryption_passphrase_algorithm,
      )
      ∷ (codes "base64_encoded_iv", written of_string c.base64_encoded_iv)
      ∷ (codes "size", some (of_int (pos c.content_size)))
      ∷ (codes "body_base64_encoded", some (of_bool c.body_base64_encoded))
      ∷ (codes "hash_algorithm", some (of_string (algorithm_to_string c.hash_algorithm)))
      ∷ (
        codes "fingerprint_algorithm",
        some (of_string (algorithm_to_string c.fingerprint_algorithm)),
      )
      ∷ (codes "encrypted", some (of_bool c.encrypted))
      ∷ (codes "encryption_passphrase_encrypted", some (of_bool c.encryption_passphrase_encrypted))
      ∷ (codes "readable", some (of_bool c.readable))
      ∷ (codes "writeable", some (of_bool c.writeable))
      ∷ (codes "children", written_list of_array children)
      ∷ (codes "keywords", written_list (of_strings lib) c.keywords)
      ∷ []

  unfoldable mutual
    pub content_to_json : Content → Json
    content_to_json (content c children) =
        of_object (present (content_fields c (contents_to_json children)))

    pub contents_to_json : Contents → List Json
    contents_to_json no_children = []
    contents_to_json (child c cs) = content_to_json c ∷ contents_to_json cs

  unfoldable pub read_kind : Json → Result ContentKind
  read_kind j = do text ← get_string j; ok (content_kind_from_string text)

  unfoldable pub read_size : Json → Result ℕ
  unfolding to_size
  read_size j = do n ← get_int j; ok (to_size n)

  unfoldable pub read_body : Json → Result Bytes
  read_body j = do text ← get_string j; base64_decode text

  unfoldable pub read_encryption : Json → Result EncryptionAlgorithm
  read_encryption j = do text ← get_string j; ok (encryption_from_string text)

  unfoldable pub read_children : (Json → Result Content) → List Json → Result Contents
  read_children read [] = ok no_children
  read_children read (x ∷ xs) = do c ← read x; cs ← read_children read xs; ok (child c cs)

  unfoldable pub facts_and_children : (Json → Result Content) → Json → Result Content
  facts_and_children read j = do
    kind' ← at lib read_kind j (codes "type")
    content_type' ← at lib get_string j (codes "content_type")
    version' ← value lib get_int j (codes "version") (pos 0)
    id' ← optional lib get_string j (codes "id")
    label' ← optional lib get_string j (codes "label")
    name' ← optional lib get_string j (codes "name")
    location' ← optional lib get_string j (codes "location")
    size' ← value lib read_size j (codes "size") 0
    alias' ← optional lib get_string j (codes "author_alias")
    address' ← optional lib get_string j (codes "author_address")
    body' ← optional lib read_body j (codes "body")
    encoding' ← optional lib get_string j (codes "body_encoding")
    base64' ← value lib get_bool j (codes "body_base64_encoded") false
    created' ← optional lib get_int j (codes "created_at")
    hash' ← optional lib (hash_from_json lib) j (codes "hash")
    hash_algorithm' ←
        or_default lib (read_algorithm lib) j (codes "hash_algorithm") HashAlgorithm.sha256
    fingerprint' ← optional lib (hash_from_json lib) j (codes "fingerprint")
    fingerprint_algorithm' ←
        or_default lib (read_algorithm lib) j (codes "fingerprint_algorithm") HashAlgorithm.sha1
    children' ←
        or_default lib (λ v. read_children read (elements v)) j (codes "children") no_children
    encrypted' ← value lib get_bool j (codes "encrypted") false
    encryption' ← optional lib read_encryption j (codes "encryption_algorithm")
    passphrase' ← optional lib get_string j (codes "encryption_passphrase")
    passphrase_encrypted' ← value lib get_bool j (codes "encryption_passphrase_encrypted") false
    passphrase_algorithm' ← optional lib read_encryption j (codes "encryption_passphrase_algorithm")
    iv' ← optional lib get_string j (codes "base64_encoded_iv")
    keywords' ← or_default lib (read_strings lib) j (codes "keywords") []
    readable' ← value lib get_bool j (codes "readable") false
    writeable' ← value lib get_bool j (codes "writeable") false
    ok (
        content
          (record {
            kind = kind';
            content_type = content_type';
            version = version';
            content_id = id';
            label = label';
            content_name = name';
            location = location';
            content_size = size';
            author_alias = alias';
            author_address = address';
            body = body';
            body_encoding = encoding';
            body_base64_encoded = base64';
            created_at = created';
            hash = hash';
            hash_algorithm = hash_algorithm';
            fingerprint = fingerprint';
            fingerprint_algorithm = fingerprint_algorithm';
            encrypted = encrypted';
            encryption_algorithm = encryption';
            encryption_passphrase = passphrase';
            encryption_passphrase_encrypted = passphrase_encrypted';
            encryption_passphrase_algorithm = passphrase_algorithm';
            base64_encoded_iv = iv';
            keywords = keywords';
            readable = readable';
            writeable = writeable';
          })
          children')

  unfoldable pub content_from_json : ℕ → Json → Result Content
  content_from_json zero j = err out_of_fuel
  content_from_json (suc fuel) j = facts_and_children (content_from_json fuel) j
