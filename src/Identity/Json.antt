-- ===== src/Identity/Json.antt =====
-- ToJson and FromJson of Signature, PublicKey, Hash and Did.
pub mod RoundTrip
use ra_common_cpp.Base.{
  Bool, true, false, List, [], ◌∷◌, Option, none, some, Bytes, codes, map, if◌then◌else◌, Result,
  ok, err, ◌>>=◌,
}
use ra_common_cpp.Std.Json.{JsonLibrary, Members}
use ra_common_cpp.Std.Json.Fields.{
  Fields, written, written_list, written_flag, present, at, optional, or_default, value,
}
use ra_common_cpp.Std.Json.Arrays.{read_all}
use ra_common_cpp.Crypto.HashAlgorithm.{
  HashAlgorithm, Hash, algorithm_to_string, parse_hash_algorithm,
}
use ra_common_cpp.Identity.{
  Signature, Signed, PublicKey, Did, DidStatus, DidType, did_status_to_string,
  did_status_from_string, did_type_to_string, did_type_from_string,
}

module _ {Json : Type 0} (lib : JsonLibrary Json) where
  open lib use {
    of_bool, of_string, of_array, of_object, get_bool, get_string, elements, items, is_empty,
  }

  abbrev pub signature_fields : Signature → Fields Json
  signature_fields s =
      (codes "value_signed", written of_string s.value_signed)
      ∷ (codes "algorithm", written of_string s.algorithm)
      ∷ (codes "signed_date", written of_string s.signed_date)
      ∷ (codes "signed_by_username", written of_string s.signed_by_username)
      ∷ (codes "signed_by_fingerprint", written of_string s.signed_by_fingerprint)
      ∷ (codes "signed_by_address", written of_string s.signed_by_address)
      ∷ []

  unfoldable pub signature_to_json : Signature → Json
  signature_to_json s = of_object (present (signature_fields s))

  unfoldable pub signature_from_json : Json → Result Signature
  signature_from_json j = do
    value_signed' ← optional lib get_string j (codes "value_signed")
    algorithm' ← optional lib get_string j (codes "algorithm")
    signed_date' ← optional lib get_string j (codes "signed_date")
    username' ← optional lib get_string j (codes "signed_by_username")
    fingerprint' ← optional lib get_string j (codes "signed_by_fingerprint")
    address' ← optional lib get_string j (codes "signed_by_address")
    ok (record {
      value_signed = value_signed';
      algorithm = algorithm';
      signed_date = signed_date';
      signed_by_username = username';
      signed_by_fingerprint = fingerprint';
      signed_by_address = address';
    })

  abbrev signed_member : Bytes × List Signature → Bytes × Json
  signed_member (name, sigs) = (name, of_array (map signature_to_json sigs))

  abbrev pub public_key_fields : PublicKey Json → Fields Json
  public_key_fields k =
      (codes "alias", written of_string k.alias)
      ∷ (codes "fingerprint", written of_string k.fingerprint_value)
      ∷ (codes "address", written of_string k.address_value)
      ∷ (codes "type", written of_string k.key_type)
      ∷ (codes "is_identity_key", written_flag of_bool k.is_identity_key)
      ∷ (codes "is_encryption_key", written_flag of_bool k.is_encryption_key)
      ∷ (codes "is_base64_encoded", written_flag of_bool k.is_base64_encoded)
      ∷ (codes "is_base58_encoded", written_flag of_bool k.is_base58_encoded)
      ∷ (codes "is_pem", written_flag of_bool k.is_pem)
      ∷ (codes "is_hex", written_flag of_bool k.is_hex)
      ∷ (codes "attributes", if is_empty k.attributes then none else some k.attributes)
      ∷ (
        codes "signed_attributes",
        written_list (λ entries. of_object (map signed_member entries)) k.signed_attributes,
      )
      ∷ []

  unfoldable pub public_key_to_json : PublicKey Json → Json
  public_key_to_json k = of_object (present (public_key_fields k))

  unfoldable pub read_signed : Bytes × Json → Result (Bytes × List Signature)
  read_signed (name, v) = do sigs ← read_all signature_from_json (elements v); ok (name, sigs)

  unfoldable pub public_key_from_json : Json → Result (PublicKey Json)
  public_key_from_json j = do
    alias' ← optional lib get_string j (codes "alias")
    fingerprint' ← optional lib get_string j (codes "fingerprint")
    address' ← optional lib get_string j (codes "address")
    type' ← optional lib get_string j (codes "type")
    identity' ← value lib get_bool j (codes "is_identity_key") false
    encryption' ← value lib get_bool j (codes "is_encryption_key") false
    base64' ← value lib get_bool j (codes "is_base64_encoded") false
    base58' ← value lib get_bool j (codes "is_base58_encoded") false
    pem' ← value lib get_bool j (codes "is_pem") false
    hex' ← value lib get_bool j (codes "is_hex") false
    attributes' ← or_default lib ok j (codes "attributes") (of_object [])
    signed' ← or_default lib (λ v. read_all read_signed (items v)) j (codes "signed_attributes") []
    ok (record {
      alias = alias';
      fingerprint_value = fingerprint';
      address_value = address';
      key_type = type';
      is_identity_key = identity';
      is_encryption_key = encryption';
      is_base64_encoded = base64';
      is_base58_encoded = base58';
      is_pem = pem';
      is_hex = hex';
      attributes = attributes';
      signed_attributes = signed';
    })

  abbrev pub hash_fields : Hash → Fields Json
  hash_fields h =
      (codes "hash", some (of_string h.hash_value))
      ∷ (codes "algorithm", some (of_string (algorithm_to_string h.algorithm)))
      ∷ []

  unfoldable pub hash_to_json : Hash → Json
  hash_to_json h = of_object (present (hash_fields h))

  -- get<std::string>() and ParseHashAlgorithm
  unfoldable pub read_algorithm : Json → Result HashAlgorithm
  read_algorithm j = do text ← get_string j; parse_hash_algorithm text

  unfoldable pub hash_from_json : Json → Result Hash
  hash_from_json j = do
    value' ← at lib get_string j (codes "hash")
    algorithm' ← at lib read_algorithm j (codes "algorithm")
    ok (record { hash_value = value'; algorithm = algorithm' })

  abbrev pub did_fields : Did Json → Fields Json
  did_fields d =
      (codes "username", some (of_string d.username))
      ∷ (codes "passphrase", written of_string d.passphrase)
      ∷ (codes "passphrase2", written of_string d.passphrase2)
      ∷ (codes "passphrase_hash", written hash_to_json d.passphrase_hash)
      ∷ (
        codes "passphrase_hash_algorithm",
        some (of_string (algorithm_to_string d.passphrase_hash_algorithm)),
      )
      ∷ (codes "description", some (of_string d.description))
      ∷ (codes "status", some (of_string (did_status_to_string d.status)))
      ∷ (codes "did_type", some (of_string (did_type_to_string d.did_type)))
      ∷ (codes "verified", some (of_bool d.verified))
      ∷ (codes "authenticated", some (of_bool d.authenticated))
      ∷ (codes "public_key", some (public_key_to_json d.public_key))
      ∷ []

  unfoldable pub did_to_json : Did Json → Json
  did_to_json d = of_object (present (did_fields d))

  unfoldable pub read_did_status : Json → Result DidStatus
  read_did_status j = do text ← get_string j; ok (did_status_from_string text)

  unfoldable pub read_did_type : Json → Result DidType
  read_did_type j = do text ← get_string j; ok (did_type_from_string text)

  -- A PublicKey by its default member initializers.
  unfoldable pub default_key : PublicKey Json
  default_key = record {
    alias = none;
    fingerprint_value = none;
    address_value = none;
    key_type = none;
    is_identity_key = false;
    is_encryption_key = false;
    is_base64_encoded = false;
    is_base58_encoded = false;
    is_pem = false;
    is_hex = false;
    attributes = of_object [];
    signed_attributes = [];
  }

  -- A Did by its default member initializers.
  unfoldable pub default_did : Did Json
  unfolding default_key
  default_did = record {
    username = codes "Anon";
    passphrase = none;
    passphrase2 = none;
    passphrase_hash = none;
    passphrase_hash_algorithm = HashAlgorithm.pbkdf2_hmac_sha1;
    description = [];
    status = DidStatus.inactive;
    did_type = DidType.identity;
    verified = false;
    authenticated = false;
    public_key = default_key;
  }

  unfoldable pub did_from_json : Json → Result (Did Json)
  did_from_json j = do
    username' ← value lib get_string j (codes "username") (codes "Anon")
    passphrase' ← optional lib get_string j (codes "passphrase")
    second' ← optional lib get_string j (codes "passphrase2")
    hash' ← optional lib hash_from_json j (codes "passphrase_hash")
    algorithm' ←
        or_default lib read_algorithm j (codes "passphrase_hash_algorithm")
          HashAlgorithm.pbkdf2_hmac_sha1
    description' ← value lib get_string j (codes "description") []
    status' ← or_default lib read_did_status j (codes "status") DidStatus.inactive
    type' ← or_default lib read_did_type j (codes "did_type") DidType.identity
    verified' ← value lib get_bool j (codes "verified") false
    authenticated' ← value lib get_bool j (codes "authenticated") false
    key' ← or_default lib public_key_from_json j (codes "public_key") default_key
    ok (record {
      username = username';
      passphrase = passphrase';
      passphrase2 = second';
      passphrase_hash = hash';
      passphrase_hash_algorithm = algorithm';
      description = description';
      status = status';
      did_type = type';
      verified = verified';
      authenticated = authenticated';
      public_key = key';
    })
