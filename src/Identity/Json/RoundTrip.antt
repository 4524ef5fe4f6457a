-- ===== src/Identity/Json/RoundTrip.antt =====
-- What ToJson writes is what FromJson reads.
use ra_common_cpp.Base.{◌≡◌, true, false, refl, List, [], ◌∷◌, map, Bytes, codes, list_eq, ok}
use ra_common_cpp.Std.Json.{JsonLibrary, IsOrdered, names}
use ra_common_cpp.Std.Json.Fields.{
  field, optional_string, optional-field, value-field, or_default-field, at_string, at-field,
  or_default_kept, or_default_list, value_flag,
}
use ra_common_cpp.Std.Json.Arrays.{read_all, read_all-map}
use ra_common_cpp.Crypto.HashAlgorithm.{
  Hash, HashAlgorithm, algorithm_to_string, parse_hash_algorithm-names,
}
use ra_common_cpp.Identity.{
  Signature, PublicKey, Did, DidStatus, DidType, did_status_to_string, did_type_to_string,
}
use ra_common_cpp.Identity.Names.{did_status_from_string-to_string, did_type_from_string-to_string}
use ra_common_cpp.Identity.Json.{
  signature_fields, signature_to_json, signature_from_json, signed_member, read_signed, hash_fields,
  hash_to_json, hash_from_json, did_fields, did_to_json, did_from_json, default_key,
  read_did_status, read_did_type, public_key_to_json, public_key_from_json, public_key_fields,
  read_algorithm,
}

module _ {Json : Type 0} (lib : JsonLibrary Json) where
  open lib use {
    get_bool, of_bool, get_bool-of, is_empty, of_string, of_object, get_string, get_string-of,
    elements-of, items, items-of,
  }

  signature_from_json-to_json :
      (s : Signature) → signature_from_json lib (signature_to_json lib s) ≡ ok s
  unfolding signature_from_json signature_to_json field list_eq
  signature_from_json-to_json s =
      let fields = signature_fields lib s in
      rw
        (
          optional_string lib fields (codes "value_signed") s.value_signed refl,
          optional_string lib fields (codes "algorithm") s.algorithm refl,
          optional_string lib fields (codes "signed_date") s.signed_date refl,
          optional_string lib fields (codes "signed_by_username") s.signed_by_username refl,
          optional_string lib fields (codes "signed_by_fingerprint") s.signed_by_fingerprint refl,
          optional_string lib fields (codes "signed_by_address") s.signed_by_address refl,
        )
        refl

  names-signed_member :
      (entries : List (Bytes × List Signature))
      → names (map (signed_member lib) entries) ≡ names entries
  names-signed_member [] = refl
  names-signed_member ((name, sigs) ∷ entries) = rw (names-signed_member entries) refl

  read_signed-signed_member :
      (entry : Bytes × List Signature) → read_signed lib (signed_member lib entry) ≡ ok entry
  unfolding read_signed
  read_signed-signed_member (name, sigs) =
      rw
        (
          elements-of (map (signature_to_json lib) sigs),
          read_all-map (signature_to_json lib) (signature_from_json lib) signature_from_json-to_json
              sigs,
        )
        refl

  read_signed_attributes-written :
      (entries : List (Bytes × List Signature))
      → IsOrdered (names entries)
      → read_all (read_signed lib) (items (of_object (map (signed_member lib) entries)))
        ≡ ok entries
  read_signed_attributes-written entries ordered =
      let ordered' : IsOrdered (names (map (signed_member lib) entries)) =
        rw (names-signed_member entries) ordered in
      rw (items-of (map (signed_member lib) entries) ordered')
        (read_all-map (signed_member lib) (read_signed lib) read_signed-signed_member entries)

  pub read_algorithm-of_string :
      (a : HashAlgorithm) → read_algorithm lib (of_string (algorithm_to_string a)) ≡ ok a
  unfolding read_algorithm
  read_algorithm-of_string a =
      rw (get_string-of (algorithm_to_string a)) (parse_hash_algorithm-names a).0

  pub hash_from_json-to_json : (h : Hash) → hash_from_json lib (hash_to_json lib h) ≡ ok h
  unfolding hash_from_json hash_to_json field list_eq
  hash_from_json-to_json h =
      let fields = hash_fields lib h in
      rw
        (
          at_string lib fields (codes "hash") h.hash_value refl,
          at-field lib (read_algorithm lib) fields (codes "algorithm")
              (of_string (algorithm_to_string h.algorithm)) h.algorithm refl
              (read_algorithm-of_string h.algorithm),
        )
        refl

  pub public_key_from_json-to_json :
      (k : PublicKey Json)
      → (is_empty k.attributes ≡ true → k.attributes ≡ of_object [])
      → IsOrdered (names k.signed_attributes)
      → public_key_from_json lib (public_key_to_json lib k) ≡ ok k
  unfolding public_key_from_json public_key_to_json field list_eq
  public_key_from_json-to_json k kept ordered =
      let fields = public_key_fields lib k in
      rw
        (
          optional_string lib fields (codes "alias") k.alias refl,
          optional_string lib fields (codes "fingerprint") k.fingerprint_value refl,
          optional_string lib fields (codes "address") k.address_value refl,
          optional_string lib fields (codes "type") k.key_type refl,
          value_flag lib fields (codes "is_identity_key") k.is_identity_key refl,
          value_flag lib fields (codes "is_encryption_key") k.is_encryption_key refl,
          value_flag lib fields (codes "is_base64_encoded") k.is_base64_encoded refl,
          value_flag lib fields (codes "is_base58_encoded") k.is_base58_encoded refl,
          value_flag lib fields (codes "is_pem") k.is_pem refl,
          value_flag lib fields (codes "is_hex") k.is_hex refl,
          or_default_kept lib fields (codes "attributes") k.attributes refl kept,
          or_default_list lib fields (codes "signed_attributes")
              (λ v. read_all (read_signed lib) (items v))
              (λ entries. of_object (map (signed_member lib) entries)) k.signed_attributes refl
              (read_signed_attributes-written k.signed_attributes ordered),
        )
        refl

  read_did_status-of_string :
      (x : DidStatus) → read_did_status lib (of_string (did_status_to_string x)) ≡ ok x
  unfolding read_did_status
  read_did_status-of_string x =
      rw (get_string-of (did_status_to_string x), did_status_from_string-to_string x) refl

  read_did_type-of_string :
      (x : DidType) → read_did_type lib (of_string (did_type_to_string x)) ≡ ok x
  unfolding read_did_type
  read_did_type-of_string x =
      rw (get_string-of (did_type_to_string x), did_type_from_string-to_string x) refl

  -- FromJson reads from the text of an identity the same identity, its public key and signed
  -- attributes included, if empty attributes are {} and the names of the signed attributes are in
  -- the order of the map.
  pub did_from_json-to_json :
      (d : Did Json)
      → (is_empty d.public_key.attributes ≡ true → d.public_key.attributes ≡ of_object [])
      → IsOrdered (names d.public_key.signed_attributes)
      → did_from_json lib (did_to_json lib d) ≡ ok d
  unfolding did_from_json did_to_json field list_eq
  did_from_json-to_json d kept ordered =
      let fields = did_fields lib d in
      rw
        (
          value-field lib get_string fields (codes "username") (of_string d.username) (codes "Anon")
              d.username refl (get_string-of d.username),
          optional_string lib fields (codes "passphrase") d.passphrase refl,
          optional_string lib fields (codes "passphrase2") d.passphrase2 refl,
          optional-field lib (hash_from_json lib) fields (codes "passphrase_hash")
              (hash_to_json lib) d.passphrase_hash refl hash_from_json-to_json,
          or_default-field lib (read_algorithm lib) fields (codes "passphrase_hash_algorithm")
              (of_string (algorithm_to_string d.passphrase_hash_algorithm))
              HashAlgorithm.pbkdf2_hmac_sha1 d.passphrase_hash_algorithm refl
              (read_algorithm-of_string d.passphrase_hash_algorithm),
          value-field lib get_string fields (codes "description") (of_string d.description) []
              d.description refl (get_string-of d.description),
          or_default-field lib (read_did_status lib) fields (codes "status")
              (of_string (did_status_to_string d.status)) DidStatus.inactive d.status refl
              (read_did_status-of_string d.status),
          or_default-field lib (read_did_type lib) fields (codes "did_type")
              (of_string (did_type_to_string d.did_type)) DidType.identity d.did_type refl
              (read_did_type-of_string d.did_type),
          value-field lib get_bool fields (codes "verified") (of_bool d.verified) false d.verified
              refl (get_bool-of d.verified),
          value-field lib get_bool fields (codes "authenticated") (of_bool d.authenticated) false
              d.authenticated refl (get_bool-of d.authenticated),
          or_default-field lib (public_key_from_json lib) fields (codes "public_key")
              (public_key_to_json lib d.public_key) (default_key lib) d.public_key refl
              (public_key_from_json-to_json d.public_key kept ordered),
        )
        refl
