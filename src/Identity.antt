-- ===== src/Identity.antt =====
-- include/ra_common/identity: Signature, PublicKey and Did, over the type `Json` of attribute values.
pub mod Signatures
pub mod Names
pub mod Json
pub mod Make
use ra_common_cpp.Base.{
  Bool, true, false, not, List, [], ◌∷◌, ◌++◌, Option, none, some, Bytes, codes, list_eq,
  if◌then◌else◌,
}
use ra_common_cpp.Crypto.HashAlgorithm.{HashAlgorithm, Hash}

pub record Signature : Type 0 where
  pub value_signed : Option Bytes
  pub algorithm : Option Bytes
  pub signed_date : Option Bytes
  pub signed_by_username : Option Bytes
  pub signed_by_fingerprint : Option Bytes
  pub signed_by_address : Option Bytes

-- `==` on std::optional<std::string>
unfoldable pub option_eq : Option Bytes → Option Bytes → Bool
option_eq none none = true
option_eq none (some b) = false
option_eq (some a) none = false
option_eq (some a) (some b) = list_eq a b

-- Signature::Equals
unfoldable pub signature_equals : Signature → Signature → Bool
unfolding option_eq
signature_equals s other = elim s.signed_by_address [
  | none ↦ false
  | some a ↦ option_eq (some a) other.signed_by_address
]

-- std::map<std::string, std::vector<Signature>> as a list of keys with their signatures.
abbrev pub Signed : Type 0
Signed = List (Bytes × List Signature)

pub record PublicKey (Json : Type 0) : Type 0 where
  pub alias : Option Bytes
  pub fingerprint_value : Option Bytes
  pub address_value : Option Bytes
  pub key_type : Option Bytes
  pub is_identity_key : Bool
  pub is_encryption_key : Bool
  pub is_base64_encoded : Bool
  pub is_base58_encoded : Bool
  pub is_pem : Bool
  pub is_hex : Bool
  pub attributes : Json
  pub signed_attributes : Signed

unfoldable pub find : Bytes → Signed → List Signature
find name [] = []
find name ((key, sigs) ∷ entries) = if list_eq key name then sigs else find name entries

-- signed_attributes[name].push_back(signature), which adds a missing key.
unfoldable pub push : Bytes → Signature → Signed → Signed
push name signature [] = (name, signature ∷ []) ∷ []
push name signature ((key, sigs) ∷ entries) =
    let rest = push name signature entries in
    if list_eq key name then (key, sigs ++ signature ∷ []) ∷ entries else (key, sigs) ∷ rest

-- std::remove_if and erase over the signatures of one key.
unfoldable pub without : Bytes → List Signature → List Signature
unfolding option_eq
without address [] = []
without address (s ∷ sigs) =
    let rest = without address sigs in
    if option_eq s.signed_by_address (some address) then rest else s ∷ rest

unfoldable pub remove : Bytes → Bytes → Signed → Signed
unfolding without
remove name address [] = []
remove name address ((key, sigs) ∷ entries) =
    let rest = remove name address entries in
    if list_eq key name then (key, without address sigs) ∷ entries else (key, sigs) ∷ rest

unfoldable pub add_signed_attribute :
    {Json : Type 0} → Bytes → Signature → PublicKey Json → PublicKey Json
unfolding push
add_signed_attribute name signature pk = record pk {
  signed_attributes = push name signature pk.signed_attributes;
}

unfoldable pub remove_signature : {Json : Type 0} → Bytes → Bytes → PublicKey Json → PublicKey Json
unfolding remove
remove_signature name address pk = record pk {
  signed_attributes = remove name address pk.signed_attributes;
}

pub data DidStatus : Type 0 where
  inactive active suspended private : DidStatus

unfoldable pub did_status_to_string : DidStatus → Bytes
did_status_to_string DidStatus.inactive = codes "Inactive"
did_status_to_string DidStatus.active = codes "Active"
did_status_to_string DidStatus.suspended = codes "Suspended"
did_status_to_string DidStatus.private = codes "Private"

unfoldable pub did_status_from_string : Bytes → DidStatus
did_status_from_string s =
    if list_eq s (codes "Active")
    then DidStatus.active
    else if list_eq s (codes "Suspended")
    then DidStatus.suspended
    else if list_eq s (codes "Private")
    then DidStatus.private
    else DidStatus.inactive

pub data DidType : Type 0 where
  contact identity node : DidType

unfoldable pub did_type_to_string : DidType → Bytes
did_type_to_string DidType.contact = codes "Contact"
did_type_to_string DidType.identity = codes "Identity"
did_type_to_string DidType.node = codes "Node"

unfoldable pub did_type_from_string : Bytes → DidType
did_type_from_string s =
    if list_eq s (codes "Contact")
    then DidType.contact
    else if list_eq s (codes "Node")
    then DidType.node
    else DidType.identity

pub record Did (Json : Type 0) : Type 0 where
  pub username : Bytes
  pub passphrase : Option Bytes
  pub passphrase2 : Option Bytes
  pub passphrase_hash : Option Hash
  pub passphrase_hash_algorithm : HashAlgorithm
  pub description : Bytes
  pub status : DidStatus
  pub did_type : DidType
  pub verified : Bool
  pub authenticated : Bool
  pub public_key : PublicKey Json

unfoldable pub effective_passphrase_hash_algorithm : {Json : Type 0} → Did Json → HashAlgorithm
effective_passphrase_hash_algorithm d = elim d.passphrase_hash [
  | some h ↦ h.algorithm
  | none ↦ d.passphrase_hash_algorithm
]

-- Did::ClearSensitive
unfoldable pub clear_sensitive : {Json : Type 0} → Did Json → Did Json
clear_sensitive d = record d {
  username = [];
  passphrase = none;
  passphrase2 = none;
  description = [];
  status = DidStatus.private;
  verified = false;
  authenticated = false;
}
