-- ===== src/Identity/Signatures.antt =====
-- The signatures that a key carries for a name, after one is added and after a signer's are removed.
use ra_common_cpp.Base.{
  ◌≡◌, inl, inr, false, List, [], ◌∷◌, ◌++◌, some, Bytes, All, list_eq, list_eq_iff, list_eq_refl,
  if◌then◌else◌, Bool-cases, arith,
}
use ra_common_cpp.Identity.{
  Signature, Signed, PublicKey, option_eq, find, push, without, remove, add_signed_attribute,
  remove_signature,
}

find-push :
    (name other : Bytes) (s : Signature) (entries : Signed)
    → find other (push name s entries)
      ≡ (if list_eq name other then find name entries ++ s ∷ [] else find other entries)
unfolding find push
find-push name other s [] = ground arith
find-push name other s ((key, sigs) ∷ entries) = ground (
  arith,
  find-push name other s entries,
  list_eq_iff key name,
  list_eq_iff name other,
  list_eq_iff key other,
)

find-remove :
    (name other address : Bytes) (entries : Signed)
    → find other (remove name address entries)
      ≡ (if list_eq name other then without address (find name entries) else find other entries)
unfolding find remove
find-remove name other address [] = ground arith
find-remove name other address ((key, sigs) ∷ entries) = ground (
  arith,
  find-remove name other address entries,
  list_eq_iff key name,
  list_eq_iff name other,
  list_eq_iff key other,
)

-- AddSignedAttribute puts the signature behind those of its name and keeps those of every other
-- name.
pub add_signed_attribute-find :
    {Json : Type 0} (name other : Bytes) (s : Signature) (pk : PublicKey Json)
    → find other (add_signed_attribute name s pk).signed_attributes ≡ (
        if list_eq name other
        then find name pk.signed_attributes ++ s ∷ []
        else find other pk.signed_attributes)
unfolding add_signed_attribute
add_signed_attribute-find name other s pk = find-push name other s pk.signed_attributes

-- RemoveSignature removes the signatures of the signer from those of its name and keeps those of
-- every other name.
pub remove_signature-find :
    {Json : Type 0} (name other address : Bytes) (pk : PublicKey Json)
    → find other (remove_signature name address pk).signed_attributes ≡ (
        if list_eq name other
        then without address (find name pk.signed_attributes)
        else find other pk.signed_attributes)
unfolding remove_signature
remove_signature-find name other address pk = find-remove name other address pk.signed_attributes

without-All :
    (address : Bytes) (sigs : List Signature)
    → All (λ s. option_eq s.signed_by_address (some address) ≡ false) (without address sigs)
unfolding without
without-All address [] = tt
without-All address (s ∷ sigs) = elim (Bool-cases (option_eq s.signed_by_address (some address))) [
  | inl e ↦ rw e (without-All address sigs)
  | inr e ↦ rw e (e, without-All address sigs)
]

-- After RemoveSignature for a name and a signer address, no signature under that name has that
-- address.
pub remove_signature-All :
    {Json : Type 0} (name address : Bytes) (pk : PublicKey Json)
    → All
        (λ s. option_eq s.signed_by_address (some address) ≡ false)
        (find name (remove_signature name address pk).signed_attributes)
unfolding remove_signature
remove_signature-All name address pk =
    let e : find name (remove name address pk.signed_attributes)
        ≡ without address (find name pk.signed_attributes) =
      ground (arith, find-remove name name address pk.signed_attributes, list_eq_refl name) in
    rw e (without-All address (find name pk.signed_attributes))
