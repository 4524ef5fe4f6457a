-- ===== src/Identity/Make.antt =====
-- The constructors of class PublicKey and class Did, and the attributes of a key. `attributes[name] = value` is
-- `assign`, which throws where the attributes are neither an object nor null.
use ra_common_cpp.Base.{
  Bool, true, false, ◌≡◌, refl, ap, ◌∙◌, Option, none, some, Bytes, list_eq, if◌then◌else◌, Result,
  ok, ◌>>=◌,
}
use ra_common_cpp.Std.Json.{JsonLibrary}
use ra_common_cpp.Identity.{PublicKey, Did}
use ra_common_cpp.Identity.Json.{default_key, default_did}

module _ {Json : Type 0} (lib : JsonLibrary Json) where
  open lib use {null, find_member, is_object, assign, assign-of}

  unfoldable pub from_address : Bytes → PublicKey Json
  unfolding default_key
  from_address address = record (default_key lib) { address_value = some address }

  unfoldable pub with_username : Bytes → Did Json
  unfolding default_did
  with_username username = record (default_did lib) { username = username }

  unfoldable pub add_attribute : Bytes → Json → PublicKey Json → Result (PublicKey Json)
  add_attribute name v pk = do
    after ← assign pk.attributes name v
    ok (record pk { attributes = after })

  unfoldable pub null_or : Option Json → Json
  null_or none = null
  null_or (some v) = v

  unfoldable pub attribute : Bytes → PublicKey Json → Json
  unfolding null_or
  attribute name pk = null_or (find_member pk.attributes name)

  found_after :
      (b : Bool) (v : Json) (old : Option Json)
      → null_or (if b then some v else old) ≡ (if b then v else null_or old)
  unfolding null_or
  found_after true v old = refl
  found_after false v old = refl

  -- On attributes that are an object, AddAttribute returns, and Attribute then gives the new value under its
  -- name and under every other name what it gave before.
  pub add_attribute-attribute :
      (name : Bytes) (v : Json) (pk : PublicKey Json)
      → is_object pk.attributes ≡ true
      → (after : PublicKey Json) × ((add_attribute name v pk ≡ ok after)
          × ((other : Bytes)
              → attribute other after ≡ (if list_eq name other then v else attribute other pk)))
  unfolding add_attribute attribute
  add_attribute-attribute name v pk object' =
      let (attributes', (assigned, finds)) = assign-of pk.attributes name v object' in
      (
        record pk { attributes = attributes' },
        (
          rw assigned refl,
          λ other.
              ap null_or (finds other)
              ∙ found_after (list_eq name other) v (find_member pk.attributes other),
        ),
      )
