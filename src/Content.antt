-- ===== src/Content.antt =====
-- include/ra_common/content.hpp: the kinds of content, the body with its hash and fingerprint, keywords and
-- the magnet link. `Facts` has the members of a Content but its children. GenerateHash draws a salt.
pub mod Json
pub mod RoundTrip
pub mod Body
pub mod Build
use ra_common_cpp.Base.{
  ℕ, zero, suc, ◌+◌, Bool, true, false, ◌&&◌, ◌||◌, List, [], ◌∷◌, ◌++◌, map, length, Option, none,
  some, Bytes, codes, list_eq, leb, ◌==◌, if◌then◌else◌, Result, ok, err, ◌^◌, ltb,
  undefined_behaviour,
}
use ra_common_cpp.Std.Numbers.{ℤ, pos, negsuc, to_string}
use ra_common_cpp.Std.Entropy.{Source}
use ra_common_cpp.Crypto.HashAlgorithm.{HashAlgorithm, Hash, jca_name}
use ra_common_cpp.Crypto.EncryptionAlgorithm.{EncryptionAlgorithm}
use ra_common_cpp.Crypto.HashUtil.{generate_hash, generate_fingerprint}

pub data ContentKind : Type 0 where
  plain_text html json image audio video binary : ContentKind

unfoldable pub content_kind_to_string : ContentKind → Bytes
content_kind_to_string plain_text = codes "Text"
content_kind_to_string html = codes "Html"
content_kind_to_string json = codes "Json"
content_kind_to_string image = codes "Image"
content_kind_to_string audio = codes "Audio"
content_kind_to_string video = codes "Video"
content_kind_to_string binary = codes "Binary"

unfoldable pub content_kind_from_string : Bytes → ContentKind
content_kind_from_string s =
    if list_eq s (codes "Text")
    then plain_text
    else if list_eq s (codes "Html")
    then html
    else if list_eq s (codes "Json")
    then json
    else if list_eq s (codes "Image")
    then image
    else if list_eq s (codes "Audio")
    then audio
    else if list_eq s (codes "Video")
    then video
    else binary

-- content_type.rfind(prefix, 0) == 0
unfoldable pub starts_with : Bytes → Bytes → Bool
starts_with [] s = true
starts_with (p ∷ ps) [] = false
starts_with (p ∷ ps) (c ∷ s) = p == c && starts_with ps s

unfoldable pub content_kind_for_type : Bytes → Option ContentKind
unfolding starts_with
content_kind_for_type content_type =
    if starts_with (codes "text/plain") content_type
    then some plain_text
    else if starts_with (codes "text/html") content_type
    then some html
    else if starts_with (codes "application/json") content_type
    then some json
    else if starts_with (codes "image/") content_type
    then some image
    else if starts_with (codes "audio/") content_type
    then some audio
    else if starts_with (codes "video/") content_type
    then some video
    else none

unfoldable pub content_kind_is_text : ContentKind → Bool
content_kind_is_text plain_text = true
content_kind_is_text html = true
content_kind_is_text json = true
content_kind_is_text kind = false

pub record Facts : Type 0 where
  pub kind : ContentKind
  pub content_type : Bytes
  pub version : ℤ
  pub content_id : Option Bytes
  pub label : Option Bytes
  pub content_name : Option Bytes
  pub location : Option Bytes
  pub content_size : ℕ
  pub author_alias : Option Bytes
  pub author_address : Option Bytes
  pub body : Option Bytes
  pub body_encoding : Option Bytes
  pub body_base64_encoded : Bool
  pub created_at : Option ℤ
  pub hash : Option Hash
  pub hash_algorithm : HashAlgorithm
  pub fingerprint : Option Hash
  pub fingerprint_algorithm : HashAlgorithm
  pub encrypted : Bool
  pub encryption_algorithm : Option EncryptionAlgorithm
  pub encryption_passphrase : Option Bytes
  pub encryption_passphrase_encrypted : Bool
  pub encryption_passphrase_algorithm : Option EncryptionAlgorithm
  pub base64_encoded_iv : Option Bytes
  pub keywords : List Bytes
  pub readable : Bool
  pub writeable : Bool

mutual
  pub data Content : Type 0 where
    content : Facts → Contents → Content

  pub data Contents : Type 0 where
    no_children : Contents
    child : Content → Contents → Contents

unfoldable pub add_keyword : Bytes → Facts → Facts
add_keyword keyword c = record c { keywords = c.keywords ++ keyword ∷ [] }

unfoldable pub push_child : Content → Contents → Contents
push_child c no_children = child c no_children
push_child c (child d ds) = child d (push_child c ds)

unfoldable pub add_child : Content → Content → Content
unfolding push_child
add_child c (content facts cs) = content facts (push_child c cs)

-- `version_ += 1`, of an int of 32 bits.
unfoldable pub next_version : ℤ → Result ℤ
next_version (pos n) = if ltb (suc n) (2 ^ 31) then ok (pos (suc n)) else err undefined_behaviour
next_version (negsuc zero) = ok (pos 0)
next_version (negsuc (suc n)) = ok (negsuc n)

-- The two steps of SetBody that may throw, with the number of calls for entropy.
unfoldable pub set_hash : Bool → Source → ℕ → Bytes → Facts → Facts × Result ℕ
set_hash false source call body' c = (c, ok call)
set_hash true source call body' c = elim (generate_hash source call body' c.hash_algorithm) [
  | err e ↦ (c, err e)
  | ok made ↦ (
    record c { hash = some (record { hash_value = made.0; algorithm = c.hash_algorithm }) },
    ok made.1,
  )
]

unfoldable pub set_fingerprint : Bool → Facts → Facts × Result (Unit {0})
set_fingerprint false c = (c, ok tt)
set_fingerprint true c = elim c.hash [
  | none ↦ (c, ok tt)
  | some h ↦ elim (generate_fingerprint h.hash_value c.fingerprint_algorithm) [
    | err e ↦ (c, err e)
    | ok made ↦ (
      record c {
        fingerprint = some (record { hash_value = made; algorithm = c.fingerprint_algorithm });
      },
      ok tt,
    )
  ]
]

unfoldable pub store_body : Bytes → ℕ → Facts × Result (Unit {0}) → Facts × Result ℕ
unfolding next_version
store_body body' next (c, err e) = (c, err e)
store_body body' next (c, ok done) = elim (next_version c.version) [
  | err e ↦ (record c { body = some body' }, err e)
  | ok later ↦ (record c { body = some body'; version = later }, ok next)
]

unfoldable pub fingerprint_and_store : Bytes → Bool → Facts × Result ℕ → Facts × Result ℕ
unfolding set_fingerprint store_body
fingerprint_and_store body' with_fingerprint (c, err e) = (c, err e)
fingerprint_and_store body' with_fingerprint (c, ok next) =
    store_body body' next (set_fingerprint with_fingerprint c)

-- SetBody, with the content that it leaves also when it throws.
unfoldable pub set_body : Source → ℕ → Bytes → Bool → Bool → Facts → Facts × Result ℕ
unfolding set_hash fingerprint_and_store
set_body source call body' with_hash with_fingerprint c =
    fingerprint_and_store body' with_fingerprint
      (set_hash with_hash source call body' (record c { content_size = length body' }))

unfoldable pub meta_only : Facts → Bool
meta_only c = elim c.body [ none ↦ true | some bytes ↦ false ]

-- std::tolower in the "C" locale.
unfoldable pub to_lower : ℕ → ℕ
to_lower c = if leb b'A' c && leb c b'Z' then c + 32 else c

unfoldable pub join_with : Bytes → List Bytes → Bytes
join_with sep [] = []
join_with sep (part ∷ []) = part
join_with sep (part ∷ next ∷ parts) = part ++ sep ++ join_with sep (next ∷ parts)

abbrev magnet_parts : Facts → List Bytes
magnet_parts c =
    elim c.body [ none ↦ [] | some bytes ↦ (codes "xl=" ++ to_string (length bytes)) ∷ [] ]
    ++ (elim c.hash [
      | none ↦ []
      | some h ↦
          (codes "xt=urn:" ++ map to_lower (jca_name h.algorithm) ++ codes ":" ++ h.hash_value) ∷ []
    ])
    ++ (elim c.keywords [
      | [] ↦ []
      | word ∷ words ↦ (codes "kt=" ++ join_with (codes "+") (word ∷ words)) ∷ []
    ])

unfoldable pub magnet_link : Facts → Option Bytes
magnet_link c = elim (magnet_parts c) [
  | [] ↦ none
  | part ∷ parts ↦ some (codes "magnet:?" ++ join_with (codes "&") (part ∷ parts))
]
