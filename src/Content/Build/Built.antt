-- ===== src/Content/Build/Built.antt =====
-- What Content::Build builds.
use ra_common_cpp.Base.{
  ℕ, ◌≡◌, ◌++◌, refl, ap, Bool, true, false, ◌∷◌, Option, none, some, Bytes, All, length, Result,
  ok, err,
}
use ra_common_cpp.Std.Numbers.{ℤ, pos}
use ra_common_cpp.Std.Entropy.{Source, random_bytes_of_lem, NeverFails}
use ra_common_cpp.Util.Random.Ranges.{is_alphanumeric, random_alphanumeric-All}
use ra_common_cpp.Encoding.Base64.{base64_encode}
use ra_common_cpp.Crypto.Sha.Sha2.{sha256}
use ra_common_cpp.Content.Body.{set_hash-ok}
use ra_common_cpp.Crypto.HashAlgorithm.{HashAlgorithm, Hash}
use ra_common_cpp.Crypto.HashUtil.{digest, generate_hash, generate_fingerprint, verify_hash}
use ra_common_cpp.Crypto.HashUtil.Verify.{verify_hash-generate_hash}
use ra_common_cpp.Content.{
  ContentKind, Facts, content_kind_for_type, next_version, set_hash, set_fingerprint, store_body,
  fingerprint_and_store, set_body,
}
use ra_common_cpp.Content.Build.{fresh_facts, stamp, build}

generate_hash-sha256 :
    (source : Source) (call : ℕ) (body : Bytes)
    → NeverFails source
    → (made : Bytes × ℕ) × (generate_hash source call body HashAlgorithm.sha256 ≡ ok made)
unfolding generate_hash digest
generate_hash-sha256 source call body always =
    let ((salt, next), (gives, _)) = random_bytes_of_lem source call 16 always in
    ((base64_encode (sha256 (salt ++ body)) ++ b'_' ∷ base64_encode salt, next), rw gives refl)

-- A hash that the body verifies against, where one was asked for.
abbrev pub Hashed : Bool → Bytes → Option Hash → Type 0
Hashed false body o = o ≡ none
Hashed true body o =
    (h : Hash) × (o ≡ some h) × (verify_hash body h.hash_value h.algorithm ≡ ok true)

pub record IsBuilt (body content_type : Bytes) (kind : ContentKind) (with_hash : Bool) (c : Facts)
    : Type 0 where
  pub has_body : c.body ≡ some body
  pub has_size : c.content_size ≡ length body
  pub is_first : c.version ≡ pos 1
  pub has_kind : c.kind ≡ kind
  pub keeps_type : c.content_type ≡ content_type
  pub is_hashed : Hashed with_hash body c.hash

module _ (source : Source) (call : ℕ) (body content_type : Bytes) (kind : ContentKind)
    (label name : Option Bytes) (always : NeverFails source) where
  abbrev Stored : Bool → Facts × Result ℕ → Type 0
  Stored with_hash p = (next : ℕ) × (p.1 ≡ ok next) × IsBuilt body content_type kind with_hash p.0

  unhashed :
      (with_fingerprint : Bool)
      → Stored false (
          set_body source call body false with_fingerprint
            (fresh_facts kind content_type label name))
  unfolding set_body set_hash fingerprint_and_store set_fingerprint store_body next_version
      fresh_facts
  unhashed false = (
    call,
    refl,
    record {
      has_body = refl;
      has_size = refl;
      is_first = refl;
      has_kind = refl;
      keeps_type = refl;
      is_hashed = refl;
    },
  )
  unhashed true = (
    call,
    refl,
    record {
      has_body = refl;
      has_size = refl;
      is_first = refl;
      has_kind = refl;
      keeps_type = refl;
      is_hashed = refl;
    },
  )

  abbrev sized : Facts
  sized = record (fresh_facts kind content_type label name) { content_size = length body }

  abbrev hashed : Bytes → Facts
  hashed text = record sized {
    hash = some (record { hash_value = text; algorithm = HashAlgorithm.sha256 });
  }

  fingerprint_and_store-Stored :
      (with_fingerprint : Bool) (text : Bytes) (next : ℕ)
      → verify_hash body text HashAlgorithm.sha256 ≡ ok true
      → Stored true (fingerprint_and_store body with_fingerprint (hashed text, ok next))
  unfolding fingerprint_and_store set_fingerprint store_body next_version fresh_facts
      generate_fingerprint digest
  fingerprint_and_store-Stored false text next verifies = (
    next,
    refl,
    record {
      has_body = refl;
      has_size = refl;
      is_first = refl;
      has_kind = refl;
      keeps_type = refl;
      is_hashed = (record { hash_value = text; algorithm = HashAlgorithm.sha256 }, refl, verifies);
    },
  )
  fingerprint_and_store-Stored true text next verifies = (
    next,
    refl,
    record {
      has_body = refl;
      has_size = refl;
      is_first = refl;
      has_kind = refl;
      keeps_type = refl;
      is_hashed = (record { hash_value = text; algorithm = HashAlgorithm.sha256 }, refl, verifies);
    },
  )

  set_body-hashed :
      (with_fingerprint : Bool) (text : Bytes) (next : ℕ)
      → generate_hash source call body HashAlgorithm.sha256 ≡ ok (text, next)
      → set_body source call body true with_fingerprint (fresh_facts kind content_type label name)
        ≡ fingerprint_and_store body with_fingerprint (hashed text, ok next)
  unfolding set_body fresh_facts
  set_body-hashed with_fingerprint text next makes =
      ap (fingerprint_and_store body with_fingerprint)
        (set_hash-ok source call body with_fingerprint sized text next makes)

  set_body-Stored :
      (with_hash with_fingerprint : Bool)
      → Stored with_hash (
          set_body source call body with_hash with_fingerprint
            (fresh_facts kind content_type label name))
  set_body-Stored false with_fingerprint = unhashed with_fingerprint
  set_body-Stored true with_fingerprint =
      let ((text, next), makes) = generate_hash-sha256 source call body always in
      rw (set_body-hashed with_fingerprint text next makes) (
        fingerprint_and_store-Stored with_fingerprint text next
          (verify_hash-generate_hash source call body HashAlgorithm.sha256 text next makes))

  -- The content with its time and its id.
  abbrev IsStamped : ℤ → Bool → Facts → Type 0
  IsStamped now with_hash c =
      IsBuilt body content_type kind with_hash c
      × (c.created_at ≡ some now)
      × ((id : Bytes) × (c.content_id ≡ some id)
          × (length id ≡ 32)
          × All (λ b. is_alphanumeric b ≡ true) id)

  stamp-IsStamped :
      (now : ℤ) (with_hash : Bool) (c : Facts) (r : Result ℕ) (next : ℕ)
      → r ≡ ok next
      → IsBuilt body content_type kind with_hash c
      → (built : Facts × ℕ) × (stamp source now (c, r) ≡ ok built) × IsStamped now with_hash built.0
  unfolding stamp
  stamp-IsStamped now with_hash c (err e) next returns b = absurd (cc)
  stamp-IsStamped now with_hash c (ok k) next returns b =
      let ((id, last), draws, size, good) = random_alphanumeric-All source k 32 always in
      (
        (record c { created_at = some now; content_id = some id }, last),
        rw draws refl,
        (
          record {
            has_body = b.has_body;
            has_size = b.has_size;
            is_first = b.is_first;
            has_kind = b.has_kind;
            keeps_type = b.keeps_type;
            is_hashed = b.is_hashed;
          },
          refl,
          (id, refl, size, good),
        ),
      )

  -- If the content type is a known one and getentropy succeeds for every count of at most 256
  -- bytes, Build returns a content with the body, its size, its type and kind, the version 1, the
  -- current time, an id of 32 letters and digits, and a hash just when one was asked for, which
  -- then the body verifies against.
  pub build_lem :
      (now : ℤ) (with_hash with_fingerprint : Bool)
      → content_kind_for_type content_type ≡ some kind
      → (built : Facts × ℕ) × (build source call now body content_type label name with_hash
            with_fingerprint
          ≡ ok built)
        × IsStamped now with_hash built.0
  unfolding build
  build_lem now with_hash with_fingerprint known =
      let (next, returns, b) = set_body-Stored with_hash with_fingerprint in
      let (built, gives, good) = stamp-IsStamped now with_hash _ _ next returns b in
      (built, rw known gives, good)
