-- ===== src/Content/Build.antt =====
-- Content::Build of include/ra_common/content.hpp. `now` is the time of system_clock in milliseconds; the
-- random bytes are those of a `Source`, and the result has the number of its next call.
pub mod Built
use ra_common_cpp.Base.{
  ℕ, Bool, true, false, List, [], ◌∷◌, ◌++◌, length, drop, Option, none, some, Bytes, codes,
  if◌then◌else◌, Result, ok, err, throw_invalid, ◌>>=◌,
}
use ra_common_cpp.Std.Numbers.{ℤ, pos}
use ra_common_cpp.Std.Entropy.{Source}
use ra_common_cpp.Util.Random.{random_alphanumeric}
use ra_common_cpp.Crypto.HashAlgorithm.{HashAlgorithm}
use ra_common_cpp.Content.{ContentKind, Facts, starts_with, content_kind_for_type, set_body}

-- What stands behind the first occurrence of a text that is not empty; find() and substr().
unfoldable pub behind : Bytes → Bytes → Option Bytes
unfolding starts_with
behind text [] = none
behind text (c ∷ s) =
    let later = behind text s in
    if starts_with text (c ∷ s) then some (drop (length text) (c ∷ s)) else later

-- The members of a new Content, with the label, the name and the encoding that Build sets.
unfoldable pub fresh_facts : ContentKind → Bytes → Option Bytes → Option Bytes → Facts
unfolding behind
fresh_facts kind content_type label name = record {
  kind = kind;
  content_type = content_type;
  version = pos 0;
  content_id = none;
  label = label;
  content_name = name;
  location = none;
  content_size = 0;
  author_alias = none;
  author_address = none;
  body = none;
  body_encoding = behind (codes "charset:") content_type;
  body_base64_encoded = false;
  created_at = none;
  hash = none;
  hash_algorithm = HashAlgorithm.sha256;
  fingerprint = none;
  fingerprint_algorithm = HashAlgorithm.sha1;
  encrypted = false;
  encryption_algorithm = none;
  encryption_passphrase = none;
  encryption_passphrase_encrypted = false;
  encryption_passphrase_algorithm = none;
  base64_encoded_iv = none;
  keywords = [];
  readable = false;
  writeable = false;
}

unfoldable pub stamp : Source → ℤ → Facts × Result ℕ → Result (Facts × ℕ)
unfolding random_alphanumeric
stamp source now (c, err e) = err e
stamp source now (c, ok next) = do
  (id, last) ← random_alphanumeric source next 32
  ok (record c { created_at = some now; content_id = some id }, last)

unfoldable pub build :
    Source → ℕ → ℤ → Bytes → Bytes → Option Bytes → Option Bytes → Bool → Bool → Result (Facts × ℕ)
unfolding content_kind_for_type fresh_facts set_body stamp
build source call now body content_type label name with_hash with_fingerprint =
    elim (content_kind_for_type content_type) [
      | none ↦ throw_invalid (codes "unsupported content type: " ++ content_type)
      | some kind ↦ stamp source now (
          set_body source call body with_hash with_fingerprint
            (fresh_facts kind content_type label name))
    ]
