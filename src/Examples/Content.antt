-- ===== src/Examples/Content.antt =====
-- Contents, and their theorems at concrete inputs.
use ra_common_cpp.Base.{◌≡◌, refl, true, false, [], ◌∷◌, none, some, codes, ok, arith}
use ra_common_cpp.Std.Numbers.{pos, negsuc}
use ra_common_cpp.Std.Entropy.{random_bytes_of}
use ra_common_cpp.Crypto.HashAlgorithm.{HashAlgorithm, Hash}
use ra_common_cpp.Crypto.EncryptionAlgorithm.{EncryptionAlgorithm}
use ra_common_cpp.Crypto.HashUtil.{digest, generate_hash, verify_hash}
use ra_common_cpp.Content.{plain_text, image, Facts, Content, content, child, no_children, set_body}
use ra_common_cpp.Content.Json.{content_to_json, content_from_json}
use ra_common_cpp.Content.RoundTrip.{content_from_json-to_json}
use ra_common_cpp.Content.Body.{set_body-verify_hash}
use ra_common_cpp.Examples.Crypto.{zeros}
use ra_common_cpp.Examples.Json.{trees}

abbrev note : Facts
note = record {
  kind = plain_text;
  content_type = codes "text/plain";
  version = negsuc 0;
  content_id = some (codes "i");
  label = none;
  content_name = some (codes "n");
  location = none;
  content_size = 3;
  author_alias = none;
  author_address = none;
  body = some (0 ∷ 255 ∷ 7 ∷ []);
  body_encoding = none;
  body_base64_encoded = true;
  created_at = some (pos 1700000000000);
  hash = some (record { hash_value = codes "h"; algorithm = HashAlgorithm.sha512 });
  hash_algorithm = HashAlgorithm.sha256;
  fingerprint = none;
  fingerprint_algorithm = HashAlgorithm.sha1;
  encrypted = true;
  encryption_algorithm = some EncryptionAlgorithm.cast5;
  encryption_passphrase = none;
  encryption_passphrase_encrypted = false;
  encryption_passphrase_algorithm = none;
  base64_encoded_iv = some (codes "iv");
  keywords = codes "a" ∷ codes "b" ∷ [];
  readable = true;
  writeable = false;
}

-- A note with an image in it.
abbrev album : Content
album = content note (
    child (content (record note { kind = image; body = none; keywords = [] }) no_children)
      no_children)

content_from_json-to_json_example :
    content_from_json trees 2 (content_to_json trees album) ≡ ok album
content_from_json-to_json_example =
    content_from_json-to_json trees album 2
      ((omega arith, omega arith), (((tt, omega arith), tt), tt)) (omega arith)

abbrev fresh_body : Facts
fresh_body = (set_body zeros 0 (codes "abc") true false note).0

set_body-verify_hash_example :
    (h : Hash) × ((fresh_body.hash ≡ some h)
      × (verify_hash (codes "abc") h.hash_value h.algorithm ≡ ok true))
unfolding set_body generate_hash random_bytes_of digest
set_body-verify_hash_example = set_body-verify_hash zeros 0 (codes "abc") false note 1 refl
