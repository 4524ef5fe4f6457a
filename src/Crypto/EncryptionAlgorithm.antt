-- ===== src/Crypto/EncryptionAlgorithm.antt =====
-- include/ra_common/crypto/encryption_algorithm.hpp.
use ra_common_cpp.Base.{Bytes, codes, list_eq, if◌then◌else◌, ◌≡◌, refl}

pub data EncryptionAlgorithm : Type 0 where
  cast5 aes256 aes512 : EncryptionAlgorithm

unfoldable pub encryption_to_string : EncryptionAlgorithm → Bytes
encryption_to_string EncryptionAlgorithm.cast5 = codes "Cast5"
encryption_to_string EncryptionAlgorithm.aes256 = codes "Aes256"
encryption_to_string EncryptionAlgorithm.aes512 = codes "Aes512"

unfoldable pub encryption_from_string : Bytes → EncryptionAlgorithm
encryption_from_string s =
    if list_eq s (codes "Cast5")
    then EncryptionAlgorithm.cast5
    else if list_eq s (codes "Aes512")
    then EncryptionAlgorithm.aes512
    else EncryptionAlgorithm.aes256

unfoldable pub encryption_name : EncryptionAlgorithm → Bytes
encryption_name EncryptionAlgorithm.cast5 = codes "CAST-5"
encryption_name EncryptionAlgorithm.aes256 = codes "AES-256"
encryption_name EncryptionAlgorithm.aes512 = codes "AES-512"

pub encryption_from_string-to_string :
    (x : EncryptionAlgorithm) → encryption_from_string (encryption_to_string x) ≡ x
unfolding encryption_from_string encryption_to_string list_eq
encryption_from_string-to_string EncryptionAlgorithm.cast5 = refl
encryption_from_string-to_string EncryptionAlgorithm.aes256 = refl
encryption_from_string-to_string EncryptionAlgorithm.aes512 = refl
