-- ===== src/Crypto.antt =====
-- include/ra_common/crypto: digests, password hashing, salted hashes, multihashes and hash-cash.
pub mod Sha
pub mod Pbkdf2
pub mod HashAlgorithm
pub mod HashCash
pub mod HashUtil
pub mod Multihash
pub mod EncryptionAlgorithm
