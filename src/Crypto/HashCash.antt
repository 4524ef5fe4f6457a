-- ===== src/Crypto/HashCash.antt =====
-- include/ra_common/crypto/hash_cash.hpp: hashcash tokens.
pub mod Bits
pub mod Split
pub mod Extensions
pub mod Dates
pub mod Work
pub mod Digits
pub mod Tokens
pub mod Search
pub mod Mint
pub mod RoundTrip
pub mod Accepts
pub mod Rejects
