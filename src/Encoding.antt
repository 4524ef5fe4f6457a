-- ===== src/Encoding.antt =====
-- include/ra_common/encoding.hpp: the Base64, Base32 and Base58 codecs.
pub mod Base64
pub mod Base58
pub mod Base32
