-- ===== src/Util.antt =====
-- include/ra_common/util: replay detection, version comparison, byte order, random values and texts.
pub mod Nonce
pub mod Random
pub mod Bytes
pub mod Strings
pub mod Version
pub mod Ids
