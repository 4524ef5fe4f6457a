-- ===== src/Examples.antt =====
-- Runs of the code on concrete inputs, and each theorem of the library applied to one.
mod Json
mod Config
mod Content
mod Conversions
mod Dispatch
mod Tasks
mod Std
mod Encoding
mod Crypto
mod Makers
mod HashCash
mod Util
mod Messages
mod Service
