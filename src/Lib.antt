-- ===== src/Lib.antt =====
-- ra-common-cpp: the header-only library include/ra_common of basic types for a message bus.
--
-- The library is a set of headers that a bus and its services share: codecs and digests, random
-- values and utilities, a replay cache, identities and peers, routes, envelopes and services. An
-- envelope owns a routing slip, a slip owns routes, an external route owns peers, and a service
-- announces its status in an envelope that it sends along a slip. A class is a record here, a method
-- that changes it is a function that returns the changed record, and an exception is an `err` of the
-- type Result.
--
-- Base          numbers, lists, texts as lists of bytes, bit operations; Base/Errors has
--               include/ra_common/exception.hpp, and the exceptions of the standard library.
-- Std           what the headers use of the standard library, as its documentation states it:
--               std::stoi, std::stoll, std::to_string, std::getline (Std/Numbers, Std/Lines). Std/Entropy has
--               SecureRandomBytes and RandomBytesOf of include/ra_common/util/random_util.hpp over
--               getentropy(2), which is the parameter Source: it fills the buffer with bytes or fails.
--               Std/Json has the JSON library as the parameter JsonLibrary: its values, the calls that
--               the headers make of it, and what its documentation says of them on values that were
--               made by ToJson. Std/Json/Fields has the ways in which FromJson reads a member.
-- Encoding      include/ra_common/encoding.hpp: Base32, Base58 and Base64. The `int` buffers of Base32
--               and Base64 are kept modulo 2 ^ 32.
-- Crypto        include/ra_common/crypto: sha.hpp (Sha, Sha/Sha1, Sha/Sha2: uint32_t and uint64_t
--               additions and shifts are taken modulo 2 ^ 32 and 2 ^ 64), pbkdf2.hpp (Pbkdf2),
--               hash_algorithm.hpp and hash.hpp (HashAlgorithm), hash_util.hpp (HashUtil),
--               multihash.hpp (Multihash, and Multihash/Texts for its hexadecimal, base58 and JSON),
--               encryption_algorithm.hpp (EncryptionAlgorithm), hash_cash.hpp (HashCash: Dates,
--               Extensions and Split for the parts of a token, Work for the bits of its digest and the
--               search, Tokens for minting and parsing; the rest of HashCash/ is for proofs).
-- Util          include/ra_common/util: nonce.hpp (Nonce), bytes_util.hpp (Bytes), string_util.hpp
--               (Strings), version_comparator.hpp (Version), unique_id.hpp (Ids), random_util.hpp (Random,
--               with RandomUuidLike of envelope.hpp and of messaging/event_message.hpp).
-- Identity      include/ra_common/identity: signatures, public keys, Did. `Json` is the type of the
--               attribute values, which are the JSON library's. Identity/Json has ToJson and FromJson, and
--               Identity/Make the ways of making a Did and a PublicKey.
-- Network       include/ra_common/network.hpp: networks and peers; Network/Make makes peers.
-- Route         include/ra_common/route: the four kinds of route and their clones; Route/Slip has the
--               operations of DynamicRoutingSlip, Route/Json the conversions and RouteFromJson.
-- Messaging     include/ra_common/messaging: the commands, the four kinds of message, and
--               email.hpp (Messaging/Email).
-- Multipart     include/ra_common/multipart.hpp: the builder of a multipart body.
-- Envelope      include/ra_common/envelope.hpp: identity, routing and markers of an envelope;
--               Envelope/Json has the other fields, ToJson and FromJson, and
--               Envelope/Payload the document. Envelope/Headers has the headers and the content type,
--               Envelope/Exceptions the exceptions, Envelope/Make the constructors and the factories.
-- Config        include/ra_common/config.hpp: arguments, environment, properties and LoadAll;
--               Config/Directories has the functions of system_settings.
-- Content       include/ra_common/content.hpp: kinds, members and children, SetBody, the magnet link;
--               Content/Json has ToJson and FromJson, Content/Build has Build.
-- Service       include/ra_common/service: service_status.hpp and service_core.hpp; Service/Dispatch
--               has Service::Handle of service.hpp, over what a concrete service overrides, and
--               Service/Reports the report as a reader of the envelope finds it.
-- Tasks         include/ra_common/tasks: the task runner as a step relation (Tasks/Steps). A step is
--               a critical section or an access to an atomic of one thread, and the threads take
--               their steps in any order; what a task's own methods return is chosen by the step.
-- Examples      runs and instances at concrete inputs.
--
-- Random ids. A function that draws takes the Source and the number of the next call of getentropy, and
-- returns the number after its calls; where getentropy fails it gives the error that the source throws.
-- What adds a route to a slip takes the id that NextLong returned: where NextLong throws, the source
-- has changed nothing yet. An int that overflows has no defined result: it is the error
-- `undefined_behaviour` for the version of a Content, and `undefined` for VersionCompare.
--
-- Fuel. A loop with no structural argument takes fuel: pad_zeros has one unit for each byte of a
-- block, each_chunk and the loop of PBKDF2 one for each byte of the message and of the key, the loop
-- of SecureRandomBytes one for each byte asked for, the carry loops of Base58 as many as the carry,
-- VersionCompare one for each character; each round uses up one at least. The hexadecimal number of
-- a 64-bit counter has 16 digits, and a byte has 8 bits. RouteFromJson has one unit
-- for each level of slips in slips, Content::FromJson one for each level of children, and the search
-- for a hash cash token one for each candidate: the source bounds none of the three, and the model
-- gives the error `out_of_fuel` where the units are too few.
--
-- Not modelled: third_party (the JSON library and the test framework), the tests, the text of a JSON
-- value (ToJsonString and FromJsonString, which call dump and parse), the interfaces with no code of
-- their own (channels, lifecycle, addressable, pii_clearable) and the umbrella header. Memory,
-- reserve(), and the time that sleeps and comparisons take are left out.
pub mod Base
pub mod Std
pub mod Encoding
pub mod Config
pub mod Content
pub mod Crypto
pub mod Tasks
pub mod Util
pub mod Identity
pub mod Messaging
pub mod Multipart
pub mod Network
pub mod Route
pub mod Envelope
pub mod Service
pub mod Examples
