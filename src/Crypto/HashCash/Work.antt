-- ===== src/Crypto/HashCash/Work.antt =====
-- Sha1Bits and Generate of include/ra_common/crypto/hash_cash.hpp: the strength of a token and the search
-- for one, which runs on fuel.
use ra_common_cpp.Base.{
  ℕ, zero, suc, ◌+◌, ◌/◌, ◌%◌, ◌^◌, Bool, true, [], ◌∷◌, ◌++◌, Bytes, codes, get_or, ltb, leb,
  if◌then◌else◌, Result, ok, err, out_of_fuel, ◌>>=◌,
}
use ra_common_cpp.Std.Numbers.{ℤ, pos, negsuc}
use ra_common_cpp.Util.Random.{little_endian}
use ra_common_cpp.Std.Entropy.{Source, random_bytes_of}
use ra_common_cpp.Crypto.Sha.Sha1.{sha1}
use ra_common_cpp.Crypto.HashCash.Bits.{leading_zero_bits}

unfoldable pub sha1_bits : Bytes → ℕ
sha1_bits token = leading_zero_bits (sha1 token)

-- Sha1Bits(token) >= bits
unfoldable pub reaches : ℕ → ℤ → Bool
reaches actual (pos bits) = leb bits actual
reaches actual (negsuc n) = true

abbrev pub lower_digits : Bytes
lower_digits = codes "0123456789abcdef"

-- "%02x" for each byte.
unfoldable pub hex_bytes : Bytes → Bytes
hex_bytes [] = []
hex_bytes (b ∷ bytes) =
    get_or lower_digits (b / 16 % 16) 0 ∷ get_or lower_digits (b % 16) 0 ∷ hex_bytes bytes

-- `os << std::hex << n`. The fuel bounds the number of digits, of which a uint64_t has sixteen at most.
unfoldable pub hex_number : ℕ → ℕ → Bytes → Bytes
hex_number zero n out = out
hex_number (suc fuel) n out =
    let out' = get_or lower_digits (n % 16) 0 ∷ out in
    let more = hex_number fuel (n / 16) out' in if ltb n 16 then out' else more

unfoldable pub candidate : Bytes → ℕ → Bytes
unfolding hex_number
candidate stem counter = stem ++ hex_number 16 counter []

-- `for (;;)`, one unit of fuel for each candidate.
unfoldable pub try_counters : ℕ → Bytes → ℕ → ℤ → Result Bytes
unfolding candidate sha1_bits reaches
try_counters zero stem counter bits = err out_of_fuel
try_counters (suc fuel) stem counter bits =
    let next = (counter + 1) % 2 ^ 64 in
    let more = try_counters fuel stem next bits in
    if reaches (sha1_bits (candidate stem next)) bits then ok (candidate stem next) else more

-- The result also has the number of the next call of getentropy.
unfoldable pub generate : Source → ℕ → ℕ → Bytes → ℤ → Result (Bytes × ℕ)
unfolding hex_bytes little_endian try_counters
generate source call fuel prefix bits = do
  (rnd_bytes, next) ← random_bytes_of source call 8
  (counter_bytes, last) ← random_bytes_of source next 8
  token ←
      try_counters fuel (prefix ++ (hex_bytes rnd_bytes ++ codes ":")) (little_endian counter_bytes)
        bits
  ok (token, last)
