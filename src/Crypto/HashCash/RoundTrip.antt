-- ===== src/Crypto/HashCash/RoundTrip.antt =====
-- Minted tokens of class HashCash and Parse.
use ra_common_cpp.Base.{
  ℕ, suc, ◌+◌, ◌%◌, ◌^◌, ◌≤◌, ◌<◌, ◌≡◌, ◌≢◌, refl, true, false, [], ◌∷◌, Bytes, codes, list_eq_refl,
  ok, arith,
}
use ra_common_cpp.Std.Json.{IsOrdered, names}
use ra_common_cpp.Std.Numbers.{ℤ, pos}
use ra_common_cpp.Std.Numbers.Decimal.{IsInt32}
use ra_common_cpp.Util.Random.{little_endian}
use ra_common_cpp.Std.Entropy.{Source, random_bytes_of}
use ra_common_cpp.Crypto.HashCash.Dates.{YearMonthDay, date_ok}
use ra_common_cpp.Crypto.HashCash.Dates.RoundTrip.{century_date}
use ra_common_cpp.Crypto.HashCash.Extensions.{Extensions, has_any, serialize_extensions}
use ra_common_cpp.Crypto.HashCash.Extensions.RoundTrip.{
  deserialize_extensions-serialize, serialize_extensions-Lacks,
}
use ra_common_cpp.Crypto.HashCash.Mint.{parse-candidate, hash_cash_of, stem_of}
use ra_common_cpp.Crypto.HashCash.Search.{Succeeds, try_counters_lem}
use ra_common_cpp.Crypto.HashCash.Tokens.{
  HashCash, hash_bits, exceeds, mint_with, parse, is_valid_for,
}
use ra_common_cpp.Crypto.HashCash.Work.{try_counters, generate}

version-exceeds : (version : ℕ) → version ≤ 1 → exceeds (pos version) 1 ≡ false
unfolding exceeds
version-exceeds version h = ground arith

module _ (source : Source) (call next last : ℕ) (rnd counter : Bytes)
    (gives_rnd : random_bytes_of source call 8 ≡ ok (rnd, next))
    (gives_counter : random_bytes_of source next 8 ≡ ok (counter, last)) where
  mint_with-token :
      (fuel version : ℕ) (date : YearMonthDay) (resource text token : Bytes)
      (extensions : Extensions) (bits : ℤ)
      → version ≤ 1
      → exceeds bits hash_bits ≡ false
      → has_any (codes ":") resource ≡ false
      → serialize_extensions extensions ≡ ok text
      → try_counters fuel (stem_of version bits date resource text rnd) (little_endian counter) bits
        ≡ ok token
      → mint_with source call fuel resource extensions date bits (pos version)
        ≡ ok (hash_cash_of version bits date resource extensions token, last)
  unfolding mint_with generate
  mint_with-token fuel version date resource text token extensions bits small within colon gives
        found =
      rw (version-exceeds version small, within, colon, gives, gives_rnd, gives_counter, found) refl

  -- MintWith of version 0 or 1, at most 160 bits, a resource without a colon, extensions that can
  -- be written and are not the single entry with neither key nor value, and a date of the years
  -- 2000 to 2099 returns a token once the fuel covers a counter whose candidate reaches the bits,
  -- where the random bytes are given; Parse reads this token back as the very HashCash that was
  -- minted, and that is valid for the resource and the bits.
  pub parse-mint_with :
      (fuel version y m d i : ℕ) (resource text : Bytes) (extensions : Extensions) (bits : ℤ)
      → version ≤ 1
      → exceeds bits hash_bits ≡ false
      → IsInt32 bits
      → has_any (codes ":") resource ≡ false
      → IsOrdered (names extensions)
      → extensions ≢ ([], []) ∷ []
      → serialize_extensions extensions ≡ ok text
      → y < 100
      → date_ok (2000 + y) m d ≡ true
      → i < fuel
      → Succeeds
          (stem_of version bits (century_date y m d) resource text rnd)
          bits
          (little_endian counter)
          i
      → (minted : HashCash) × (mint_with source call fuel resource extensions
            (century_date y m d)
            bits
            (pos version)
          ≡ ok (minted, last))
        × (parse minted.token ≡ ok minted)
        × (is_valid_for minted resource bits ≡ true)
  unfolding is_valid_for
  parse-mint_with fuel version y m d i resource text extensions bits one within small colon ordered
        whole gives century date covered success =
      let (token, found, first) =
        try_counters_lem (stem_of version bits (century_date y m d) resource text rnd) bits fuel
          (little_endian counter) i covered success in
      (
        hash_cash_of version bits (century_date y m d) resource extensions token,
        mint_with-token fuel version (century_date y m d) resource text token extensions bits one
            within colon gives found,
        parse-candidate resource text y m d bits extensions colon
            (serialize_extensions-Lacks extensions text gives)
            (deserialize_extensions-serialize extensions text ordered whole gives) century date
            small version rnd ((little_endian counter + suc first.round) % 2 ^ 64) token one
            first.is_token first.enough,
        rw (list_eq_refl resource) first.enough,
      )
