-- ===== src/Std/Entropy.antt =====
-- include/ra_common/util/random_util.hpp. `getentropy` is the operating system's: a parameter, which
-- maps the number of the call and a count to the bytes, or to `none` where it fails.
use ra_common_cpp.Base.{
  ℕ, zero, suc, ◌+◌, ◌-◌, ◌≤◌, ◌≡◌, refl, [], ◌++◌, Option, none, some, Bytes, codes, length,
  length-append, ltb, if◌then◌else◌, IsBytes, All-append, Option-cases, inl, inr, Result, ok,
  throw_crypto, arith,
}

-- What the manual page promises: `count` bytes, or a failure.
pub record Source : Type 0 where
  pub getentropy : ℕ → ℕ → Option Bytes
  pub fills :
      (call count : ℕ) (bytes : Bytes) → getentropy call count ≡ some bytes → length bytes ≡ count
  pub gives_bytes :
      (call count : ℕ) (bytes : Bytes) → getentropy call count ≡ some bytes → IsBytes bytes

module _ (source : Source) where
  open source use {getentropy, fills, gives_bytes}

  -- `while (count > 0)`; a round takes a byte at least, so `count` rounds are enough. The result
  -- also has the number of the next call.
  secure_random_loop : ℕ → ℕ → ℕ → Bytes → Result (Bytes × ℕ)
  secure_random_loop fuel call zero out = ok (out, call)
  secure_random_loop zero call (suc count) out = ok (out, call)
  secure_random_loop (suc fuel) call (suc count) out =
      let chunk = if ltb (suc count) 256 then suc count else 256 in
      elim (getentropy call chunk) [
        | none ↦ throw_crypto (codes "getentropy failed")
        | some bytes ↦ secure_random_loop fuel (call + 1) (suc count - chunk) (out ++ bytes)
      ]

  -- SecureRandomBytes and RandomBytesOf.
  unfoldable pub random_bytes_of : ℕ → ℕ → Result (Bytes × ℕ)
  unfolding secure_random_loop
  random_bytes_of call count = secure_random_loop count call count []

  secure_random_loop_fills :
      (fuel call count : ℕ) (out bytes : Bytes) (next : ℕ)
      → count ≤ fuel
      → IsBytes out
      → secure_random_loop fuel call count out ≡ ok (bytes, next)
      → (length bytes ≡ length out + count) × IsBytes bytes
  unfolding secure_random_loop
  secure_random_loop_fills fuel call zero out bytes next h hb e =
      let same : out ≡ bytes = cc in rw (← same) (omega arith, hb)
  secure_random_loop_fills zero call (suc count) out bytes next h hb e = absurd (omega arith)
  secure_random_loop_fills (suc fuel) call (suc count) out bytes next h hb e =
      elim (Option-cases (getentropy call chunk)) [
        | inl failed ↦ cc (failed)
        | inr (given, e') ↦
            let longer = length-append out given in
            let size = fills call chunk given e' in
            let (total, good) =
              secure_random_loop_fills fuel (call + 1) (suc count - chunk) (out ++ given) bytes next
                (ground arith) (All-append _ out given hb (gives_bytes call chunk given e'))
                (rw (e', secure_random_loop) at e) in
            (ground (arith, total, longer, size), good)
      ]
    where
      chunk : ℕ
      chunk = if ltb (suc count) 256 then suc count else 256

  -- Whenever RandomBytesOf returns, it returns exactly as many bytes as were asked for, over any
  -- number of calls of getentropy of at most 256 bytes.
  pub random_bytes_of_fills :
      (call count : ℕ) (bytes : Bytes) (next : ℕ)
      → random_bytes_of call count ≡ ok (bytes, next)
      → (length bytes ≡ count) × IsBytes bytes
  unfolding random_bytes_of
  random_bytes_of_fills call count bytes next e =
      let (size, good) =
        secure_random_loop_fills count call count [] bytes next (omega arith) tt e in
      (omega arith, good)

  -- Every call of getentropy for at most 256 bytes succeeds; for more it may fail.
  abbrev pub NeverFails : Type 0
  NeverFails =
      (call count : ℕ) → count ≤ 256 → (bytes : Bytes) × (getentropy call count ≡ some bytes)

  secure_random_loop-ok :
      (fuel call count : ℕ) (out : Bytes)
      → NeverFails
      → count ≤ fuel
      → (result : Bytes × ℕ) × (secure_random_loop fuel call count out ≡ ok result)
  unfolding secure_random_loop
  secure_random_loop-ok fuel call zero out always h = ((out, call), refl)
  secure_random_loop-ok zero call (suc count) out always h = absurd (omega arith)
  secure_random_loop-ok (suc fuel) call (suc count) out always h =
      let (given, e) = always call chunk (ground arith) in
      let (result, done) =
        secure_random_loop-ok fuel (call + 1) (suc count - chunk) (out ++ given) always
          (ground arith) in
      (result, rw (e, secure_random_loop) done)
    where
      chunk : ℕ
      chunk = if ltb (suc count) 256 then suc count else 256

  -- If getentropy succeeds for every count of at most 256 bytes, RandomBytesOf returns exactly as many bytes as were asked for,
  -- whatever the number of calls that this takes.
  pub random_bytes_of_lem :
      (call count : ℕ)
      → NeverFails
      → (result : Bytes × ℕ) × ((random_bytes_of call count ≡ ok result)
          × ((length result.0 ≡ count) × IsBytes result.0))
  unfolding random_bytes_of
  random_bytes_of_lem call count always =
      let (result, done) = secure_random_loop-ok count call count [] always (omega arith) in
      (result, (done, random_bytes_of_fills call count result.0 result.1 done))
