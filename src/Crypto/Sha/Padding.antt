-- ===== src/Crypto/Sha/Padding.antt =====
-- The padding of sha.hpp: what it appends, that the result is made of whole blocks, that the loop
-- over blocks reads each of them once, and that no two messages are padded alike.
use mathlib.Core.List.{flatten, foldl}
use native.Mathlib.Nat.{mod-add-mod}
use ra_common_cpp.Base.{
  ℕ, zero, suc, ◌+◌, ◌-◌, ◌*◌, ◌%◌, ◌^◌, ◌≤◌, ◌<◌, ◌≡◌, refl, sym, ap, ◌∙◌, List, [], ◌∷◌, ◌++◌,
  append_assoc, append-nil, inl, inr, Bytes, length, take, drop, replicate, length-append,
  length-replicate, take-append, drop-append, All, ◌==◌, Bool-cases, arith,
}
use ra_common_cpp.Crypto.Sha.{pad_zeros, big_endian, pad, each_chunk}

one_more : (msg : Bytes) (k : ℕ) → (msg ++ 0 ∷ []) ++ replicate k 0 ≡ msg ++ replicate (suc k) 0
one_more msg k = append_assoc msg (0 ∷ []) (replicate k 0)

one_longer : (msg : Bytes) (k : ℕ) → length (msg ++ 0 ∷ []) + k ≡ length msg + suc k
one_longer msg k = omega (arith, length-append msg (0 ∷ []))

-- The loop stops within n rounds if n zeros would do.
pad_zeros_stops :
    (block target n fuel : ℕ) (msg : Bytes)
    → (length msg + n) % block ≡ target
    → n ≤ fuel
    → (k : ℕ) × (k ≤ n)
      × (pad_zeros fuel block target msg ≡ msg ++ replicate k 0)
      × ((length msg + k) % block ≡ target)
unfolding pad_zeros
pad_zeros_stops block target zero zero msg e h = (0, omega arith, sym (append-nil msg), e)
pad_zeros_stops block target (suc n) zero msg e h = absurd (omega arith)
pad_zeros_stops block target zero (suc fuel) msg e h =
    (0, omega arith, ground (arith, append-nil msg), e)
pad_zeros_stops block target (suc n) (suc fuel) msg e h =
    elim (Bool-cases (length msg % block == target)) [
      | inl done ↦ (0, omega arith, rw (done, append-nil), ground arith)
      | inr more ↦
          let (k, le, eq, end) =
            pad_zeros_stops block target n fuel (msg ++ 0 ∷ [])
              (ap (λ t. t % block) (one_longer msg n) ∙ e) (omega arith) in
          (
            suc k,
            omega arith,
            rw more (eq ∙ one_more msg k),
            ap (λ t. t % block) (sym (one_longer msg k)) ∙ end,
          )
    ]

big_endian_8_injective :
    (x y : ℕ) → x < 2 ^ 64 → y < 2 ^ 64 → big_endian 8 x ≡ big_endian 8 y → x ≡ y
unfolding big_endian
big_endian_8_injective x y hx hy e = ground arith

append-injective :
    (xs ys us vs : Bytes) → length us ≡ length vs → xs ++ us ≡ ys ++ vs → (xs ≡ ys) × (us ≡ vs)
append-injective [] [] us vs h e = (refl, e)
append-injective [] (y ∷ ys) us vs h e = absurd (omega (arith, ap length e, length-append ys vs))
append-injective (x ∷ xs) [] us vs h e = absurd (omega (arith, ap length e, length-append xs us))
append-injective (x ∷ xs) (y ∷ ys) us vs h e = ground (arith, append-injective xs ys us vs h (cc))

length-big_endian_8 : (x : ℕ) → length (big_endian 8 x) ≡ 8
unfolding big_endian
length-big_endian_8 x = refl

unfoldable pub bit_length : Bytes → ℕ
bit_length msg = length msg * 8 % 2 ^ 64

-- What FIPS 180-4 asks of a padded message: 1, then fewer zeros than a block has bytes, then the
-- length in bits, up to a whole number of blocks.
pub record IsPadded (block high : ℕ) (msg padded : Bytes) : Type 0 where
  pub zeros : ℕ
  pub fewer : zeros < block
  pub shape :
      padded
      ≡ msg ++ (0x80 ∷ replicate zeros 0) ++ (replicate high 0 ++ big_endian 8 (bit_length msg))
  pub whole : length padded % block ≡ 0

pad_lem :
    (block target high : ℕ) (msg : Bytes)
    → pad block target high msg
      ≡ pad_zeros block block target (msg ++ 0x80 ∷ [])
        ++ (replicate high 0 ++ big_endian 8 (bit_length msg))
unfolding pad bit_length
pad_lem block target high msg = refl

-- The length of what follows the zeros.
length_tail : (high x : ℕ) → length (replicate high 0 ++ big_endian 8 x) ≡ high + 8
length_tail high x = omega (
  arith,
  length-append (replicate high 0) (big_endian 8 x),
  length-replicate {A = ℕ} high 0,
  length-big_endian_8 x,
)

rem_add : (a b c block : ℕ) → a % block ≡ b → (b + c) % block ≡ 0 → (a + c) % block ≡ 0
rem_add a b c block e f = sym (mod-add-mod a block c) ∙ ap (λ t. (t + c) % block) e ∙ f

pad-IsPadded :
    (block target high n : ℕ) (msg : Bytes)
    → (length (msg ++ 0x80 ∷ []) + n) % block ≡ target
    → n < block
    → (target + (high + 8)) % block ≡ 0
    → IsPadded block high msg (pad block target high msg)
pad-IsPadded block target high n msg fits small ends =
    let (k, le, eq, end) =
      pad_zeros_stops block target n block (msg ++ 0x80 ∷ []) fits (omega arith) in
    let padded = msg ++ 0x80 ∷ [] in
    let tail = replicate high 0 ++ big_endian 8 (bit_length msg) in
    let shape = pad_lem block target high msg ∙ ap (λ z. z ++ tail) eq in
    let long : length ((padded ++ replicate k 0) ++ tail) ≡ length padded + k + (high + 8) = omega (
      arith,
      length-append (padded ++ replicate k 0) tail,
      length-append padded (replicate k 0),
      length-replicate {A = ℕ} k 0,
      length_tail high (bit_length msg),
    ) in
    record {
      zeros = k;
      fewer = omega arith;
      shape = shape ∙ ap (λ z. z ++ tail) (append_assoc msg (0x80 ∷ []) (replicate k 0));
      whole =
          ap (λ z. length z % block) shape
          ∙ ap (λ z. z % block) long
          ∙ rem_add (length padded + k) target (high + 8) block end ends;
    }

-- The padding of SHA-1 and SHA-256 is the message, 0x80, fewer zeros than a block has bytes and
-- the 64-bit big-endian length in bits, and is a whole number of 64-byte blocks.
pub pad_64-IsPadded : (msg : Bytes) → IsPadded 64 0 msg (pad 64 56 0 msg)
pad_64-IsPadded msg =
    pad-IsPadded 64 56 0 ((119 - length (msg ++ 0x80 ∷ []) % 64 + 1) % 64) msg (omega arith)
      (omega arith) refl

-- The padding of SHA-512 is the message, 0x80, fewer zeros than a block has bytes, eight zero
-- bytes and the 64-bit big-endian length in bits, and is a whole number of 128-byte blocks.
pub pad_128-IsPadded : (msg : Bytes) → IsPadded 128 8 msg (pad 128 112 8 msg)
pad_128-IsPadded msg =
    pad-IsPadded 128 112 8 ((239 - length (msg ++ 0x80 ∷ []) % 128 + 1) % 128) msg (omega arith)
      (omega arith) refl

-- Two messages of fewer than 2 ^ 61 bytes each with the same padded text are the same message.
pub IsPadded-injective :
    {block high : ℕ} {msg other padded : Bytes}
    → IsPadded block high msg padded
    → IsPadded block high other padded
    → length msg < 2 ^ 61
    → length other < 2 ^ 61
    → msg ≡ other
unfolding bit_length
IsPadded-injective {block} {high} {msg} {other} {padded} p q small small' =
    (append-injective msg other _ _ same_rest (sym (whole_text p) ∙ whole_text q)).0
  where
    rest : (m : Bytes) → ℕ → Bytes
    rest m zeros = (0x80 ∷ replicate zeros 0) ++ (replicate high 0 ++ big_endian 8 (bit_length m))

    whole_text : {m : Bytes} (r : IsPadded block high m padded) → padded ≡ m ++ rest m r.zeros
    whole_text {m} r = r.shape ∙ append_assoc m (0x80 ∷ replicate r.zeros 0) _

    front : (m : Bytes) → ℕ → Bytes
    front m zeros = (m ++ 0x80 ∷ replicate zeros 0) ++ replicate high 0

    ends :
        {m : Bytes} (r : IsPadded block high m padded)
        → padded ≡ front m r.zeros ++ big_endian 8 (bit_length m)
    ends {m} r = r.shape ∙ sym (append_assoc (m ++ 0x80 ∷ replicate r.zeros 0) (replicate high 0) _)

    same_bits : bit_length msg ≡ bit_length other
    same_bits =
        big_endian_8_injective _ _ (omega arith) (omega arith)
          (append-injective (front msg p.zeros) (front other q.zeros) _ _
            (length-big_endian_8 (bit_length msg) ∙ sym (length-big_endian_8 (bit_length other)))
            (sym (ends p) ∙ ends q)).1

    same_rest : length (rest msg p.zeros) ≡ length (rest other q.zeros)
    same_rest = omega (
      arith,
      same_bits,
      ap length (whole_text p),
      ap length (whole_text q),
      length-append msg (rest msg p.zeros),
      length-append other (rest other q.zeros),
    )

-- On blocks of one positive size, joined, with their total size as fuel, the block loop applies
-- the compression to every block once and in order.
pub each_chunk-flatten {ℓ} :
    {S : Type ℓ} (block fuel : ℕ) (compress : Bytes → S → S) (blocks : List Bytes) (s : S)
    → 0 < block
    → All (λ b. length b ≡ block) blocks
    → length (flatten blocks) ≤ fuel
    → each_chunk fuel block compress (flatten blocks) s ≡ foldl (λ s b. compress b s) s blocks
unfolding each_chunk flatten
each_chunk-flatten block fuel compress [] s pos h hf = refl
each_chunk-flatten block zero compress ([] ∷ blocks) s pos h hf = absurd (omega arith)
each_chunk-flatten block zero compress ((b ∷ bs) ∷ blocks) s pos h hf = absurd (omega arith)
each_chunk-flatten block (suc fuel) compress ([] ∷ blocks) s pos h hf = absurd (omega arith)
each_chunk-flatten block (suc fuel) compress ((b ∷ bs) ∷ blocks) s pos h hf =
    rw (front, back, each_chunk)
      (each_chunk-flatten block fuel compress blocks _ pos h.1
        (omega (arith, length-append bs (flatten blocks))))
  where
    front : take block (b ∷ (bs ++ flatten blocks)) ≡ b ∷ bs
    front = rw (← h.0) (ap (◌∷◌ b) (take-append bs (flatten blocks)))

    back : drop block (b ∷ (bs ++ flatten blocks)) ≡ flatten blocks
    back = rw (← h.0) (drop-append bs (flatten blocks))
