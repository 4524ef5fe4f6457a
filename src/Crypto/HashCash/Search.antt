-- ===== src/Crypto/HashCash/Search.antt =====
-- The search loop of HashCash::Generate, round by round.
use ra_common_cpp.Base.{
  ℕ, zero, suc, ◌+◌, ◌%◌, ◌^◌, ◌≤◌, ◌<◌, ◌≡◌, refl, ap, sym, ◌∙◌, true, false, Bool-cases, inl, inr,
  Bytes, ok, arith,
}
use ra_common_cpp.Std.Numbers.{ℤ}
use ra_common_cpp.Crypto.HashCash.Work.{candidate, sha1_bits, reaches, try_counters}

module _ (stem : Bytes) (bits : ℤ) where
  -- The token of round i, counted from 0, after a start at `counter`.
  abbrev pub attempt : ℕ → ℕ → Bytes
  attempt counter i = candidate stem ((counter + suc i) % 2 ^ 64)

  abbrev pub Succeeds : ℕ → ℕ → Type 0
  Succeeds counter i = reaches (sha1_bits (attempt counter i)) bits ≡ true

  next_attempt : (counter i : ℕ) → attempt ((counter + 1) % 2 ^ 64) i ≡ attempt counter (suc i)
  next_attempt counter i = ap (candidate stem) (
      let e : ((counter + 1) % 2 ^ 64 + suc i) % 2 ^ 64 ≡ (counter + suc (suc i)) % 2 ^ 64 =
        omega arith in
      e)

  -- The first success among those up to round i.
  pub record First (counter i : ℕ) (token : Bytes) : Type 0 where
    pub round : ℕ
    pub in_time : round ≤ i
    pub is_token : attempt counter round ≡ token
    pub enough : reaches (sha1_bits token) bits ≡ true
    pub none_before : (k : ℕ) → k < round → reaches (sha1_bits (attempt counter k)) bits ≡ false

  none_before_next :
      (counter round : ℕ)
      → reaches (sha1_bits (attempt counter 0)) bits ≡ false
      → ((k : ℕ)
          → k < round
          → reaches (sha1_bits (attempt ((counter + 1) % 2 ^ 64) k)) bits ≡ false)
      → (k : ℕ) → k < suc round
      → reaches (sha1_bits (attempt counter k)) bits ≡ false
  none_before_next counter round failed later zero lt = failed
  none_before_next counter round failed later (suc k) lt =
      rw (← next_attempt counter k) (later k (omega arith))

  -- After a failure, the rounds from the next counter.
  after_failure :
      (fuel counter i : ℕ)
      → i < suc fuel
      → reaches (sha1_bits (attempt counter 0)) bits ≡ false
      → Succeeds counter i
      → ((c j : ℕ)
          → j < fuel
          → Succeeds c j
          → (token : Bytes) × (try_counters fuel stem c bits ≡ ok token) × First c j token)
      → (token : Bytes) × (try_counters fuel stem ((counter + 1) % 2 ^ 64) bits ≡ ok token)
        × First counter i token
  after_failure fuel counter zero small failed success ih = absurd (cc)
  after_failure fuel counter (suc i) small failed success ih =
      let (token, gives, first) =
        ih ((counter + 1) % 2 ^ 64) i (omega arith) (rw (next_attempt counter i) success) in
      (
        token,
        gives,
        record {
          round = suc first.round;
          in_time = omega (arith, first.in_time);
          is_token = sym (next_attempt counter first.round) ∙ first.is_token;
          enough = first.enough;
          none_before = none_before_next counter first.round failed first.none_before;
        },
      )

  -- If the candidate of round i reaches the bits, the search of Generate returns on any fuel
  -- above i, and the token is the first candidate that reaches them: it is that of a round up to
  -- i, and no earlier round reaches them.
  pub try_counters_lem :
      (fuel counter i : ℕ)
      → i < fuel
      → Succeeds counter i
      → (token : Bytes) × (try_counters fuel stem counter bits ≡ ok token) × First counter i token
  unfolding try_counters
  try_counters_lem zero counter i small success = absurd (omega arith)
  try_counters_lem (suc fuel) counter i small success =
      elim (Bool-cases (reaches (sha1_bits (attempt counter 0)) bits)) [
        | inl e ↦ (
          attempt counter 0,
          rw e refl,
          record {
            round = 0;
            in_time = omega arith;
            is_token = refl;
            enough = e;
            none_before = λ k lt. absurd (omega arith);
          },
        )
        | inr e ↦
            let (token, gives, first) =
              after_failure fuel counter i (omega arith) e success (try_counters_lem fuel) in
            (token, rw e gives, first)
      ]
