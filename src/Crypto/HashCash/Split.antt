-- ===== src/Crypto/HashCash/Split.antt =====
-- SplitOn of include/ra_common/crypto/hash_cash.hpp, and the loops there that join parts.
use ra_common_cpp.Base.{
  ℕ, ◌≡◌, ◌≢◌, ap, sym, ◌∙◌, List, [], ◌∷◌, ◌++◌, append_assoc, append-nil, Bool-cases, inl, inr,
  Bytes, All, Lacks, All-append, ◌==◌, if◌then◌else◌, arith,
}

-- `cur` is the part being read; one part more than there are delimiters.
unfoldable pub split_from : ℕ → Bytes → Bytes → List Bytes
split_from delim [] cur = cur ∷ []
split_from delim (c ∷ s) cur =
    let rest = split_from delim s (if c == delim then [] else cur ++ c ∷ []) in
    if c == delim then cur ∷ rest else rest

unfoldable pub split_on : ℕ → Bytes → List Bytes
unfolding split_from
split_on delim s = split_from delim s []

-- The parts behind the first one, each behind a delimiter.
unfoldable pub join_more : ℕ → List Bytes → Bytes
join_more delim [] = []
join_more delim (part ∷ parts) = delim ∷ (part ++ join_more delim parts)

unfoldable pub join : ℕ → List Bytes → Bytes
unfolding join_more
join delim [] = []
join delim (part ∷ parts) = part ++ join_more delim parts

module _ (delim : ℕ) where
  split_from-last : (p cur : Bytes) → Lacks delim p → split_from delim p cur ≡ (cur ++ p) ∷ []
  unfolding split_from
  split_from-last [] cur h = ap (λ t. t ∷ []) (sym (append-nil cur))
  split_from-last (c ∷ p) cur h =
      ground (arith, split_from-last p (cur ++ c ∷ []) h.1, append_assoc cur (c ∷ []) p)

  split_from-delim :
      (p cur s : Bytes)
      → Lacks delim p
      → split_from delim (p ++ delim ∷ s) cur ≡ (cur ++ p) ∷ split_from delim s []
  unfolding split_from
  split_from-delim [] cur s h = ground (arith, append-nil cur)
  split_from-delim (c ∷ p) cur s h =
      ground (arith, split_from-delim p (cur ++ c ∷ []) s h.1, append_assoc cur (c ∷ []) p)

  -- What is joined is split again, whatever the parts hold but the delimiter; empty parts are kept.
  pub split_on-join :
      (part : Bytes) (parts : List Bytes)
      → All (Lacks delim) (part ∷ parts)
      → split_on delim (join delim (part ∷ parts)) ≡ part ∷ parts
  unfolding split_on join join_more
  split_on-join part [] h = rw (append-nil part) (split_from-last part [] h.0)
  split_on-join part (next ∷ parts) h =
      split_from-delim part [] (next ++ join_more delim parts) h.0
      ∙ ap (◌∷◌ part) (split_on-join next parts h.1)

  split_from-Lacks : (s cur : Bytes) → Lacks delim cur → All (Lacks delim) (split_from delim s cur)
  unfolding split_from
  split_from-Lacks [] cur h = (h, tt)
  split_from-Lacks (c ∷ s) cur h = elim (Bool-cases (c == delim)) [
    | inl e ↦ rw e (h, split_from-Lacks s [] tt)
    | inr e ↦ rw e (
        split_from-Lacks s (cur ++ c ∷ [])
          (All-append (λ b. b ≢ delim) cur (c ∷ []) h (ground (arith, e), tt)))
  ]

  -- No part has the delimiter.
  pub split_on-Lacks : (s : Bytes) → All (Lacks delim) (split_on delim s)
  unfolding split_on
  split_on-Lacks s = split_from-Lacks s [] tt

Lacks-join_more :
    (c delim : ℕ) (parts : List Bytes)
    → delim ≢ c
    → All (Lacks c) parts
    → Lacks c (join_more delim parts)
unfolding join_more
Lacks-join_more c delim [] other h = tt
Lacks-join_more c delim (part ∷ parts) other h = (
  other,
  All-append (λ b. b ≢ c) part (join_more delim parts) h.0
      (Lacks-join_more c delim parts other h.1),
)

pub Lacks-join :
    (c delim : ℕ) (parts : List Bytes)
    → delim ≢ c
    → All (Lacks c) parts
    → Lacks c (join delim parts)
unfolding join
Lacks-join c delim [] other h = tt
Lacks-join c delim (part ∷ parts) other h =
    All-append (λ b. b ≢ c) part (join_more delim parts) h.0
      (Lacks-join_more c delim parts other h.1)
