-- ===== src/Content/Body.antt =====
-- What SetBody leaves in a content.
use ra_common_cpp.Base.{
  ℕ, Bool, true, ◌≡◌, refl, sym, ap, ◌∙◌, some, Bytes, length, Error, Result, ok, err, arith,
}
use ra_common_cpp.Std.Entropy.{Source}
use ra_common_cpp.Crypto.HashAlgorithm.{Hash}
use ra_common_cpp.Crypto.HashUtil.{generate_hash, verify_hash}
use ra_common_cpp.Crypto.HashUtil.Verify.{verify_hash-generate_hash}
use ra_common_cpp.Content.{
  Facts, set_hash, set_fingerprint, store_body, fingerprint_and_store, set_body,
}

not_err : (e : Error) (next : ℕ) → (err e ≡ ok next) → ⊥
not_err e next h = cc

module _ (source : Source) (call : ℕ) (body' : Bytes) (with_fingerprint : Bool) where
  set_fingerprint-hash : (c : Facts) → (set_fingerprint with_fingerprint c).0.hash ≡ c.hash
  unfolding set_fingerprint
  set_fingerprint-hash c = ground arith

  store_body-hash :
      (next : ℕ) (p : Facts × Result (Unit {0})) → (store_body body' next p).0.hash ≡ p.0.hash
  unfolding store_body
  store_body-hash next p = ground arith

  stored_hash :
      (next : ℕ) (c : Facts)
      → (fingerprint_and_store body' with_fingerprint (c, ok next)).0.hash ≡ c.hash
  unfolding fingerprint_and_store
  stored_hash next c =
      store_body-hash next (set_fingerprint with_fingerprint c) ∙ set_fingerprint-hash c

  set_hash-err :
      (c : Facts) (e : Error)
      → generate_hash source call body' c.hash_algorithm ≡ err e
      → set_hash true source call body' c ≡ (c, err e)
  unfolding set_hash
  set_hash-err c e makes = rw (makes, set_hash) refl

  pub set_hash-ok :
      (c : Facts) (text : Bytes) (next : ℕ)
      → generate_hash source call body' c.hash_algorithm ≡ ok (text, next)
      → set_hash true source call body' c ≡ (
        record c { hash = some (record { hash_value = text; algorithm = c.hash_algorithm }) },
        ok next,
      )
  unfolding set_hash
  set_hash-ok c text next makes = rw (makes, set_hash) refl

  hash_that_verifies :
      (c : Facts) (made : Result (Bytes × ℕ)) (next : ℕ)
      → generate_hash source call body' c.hash_algorithm ≡ made
      → (set_body source call body' true with_fingerprint c).1 ≡ ok next
      → (h : Hash) × (((set_body source call body' true with_fingerprint c).0.hash ≡ some h)
          × (verify_hash body' h.hash_value h.algorithm ≡ ok true))
  unfolding set_body
  hash_that_verifies c (err e) next makes done =
      let stops =
        ap (λ p. (fingerprint_and_store body' with_fingerprint p).1)
          (set_hash-err (record c { content_size = length body' }) e makes) in
      absurd (not_err e next (sym stops ∙ done))
  hash_that_verifies c (ok (text, after)) next makes done = (
    record { hash_value = text; algorithm = c.hash_algorithm },
    (
      ap (λ p. (fingerprint_and_store body' with_fingerprint p).0.hash)
            (set_hash-ok (record c { content_size = length body' }) text after makes)
          ∙ stored_hash after _,
      verify_hash-generate_hash source call body' c.hash_algorithm text after makes,
    ),
  )

  -- When SetBody with a hash asked for returns, the content has a hash that VerifyHash accepts
  -- for the new body, whether or not a fingerprint was asked for.
  pub set_body-verify_hash :
      (c : Facts) (next : ℕ)
      → (set_body source call body' true with_fingerprint c).1 ≡ ok next
      → (h : Hash) × (((set_body source call body' true with_fingerprint c).0.hash ≡ some h)
          × (verify_hash body' h.hash_value h.algorithm ≡ ok true))
  set_body-verify_hash c next done =
      hash_that_verifies c (generate_hash source call body' c.hash_algorithm) next refl done
