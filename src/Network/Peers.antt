-- ===== src/Network/Peers.antt =====
-- When two peers are the same, and the names of the networks.
use ra_common_cpp.Base.{
  ℕ, inl, inr, ◌&&◌, list_eq_iff, list_eq_refl, Bool-cases, ◌≡◌, refl, ◌++◌, ◌∷◌, [], some, Bytes,
  Lacks, list_eq, list_eq→eq, arith,
}
use ra_common_cpp.Network.{
  Network, NetworkPeer, network_to_string, network_from_string, peer_equals,
}

-- The text of a network is read back to the network.
pub network_from_string-to_string : (x : Network) → network_from_string (network_to_string x) ≡ x
unfolding network_from_string network_to_string list_eq
network_from_string-to_string Network.card = refl
network_from_string-to_string Network.nfc = refl
network_from_string-to_string Network.http = refl
network_from_string-to_string Network.tor = refl
network_from_string-to_string Network.i2p = refl
network_from_string-to_string Network.wi_fi = refl
network_from_string-to_string Network.bluetooth = refl
network_from_string-to_string Network.satellite = refl
network_from_string-to_string Network.fs_radio = refl
network_from_string-to_string Network.li_fi = refl

split_at :
    (c : ℕ) (a b x y : Bytes) → Lacks c a → Lacks c b → a ++ c ∷ x ≡ b ++ c ∷ y → (a ≡ b) × (x ≡ y)
split_at c [] [] x y ha hb e = (refl, cc)
split_at c [] (b ∷ bs) x y ha hb e = absurd (ground arith)
split_at c (a ∷ as') [] x y ha hb e = absurd (ground arith)
split_at c (a ∷ as') (b ∷ bs) x y ha hb e = ground (arith, split_at c as' bs x y ha.1 hb.1 (cc))

text_eq :
    (a a' f f' : Bytes)
    → Lacks b' ' a
    → Lacks b' ' a'
    → list_eq (a ++ b' ' ∷ f) (a' ++ b' ' ∷ f') ≡ (list_eq a a' && list_eq f f')
text_eq a a' f f' ha ha' = elim (Bool-cases (list_eq (a ++ b' ' ∷ f) (a' ++ b' ' ∷ f'))) [
  | inl e ↦
      let (first, second) = split_at b' ' a a' f f' ha ha' (list_eq→eq _ _ e) in
      ground (arith, e, first, second, list_eq_refl a', list_eq_refl f')
  | inr e ↦ ground (arith, e, list_eq_iff a a', list_eq_iff f f', list_eq_refl (a' ++ b' ' ∷ f'))
]

-- Two peers that each have an address without spaces and a fingerprint are equal exactly when
-- both the addresses and the fingerprints are.
pub peer_equals-key :
    {Json : Type 0} (p q : NetworkPeer Json) (a f a' f' : Bytes)
    → p.did.public_key.address_value ≡ some a
    → p.did.public_key.fingerprint_value ≡ some f
    → q.did.public_key.address_value ≡ some a'
    → q.did.public_key.fingerprint_value ≡ some f'
    → Lacks b' ' a
    → Lacks b' ' a'
    → peer_equals p q ≡ (list_eq a a' && list_eq f f')
unfolding peer_equals
peer_equals-key p q a f a' f' pa pf qa qf ha ha' = rw (pa, pf, qa, qf) (text_eq a a' f f' ha ha')
