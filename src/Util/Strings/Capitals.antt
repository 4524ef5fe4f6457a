-- ===== src/Util/Strings/Capitals.antt =====
-- Capitalizing twice is capitalizing once.
use ra_common_cpp.Base.{
  ℕ, ◌≡◌, refl, ap, inl, inr, Bool, true, false, not, ◌&&◌, [], ◌∷◌, Bytes, length, ◌==◌,
  Bool-cases, arith,
}
use ra_common_cpp.Util.Strings.{to_upper, capitalize_from, capitalize}

to_upper_twice : (c : ℕ) → to_upper (to_upper c) ≡ to_upper c
unfolding to_upper
to_upper_twice c = ground arith

to_upper_space : (c : ℕ) → (to_upper c == b' ') ≡ (c == b' ')
unfolding to_upper
to_upper_space c = ground arith

capitalize_from_twice :
    (next : Bool) (text : Bytes)
    → capitalize_from next (capitalize_from next text) ≡ capitalize_from next text
unfolding capitalize_from
capitalize_from_twice next [] = refl
capitalize_from_twice next (ch ∷ text) = elim (Bool-cases (next && not (ch == b' '))) [
  | inl e ↦
      let still : (next && not (to_upper ch == b' ')) ≡ true = rw (to_upper_space ch) e in
      rw (e, still, to_upper_twice ch) (ap (◌∷◌ (to_upper ch)) (capitalize_from_twice false text))
  | inr e ↦ rw (e, e) (ap (◌∷◌ ch) (capitalize_from_twice (ch == b' ') text))
]

length-capitalize_from :
    (next : Bool) (text : Bytes) → length (capitalize_from next text) ≡ length text
unfolding capitalize_from
length-capitalize_from next [] = refl
length-capitalize_from next (ch ∷ text) =
    ground (arith, length-capitalize_from false text, length-capitalize_from (ch == b' ') text)

-- Capitalize keeps the length of a text, and capitalizing a capitalized text changes nothing.
pub capitalize_twice :
    (text : Bytes)
    → (length (capitalize text) ≡ length text) × (capitalize (capitalize text) ≡ capitalize text)
unfolding capitalize
capitalize_twice text = (length-capitalize_from true text, capitalize_from_twice true text)
