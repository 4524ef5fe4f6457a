-- ===== src/Crypto/HashCash/Extensions/Keys.antt =====
-- The keys of the extensions: their order, and what they lack.
use ra_common_cpp.Base.{
  ℕ, ◌≡◌, refl, true, false, Bool-cases, inl, inr, List, [], ◌∷◌, ◌++◌, none, some, Bytes, Lacks,
  list_eq, arith,
}
use ra_common_cpp.Std.Json.{less, IsOrdered, names}
use ra_common_cpp.Config.{cut_at}
use ra_common_cpp.Crypto.HashCash.Extensions.{Extensions, is_one_of, has_any, put_extension}

less_trans : (a b c : Bytes) → less a b ≡ true → less b c ≡ true → less a c ≡ true
unfolding less
less_trans [] [] c h k = cc
less_trans [] (y ∷ b) [] h k = cc
less_trans [] (y ∷ b) (z ∷ c) h k = refl
less_trans (x ∷ a) [] c h k = cc
less_trans (x ∷ a) (y ∷ b) [] h k = cc
less_trans (x ∷ a) (y ∷ b) (z ∷ c) h k = ground (arith, less_trans a b c)

less-list_eq : (a b : Bytes) → less a b ≡ true → list_eq a b ≡ false
unfolding less list_eq
less-list_eq [] [] h = cc
less-list_eq [] (y ∷ b) h = refl
less-list_eq (x ∷ a) [] h = cc
less-list_eq (x ∷ a) (y ∷ b) h = ground (arith, less-list_eq a b)

-- A name that stands in front of others in the order is less than each.
ordered_less :
    (k : Bytes) (ks : List Bytes) (l : Bytes) (ls : List Bytes)
    → IsOrdered (k ∷ (ks ++ l ∷ ls))
    → less k l ≡ true
ordered_less k [] l ls h = h.0
ordered_less k (j ∷ ks) l ls h = less_trans k j l h.0 (ordered_less j ks l ls h.1)

tail-IsOrdered : (k : Bytes) (ks : List Bytes) → IsOrdered (k ∷ ks) → IsOrdered ks
tail-IsOrdered k [] h = tt
tail-IsOrdered k (l ∷ ks) h = h.1

-- A key behind all the others is put at the end.
pub put_extension-last :
    (out : Extensions) (key : Bytes) (values : List Bytes) (ks : List Bytes)
    → IsOrdered (names out ++ key ∷ ks)
    → put_extension key values out ≡ out ++ (key, values) ∷ []
unfolding put_extension
put_extension-last [] key values ks h = refl
put_extension-last ((name, old) ∷ out) key values ks h =
    let before = ordered_less name (names out) key ks h in
    rw
      (
        less-list_eq name key before,
        before,
        put_extension-last out key values ks (tail-IsOrdered name (names out ++ key ∷ ks) h),
      )
      refl

pub has_any-Lacks :
    (chars s : Bytes) (c : ℕ) → is_one_of chars c ≡ true → has_any chars s ≡ false → Lacks c s
unfolding has_any
has_any-Lacks chars [] c among h = tt
has_any-Lacks chars (d ∷ s) c among h = elim (Bool-cases (is_one_of chars d)) [
  | inl e ↦ ground (arith, e)
  | inr e ↦ (λ same. ground (arith, e), has_any-Lacks chars s c among (ground (arith, e)))
]

pub cut_at-key :
    (c : ℕ) (key rest : Bytes) → Lacks c key → cut_at c (key ++ c ∷ rest) ≡ some (key, rest)
unfolding cut_at
cut_at-key c [] rest h = ground arith
cut_at-key c (d ∷ key) rest h = rw (cut_at-key c key rest h.1) (ground arith)

pub cut_at-Lacks : (c : ℕ) (key : Bytes) → Lacks c key → cut_at c key ≡ none
unfolding cut_at
cut_at-Lacks c [] h = refl
cut_at-Lacks c (d ∷ key) h = rw (cut_at-Lacks c key h.1) (ground arith)
