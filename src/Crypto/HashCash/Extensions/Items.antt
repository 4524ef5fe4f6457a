-- ===== src/Crypto/HashCash/Extensions/Items.antt =====
-- The items that SerializeExtensions writes, each for its entry.
use ra_common_cpp.Base.{
  ℕ, ◌≡◌, ◌≢◌, refl, true, false, Bool-cases, inl, inr, List, [], ◌∷◌, ◌++◌, Bytes, codes, All,
  Lacks, All-append, ok, ok-injective, >>=-eq-ok, ◌>>=◌, arith,
}
use ra_common_cpp.Std.Json.Arrays.{read_all}
use ra_common_cpp.Crypto.HashCash.Extensions.{
  Extensions, is_one_of, has_any, check_values, serialize_values, serialize_item, put_extension,
  put_item,
}
use ra_common_cpp.Crypto.HashCash.Extensions.Keys.{has_any-Lacks, cut_at-key, cut_at-Lacks}
use ra_common_cpp.Crypto.HashCash.Split.{join, split_on-join, Lacks-join}

check_values-Lacks :
    (c : ℕ) (values : List Bytes)
    → is_one_of (codes ":;,") c ≡ true
    → check_values values ≡ ok tt
    → All (Lacks c) values
unfolding check_values
check_values-Lacks c [] among h = tt
check_values-Lacks c (v ∷ values) among h = elim (Bool-cases (has_any (codes ":;,") v)) [
  | inl e ↦ absurd (cc (e))
  | inr e ↦ (has_any-Lacks (codes ":;,") v c among e, check_values-Lacks c values among (rw e at h))
]

-- What an item that was written holds, and what reading it puts.
abbrev pub IsItem : Bytes → List Bytes → Bytes → Type 0
IsItem key values item =
    Lacks b';' item
    × Lacks b':' item
    × ((out : Extensions) → put_item item out ≡ put_extension key values out)

serialize_values-IsItem :
    (key : Bytes) (values : List Bytes) (item : Bytes)
    → has_any (codes ":;=") key ≡ false
    → serialize_values key values ≡ ok item
    → IsItem key values item
unfolding serialize_values put_item is_one_of
serialize_values-IsItem key [] item legal h =
    let same : key ≡ item = ok-injective h in
    rw (← same) (
      has_any-Lacks (codes ":;=") key b';' refl legal,
      has_any-Lacks (codes ":;=") key b':' refl legal,
      λ out.
          rw (cut_at-Lacks b'=' key (has_any-Lacks (codes ":;=") key b'=' refl legal), put_item)
            refl,
    )
serialize_values-IsItem key (v ∷ values) item legal h =
    let (_, (gives, checked)) =
      >>=-eq-ok (λ done. ok (key ++ b'=' ∷ join b',' (v ∷ values))) item (check_values (v ∷ values))
        h in
    let same : key ++ b'=' ∷ join b',' (v ∷ values) ≡ item = ok-injective gives in
    let lacks : (c : ℕ) → is_one_of (codes ":;,") c ≡ true → All (Lacks c) (v ∷ values) =
      λ c among. check_values-Lacks c (v ∷ values) among checked in
    rw (← same) (
      All-append (λ b. b ≢ b';') key (b'=' ∷ join b',' (v ∷ values))
          (has_any-Lacks (codes ":;=") key b';' refl legal)
          (ground arith, Lacks-join b';' b',' (v ∷ values) (ground arith) (lacks b';' refl)),
      All-append (λ b. b ≢ b':') key (b'=' ∷ join b',' (v ∷ values))
          (has_any-Lacks (codes ":;=") key b':' refl legal)
          (ground arith, Lacks-join b':' b',' (v ∷ values) (ground arith) (lacks b':' refl)),
      λ out.
          rw
            (
              cut_at-key b'=' key (join b',' (v ∷ values))
                  (has_any-Lacks (codes ":;=") key b'=' refl legal),
              put_item,
              split_on-join b',' v values (lacks b',' refl),
            )
            refl,
    )

serialize_item-IsItem :
    (key : Bytes) (values : List Bytes) (item : Bytes)
    → serialize_item (key, values) ≡ ok item
    → IsItem key values item
unfolding serialize_item
serialize_item-IsItem key values item h = elim (Bool-cases (has_any (codes ":;=") key)) [
  | inl e ↦ absurd (cc (e))
  | inr e ↦ serialize_values-IsItem key values item e (rw e at h)
]

-- The items that were written, each for its entry.
pub data Items : Extensions → List Bytes → Type 0 where
  none_left : Items [] []
  item_for :
      (key : Bytes) (values : List Bytes) (item : Bytes) (ext : Extensions) (items : List Bytes)
      → IsItem key values item
      → Items ext items
      → Items ((key, values) ∷ ext) (item ∷ items)

pub read_all-Items :
    (ext : Extensions) (items : List Bytes)
    → read_all serialize_item ext ≡ ok items
    → Items ext items
unfolding read_all
read_all-Items [] items h = let same : [] ≡ items = ok-injective h in rw (← same) none_left
read_all-Items ((key, values) ∷ ext) items h =
    let (item, (rest, first)) =
      >>=-eq-ok (λ y. do ys ← read_all serialize_item ext; ok (y ∷ ys)) items
        (serialize_item (key, values)) h in
    let (ys, (last, more)) =
      >>=-eq-ok (λ ys. ok (item ∷ ys)) items (read_all serialize_item ext) rest in
    let same : item ∷ ys ≡ items = ok-injective last in
    rw (← same) (
      item_for key values item ext ys (serialize_item-IsItem key values item first)
        (read_all-Items ext ys more))

pub Items-Lacks :
    (ext : Extensions) (items : List Bytes)
    → Items ext items
    → All (Lacks b';') items × All (Lacks b':') items
Items-Lacks _ _ none_left = (tt, tt)
Items-Lacks _ _ (item_for key values item ext items at rest) =
    let (semicolons, colons) = Items-Lacks ext items rest in ((at.0, semicolons), (at.1, colons))
