-- ===== src/Crypto/HashCash/Extensions/RoundTrip.antt =====
-- The extensions of a token, written and read.
use ra_common_cpp.Base.{
  ◌≡◌, ◌≢◌, refl, ap, sym, ◌∙◌, List, [], ◌∷◌, ◌++◌, append_assoc, append-nil, Bytes, All, Lacks,
  ok, ok-injective, >>=-eq-ok, arith,
}
use ra_common_cpp.Std.Json.{IsOrdered, names}
use ra_common_cpp.Std.Json.Arrays.{read_all}
use ra_common_cpp.Config.{cut_at}
use ra_common_cpp.Crypto.HashCash.Extensions.{
  Extensions, serialize_item, serialize_extensions, put_extension, put_item, put_items,
  deserialize_extensions,
}
use ra_common_cpp.Crypto.HashCash.Extensions.Items.{
  IsItem, Items, none_left, item_for, read_all-Items, Items-Lacks,
}
use ra_common_cpp.Crypto.HashCash.Extensions.Keys.{put_extension-last}
use ra_common_cpp.Crypto.HashCash.Split.{split_on, join, join_more, split_on-join, Lacks-join}

names-append : (ext more : Extensions) → names (ext ++ more) ≡ names ext ++ names more
names-append [] more = refl
names-append ((name, values) ∷ ext) more = ap (◌∷◌ name) (names-append ext more)

put_items-Items :
    (ext : Extensions) (items : List Bytes) (out : Extensions)
    → Items ext items
    → IsOrdered (names out ++ names ext)
    → put_items items out ≡ out ++ ext
unfolding put_items
put_items-Items _ _ out none_left h = sym (append-nil out)
put_items-Items _ _ out (item_for key values item ext items at rest) h =
    rw (at.2 out, put_extension-last out key values (names ext) h)
      (put_items-Items ext items (out ++ (key, values) ∷ []) rest (
          rw
            (names-append out ((key, values) ∷ []), append_assoc (names out) (key ∷ []) (names ext))
            h)
        ∙ append_assoc out ((key, values) ∷ []) ext)

deserialize_full :
    (text : Bytes) → text ≢ [] → deserialize_extensions text ≡ put_items (split_on b';' text) []
unfolding deserialize_extensions
deserialize_full [] full = absurd (full refl)
deserialize_full (c ∷ text) full = refl

deserialize-join :
    (item : Bytes) (items : List Bytes)
    → All (Lacks b';') (item ∷ items)
    → join b';' (item ∷ items) ≢ []
    → deserialize_extensions (join b';' (item ∷ items)) ≡ put_items (item ∷ items) []
deserialize-join item items h full =
    deserialize_full (join b';' (item ∷ items)) full ∙ rw (split_on-join b';' item items h) refl

join-eq-nil :
    (item : Bytes) (items : List Bytes) → join b';' (item ∷ items) ≡ [] → (item ≡ []) × (items ≡ [])
unfolding join join_more
join-eq-nil [] [] h = (refl, refl)
join-eq-nil [] (next ∷ items) h = cc
join-eq-nil (c ∷ item) items h = cc

Items-nil : (ext : Extensions) (items : List Bytes) → Items ext items → items ≡ [] → ext ≡ []
Items-nil _ _ none_left e = refl
Items-nil _ _ (item_for key values item ext items at rest) e = absurd (cc (e))

IsItem-nil :
    (key : Bytes) (values : List Bytes)
    → IsItem key values []
    → ◌≡◌ {A = Extensions} ((key, values) ∷ []) (([], []) ∷ [])
unfolding put_item put_extension cut_at
IsItem-nil key values at = sym (at.2 [])

Item-empty :
    (key : Bytes) (values : List Bytes) (item : Bytes)
    → IsItem key values item
    → item ≡ []
    → ◌≡◌ {A = Extensions} ((key, values) ∷ []) (([], []) ∷ [])
Item-empty key values item at e = IsItem-nil key values (rw e at at)

-- Only the one entry with neither a key nor a value is written as nothing.
deserialize-Items :
    (ext : Extensions) (items : List Bytes)
    → Items ext items
    → IsOrdered (names ext)
    → ext ≢ ([], []) ∷ []
    → deserialize_extensions (join b';' items) ≡ ext
unfolding deserialize_extensions join
deserialize-Items _ _ none_left ordered whole = refl
deserialize-Items _ _ (item_for key values item ext items at rest) ordered whole =
    let lacks = Items-Lacks _ _ (item_for key values item ext items at rest) in
    deserialize-join item items lacks.0 (λ e.
      let (no_item, no_items) = join-eq-nil item items e in
      let no_more = Items-nil ext items rest no_items in
      whole (rw no_more (Item-empty key values item at no_item)))
    ∙ put_items-Items ((key, values) ∷ ext) (item ∷ items) []
        (item_for key values item ext items at rest) ordered

-- The extensions that SerializeExtensions accepts are those that DeserializeExtensions reads from
-- its text, for every std::map but the single entry with neither key nor value.
pub deserialize_extensions-serialize :
    (ext : Extensions) (text : Bytes)
    → IsOrdered (names ext)
    → ext ≢ ([], []) ∷ []
    → serialize_extensions ext ≡ ok text
    → deserialize_extensions text ≡ ext
unfolding serialize_extensions
deserialize_extensions-serialize ext text ordered whole h =
    let (items, (joined, read)) =
      >>=-eq-ok (λ parts. ok (join b';' parts)) text (read_all serialize_item ext) h in
    let same : join b';' items ≡ text = ok-injective joined in
    rw (← same) (deserialize-Items ext items (read_all-Items ext items read) ordered whole)

-- The extensions are written without a colon.
pub serialize_extensions-Lacks :
    (ext : Extensions) (text : Bytes) → serialize_extensions ext ≡ ok text → Lacks b':' text
unfolding serialize_extensions
serialize_extensions-Lacks ext text h =
    let (items, (joined, read)) =
      >>=-eq-ok (λ parts. ok (join b';' parts)) text (read_all serialize_item ext) h in
    let same : join b';' items ≡ text = ok-injective joined in
    rw (← same) (
      Lacks-join b':' b';' items (omega arith)
        (Items-Lacks ext items (read_all-Items ext items read)).1)
