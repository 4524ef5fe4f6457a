-- ===== src/Envelope/Headers.antt =====
-- RemoveHeader, ContentType and SetContentType of class Envelope.
use ra_common_cpp.Base.{
  Bool, true, false, ◌≡◌, refl, ap, ◌∙◌, Option, none, some, Bytes, codes, list_eq, list_eq_refl,
  if◌then◌else◌, Result, ok, ◌>>=◌,
}
use ra_common_cpp.Std.Json.{JsonLibrary}
use ra_common_cpp.Envelope.Json.{EnvelopeData}
use ra_common_cpp.Envelope.Payload.{or_null, set_header, header_exists, header}

module _ {Json : Type 0} (lib : JsonLibrary Json) where
  open lib use {
    null, of_string, get_string, find_member, is_object, is_string, erase_member, assign, assign-of,
    erase_member-of, is_string-of, get_string-of, is_object-find_member,
  }

  unfoldable pub remove_header : Bytes → EnvelopeData Json → Result (EnvelopeData Json)
  remove_header name e = do after ← erase_member e.headers name; ok (record e { headers = after })

  unfoldable pub string_value : Json → Result (Option Bytes)
  string_value v = if is_string v then (get_string v >>= λ s. ok (some s)) else ok none

  unfoldable pub content_type_of : EnvelopeData Json → Result (Option Bytes)
  unfolding string_value
  content_type_of e = elim (find_member e.headers (codes "Content-Type")) [
    | none ↦ ok none
    | some v ↦ string_value v
  ]

  unfoldable pub set_content_type : Bytes → EnvelopeData Json → Result (EnvelopeData Json)
  unfolding set_header
  set_content_type s e = set_header lib (codes "Content-Type") (of_string s) e

  or_null_if :
      (b : Bool) (o : Option Json)
      → or_null lib (if b then none else o) ≡ (if b then null else or_null lib o)
  or_null_if true o = refl
  or_null_if false o = refl

  if_true : {A : Type 0} (b : Bool) (x y : A) → b ≡ true → (if b then x else y) ≡ x
  if_true true x y e = refl
  if_true false x y e = absurd (cc)

  content_type_of-found :
      (e : EnvelopeData Json) (s : Bytes)
      → find_member e.headers (codes "Content-Type") ≡ some (of_string s)
      → content_type_of e ≡ ok (some s)
  unfolding content_type_of string_value
  content_type_of-found e s found =
      rw (found, content_type_of, is_string-of s, get_string-of s) refl

  find_member-missing :
      (e : EnvelopeData Json) (name : Bytes)
      → find_member e.headers name ≡ none
      → header_exists lib name e ≡ false
  unfolding header_exists
  find_member-missing e name found = rw (found, header_exists) refl

  pub remove_header_lem :
      (e : EnvelopeData Json) (name : Bytes)
      → is_object e.headers ≡ true
      → (removed : EnvelopeData Json) × (remove_header name e ≡ ok removed)
        × (header_exists lib name removed ≡ false)
        × ((other : Bytes)
            → header lib other removed ≡ (if list_eq name other then null else header lib other e))
  unfolding remove_header header
  remove_header_lem e name object' =
      let (after, (erased, _, finds)) = erase_member-of e.headers name object' in
      let removed : EnvelopeData Json = record e { headers = after } in
      (
        removed,
        rw (erased) refl,
        find_member-missing removed name
            (finds name ∙ if_true (list_eq name name) none _ (list_eq_refl name)),
        λ other.
            ap (or_null lib) (finds other)
            ∙ or_null_if (list_eq name other) (find_member e.headers other),
      )

  -- On headers that are an object, ContentType gives what SetContentType set. RemoveHeader then takes
  -- the header of its name away, and every other header is what it was.
  pub remove_header-set_content_type :
      (e : EnvelopeData Json) (s name : Bytes)
      → is_object e.headers ≡ true
      → (set : EnvelopeData Json) × (set_content_type s e ≡ ok set)
        × (content_type_of set ≡ ok (some s))
        × ((removed : EnvelopeData Json) × (remove_header name set ≡ ok removed)
            × (header_exists lib name removed ≡ false)
            × ((other : Bytes)
                → header lib other removed
                  ≡ (if list_eq name other then null else header lib other set)))
  unfolding set_content_type set_header
  remove_header-set_content_type e s name object' =
      let (after, (assigned, finds)) =
        assign-of e.headers (codes "Content-Type") (of_string s) object' in
      let set' : EnvelopeData Json = record e { headers = after } in
      let found =
        finds (codes "Content-Type")
        ∙ if_true _ (some (of_string s)) _ (list_eq_refl (codes "Content-Type")) in
      (
        set',
        rw (assigned) refl,
        content_type_of-found set' s found,
        remove_header_lem set' name
            (is_object-find_member after (of_string s) (codes "Content-Type") found),
      )
