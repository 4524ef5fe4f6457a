-- ===== src/Envelope/Payload.antt =====
-- The headers of an envelope and the accessors of its document payload. `j[name] = v` is `assign`, which
-- throws where `j` is neither an object nor null.
use ra_common_cpp.Base.{
  Bool, true, false, List, [], ◌∷◌, ◌≡◌, refl, sym, ap, ◌∙◌, Option, none, some, Bytes, codes,
  list_eq, if◌then◌else◌, Result, ok, ◌>>=◌,
}
use ra_common_cpp.Std.Json.{JsonLibrary, lookup}
use ra_common_cpp.Messaging.{Message, document, command, event, text_body, add_error_message}
use ra_common_cpp.Envelope.Json.{EnvelopeData}

module _ {Json : Type 0} (lib : JsonLibrary Json) where
  open lib use {null, of_object, find_member, is_object, assign, assign-of, find_member-of}

  -- contains() and at(), with a null value where there is none.
  abbrev pub or_null : Option Json → Json
  or_null none = null
  or_null (some v) = v

  -- DocumentMessage::Primary, Get and Put, on the vector of values.
  unfoldable pub primary : List Json → Json
  primary [] = of_object []
  primary (v ∷ vs) = v

  unfoldable pub with_primary : Json → List Json → List Json
  with_primary v [] = v ∷ []
  with_primary v (w ∷ ws) = v ∷ ws

  unfoldable pub get_value : Bytes → List Json → Json
  get_value key [] = null
  get_value key (v ∷ vs) = or_null (find_member v key)

  unfoldable pub put_value : Bytes → Json → List Json → Result (List Json)
  unfolding primary with_primary
  put_value key v values = do after ← assign (primary values) key v; ok (with_primary after values)

  unfoldable pub set_header : Bytes → Json → EnvelopeData Json → Result (EnvelopeData Json)
  set_header name v e = do after ← assign e.headers name v; ok (record e { headers = after })

  unfoldable pub header_exists : Bytes → EnvelopeData Json → Bool
  header_exists name e = elim (find_member e.headers name) [ none ↦ false | some v ↦ true ]

  unfoldable pub header : Bytes → EnvelopeData Json → Json
  header name e = or_null (find_member e.headers name)

  -- Doc(): the values of a document message.
  unfoldable pub doc_values : Option (Message Json) → Option (List Json)
  doc_values none = none
  doc_values (some m) = elim m.body [
    | document values ↦ some values
    | command c ↦ none
    | event x ↦ none
    | text_body x ↦ none
  ]

  unfoldable pub with_values : List Json → Option (Message Json) → Option (Message Json)
  with_values values none = none
  with_values values (some m) = some (record m { body = document values })

  -- AddNvp, and AddContent and AddEntity, which are AddNvp of a name; the Bool is what it returns.
  unfoldable pub add_nvp : Bytes → Json → EnvelopeData Json → Result (EnvelopeData Json × Bool)
  unfolding doc_values with_values put_value
  add_nvp name v e = elim (doc_values e.message) [
    | none ↦ ok (e, false)
    | some values ↦ put_value name v values >>= λ after.
        ok (record e { message = with_values after e.message }, true)
  ]

  unfoldable pub add_content : Json → EnvelopeData Json → Result (EnvelopeData Json × Bool)
  unfolding add_nvp
  add_content = add_nvp (codes "CONTENT")

  unfoldable pub add_entity : Json → EnvelopeData Json → Result (EnvelopeData Json × Bool)
  unfolding add_nvp
  add_entity = add_nvp (codes "ENTITY")

  -- Value, and Content and Entity.
  unfoldable pub value_of : Bytes → EnvelopeData Json → Json
  unfolding doc_values get_value
  value_of name e = elim (doc_values e.message) [
    | none ↦ null
    | some values ↦ get_value name values
  ]

  unfoldable pub content_value : EnvelopeData Json → Json
  unfolding value_of
  content_value = value_of (codes "CONTENT")

  unfoldable pub entity_value : EnvelopeData Json → Json
  unfolding value_of
  entity_value = value_of (codes "ENTITY")

  unfoldable pub values_of : EnvelopeData Json → Option Json
  unfolding doc_values
  values_of e = elim (doc_values e.message) [
    | none ↦ none
    | some values ↦ elim values [ [] ↦ none | v ∷ vs ↦ some v ]
  ]

  -- AddErrorMessage and ErrorMessages.
  unfoldable pub add_error : Bytes → EnvelopeData Json → EnvelopeData Json
  unfolding add_error_message
  add_error msg e = record e {
    message = elim e.message [ none ↦ none | some m ↦ some (add_error_message msg m) ];
  }

  unfoldable pub errors_of : EnvelopeData Json → List Bytes
  errors_of e = elim e.message [ none ↦ [] | some m ↦ m.error_messages ]

  -- What a value is found to be after AddNvp: the new one under its name, the old one under another.
  abbrev pub seen_after : Bytes → Json → EnvelopeData Json → Bytes → Json
  seen_after name v e other = if list_eq name other then v else value_of other e

  pub get_value-primary :
      (key : Bytes) (values : List Json)
      → get_value key values ≡ or_null (find_member (primary values) key)
  unfolding get_value primary lookup
  get_value-primary key [] = ap or_null (sym (find_member-of [] key))
  get_value-primary key (v ∷ vs) = refl

  pub get_value-with_primary :
      (key : Bytes) (v : Json) (values : List Json)
      → get_value key (with_primary v values) ≡ or_null (find_member v key)
  unfolding get_value with_primary
  get_value-with_primary key v [] = refl
  get_value-with_primary key v (w ∷ ws) = refl

  pub doc_values-with_values :
      (m : Option (Message Json)) (values after : List Json)
      → doc_values m ≡ some values
      → doc_values (with_values after m) ≡ some after
  unfolding doc_values with_values
  doc_values-with_values none values after doc = absurd (cc)
  doc_values-with_values (some m) values after doc = refl

  pub value_of-doc :
      (e : EnvelopeData Json) (values : List Json) (name : Bytes)
      → doc_values e.message ≡ some values
      → value_of name e ≡ get_value name values
  unfolding value_of
  value_of-doc e values name doc = rw (doc, value_of) refl

  pub found_after :
      (other : Bytes) (b : Bool) (v : Json) (old : Option Json)
      → or_null (if b then some v else old) ≡ (if b then v else or_null old)
  found_after other true v old = refl
  found_after other false v old = refl

  add_nvp-doc :
      (name : Bytes) (v : Json) (e : EnvelopeData Json) (values : List Json) (after : Json)
      → doc_values e.message ≡ some values
      → assign (primary values) name v ≡ ok after
      → add_nvp name v e
        ≡ ok (record e { message = with_values (with_primary after values) e.message }, true)
  unfolding add_nvp put_value
  add_nvp-doc name v e values after doc assigned = rw (doc, add_nvp, assigned) refl

  -- On an envelope with a document whose first value is an object, or that has no value, AddNvp
  -- returns true; the value of the name is then the new one, and that of every other name is what
  -- it was.
  pub add_nvp-value_of :
      (name : Bytes) (v : Json) (e : EnvelopeData Json) (values : List Json)
      → doc_values e.message ≡ some values
      → is_object (primary values) ≡ true
      → (after : EnvelopeData Json) × ((add_nvp name v e ≡ ok (after, true))
          × ((other : Bytes) → value_of other after ≡ seen_after name v e other))
  add_nvp-value_of name v e values doc object' =
      let (after, (assigned, finds)) = assign-of (primary values) name v object' in
      let values' = with_primary after values in
      let e' : EnvelopeData Json = record e { message = with_values values' e.message } in
      (
        e',
        (
          add_nvp-doc name v e values after doc assigned,
          λ other.
              value_of-doc e' values' other (doc_values-with_values e.message values values' doc)
              ∙ get_value-with_primary other after values
              ∙ ap or_null (finds other)
              ∙ found_after other (list_eq name other) v (find_member (primary values) other)
              ∙ ap (λ w. if list_eq name other then v else w)
                  (sym (value_of-doc e values other doc ∙ get_value-primary other values)),
        ),
      )
