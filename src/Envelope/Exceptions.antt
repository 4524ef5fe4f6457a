-- ===== src/Envelope/Exceptions.antt =====
-- AddException and Exceptions of class Envelope.
use ra_common_cpp.Base.{
  Bool, true, false, Bool-cases, Option-cases, inl, inr, List, [], ◌∷◌, ◌++◌, ◌≡◌, refl, sym, ap,
  ◌∙◌, Option, none, some, Bytes, codes, list_eq, list_eq_refl, if◌then◌else◌, Result, ok,
  ok-injective, ◌>>=◌,
}
use ra_common_cpp.Std.Json.{JsonLibrary}
use ra_common_cpp.Std.Json.Arrays.{
  of_strings, read_strings, read_strings-of, read_all, read_all-last,
}
use ra_common_cpp.Envelope.Json.{EnvelopeData}
use ra_common_cpp.Envelope.Payload.{
  or_null, primary, get_value, put_value, doc_values, with_values, add_nvp, value_of,
  get_value-primary, value_of-doc, add_nvp-value_of,
}

abbrev pub exceptions_name : Bytes
exceptions_name = codes "EXCEPTIONS"

module _ {Json : Type 0} (lib : JsonLibrary Json) where
  open lib use {
    null, of_string, of_array, get_string, find_member, is_object, is_array, push_back,
    is_array-null, is_array-of, is_array-only, push_back-of, get_string-of, get_array-of,
  }

  -- The array with the message behind, or a new one.
  unfoldable pub next_exceptions : Bytes → Option Json → Result Json
  next_exceptions msg none = ok (of_strings lib (msg ∷ []))
  next_exceptions msg (some v) =
      if is_array v then push_back v (of_string msg) else ok (of_strings lib (msg ∷ []))

  unfoldable pub add_exception : Bytes → EnvelopeData Json → Result (EnvelopeData Json × Bool)
  unfolding next_exceptions doc_values primary put_value with_values
  add_exception msg e = elim (doc_values lib e.message) [
    | none ↦ ok (e, false)
    | some values ↦ next_exceptions msg (find_member (primary lib values) exceptions_name) >>= λ v.
        put_value lib exceptions_name v values >>= λ after.
        ok (record e { message = with_values lib after e.message }, true)
  ]

  unfoldable pub read_exceptions : Json → Result (List Bytes)
  read_exceptions v = if is_array v then read_strings lib v else ok []

  unfoldable pub exceptions_of : EnvelopeData Json → Result (List Bytes)
  unfolding read_exceptions doc_values get_value
  exceptions_of e = elim (doc_values lib e.message) [
    | none ↦ ok []
    | some values ↦ read_exceptions (get_value lib exceptions_name values)
  ]

  exceptions_of-value_of :
      (e : EnvelopeData Json) → exceptions_of e ≡ read_exceptions (value_of lib exceptions_name e)
  unfolding exceptions_of value_of read_exceptions
  exceptions_of-value_of e = elim (Option-cases (doc_values lib e.message)) [
    | inl no_doc ↦ rw (no_doc, exceptions_of, value_of, is_array-null) refl
    | inr (values, doc) ↦ rw (doc, exceptions_of, value_of) refl
  ]

  not_array :
      (v : Json) (xs : List Bytes) → is_array v ≡ false → read_exceptions v ≡ ok xs → xs ≡ []
  unfolding read_exceptions
  not_array v xs e h = ok-injective (sym h ∙ rw e refl)

  read_exceptions-of : (xs : List Bytes) → read_exceptions (of_strings lib xs) ≡ ok xs
  unfolding read_exceptions
  read_exceptions-of xs = rw (is_array-of _) (read_strings-of lib xs)

  read_exceptions-array : (vs : List Json) → read_exceptions (of_array vs) ≡ read_all get_string vs
  unfolding read_exceptions read_strings
  read_exceptions-array vs = rw (is_array-of vs, get_array-of vs) refl

  -- The new value, whatever the old one was.
  abbrev Longer : Bytes → List Bytes → Option Json → Type 0
  Longer msg xs o =
      (w : Json) × (next_exceptions msg o ≡ ok w) × (read_exceptions w ≡ ok (xs ++ msg ∷ []))

  next_exceptions-Longer :
      (msg : Bytes) (xs : List Bytes) (o : Option Json)
      → read_exceptions (or_null lib o) ≡ ok xs
      → Longer msg xs o
  unfolding next_exceptions
  next_exceptions-Longer msg xs none h =
      rw (not_array null xs is_array-null h)
        (of_strings lib (msg ∷ []), refl, read_exceptions-of (msg ∷ []))
  next_exceptions-Longer msg xs (some v) h = elim (Bool-cases (is_array v)) [
    | inr e ↦
        rw (not_array v xs e h, e) (of_strings lib (msg ∷ []), refl, read_exceptions-of (msg ∷ []))
    | inl e ↦
        let (vs, same) = is_array-only v e in
        rw (e, same)
          (
            of_array (vs ++ of_string msg ∷ []),
            push_back-of vs (of_string msg),
            read_exceptions-array (vs ++ of_string msg ∷ [])
                ∙ read_all-last get_string vs xs (of_string msg) msg
                    (sym (read_exceptions-array vs) ∙ rw (← same) h) (get_string-of msg),
          )
  ]

  add_exception-nvp :
      (msg : Bytes) (e : EnvelopeData Json) (values : List Json) (w : Json)
      → doc_values lib e.message ≡ some values
      → next_exceptions msg (find_member (primary lib values) exceptions_name) ≡ ok w
      → add_exception msg e ≡ add_nvp lib exceptions_name w e
  unfolding add_exception add_nvp
  add_exception-nvp msg e values w doc gives = rw (doc, add_exception, add_nvp, gives) refl

  replaced : (b : Bool) (w old : Json) → b ≡ true → (if b then w else old) ≡ w
  replaced b w old e = rw e refl

  kept : (b : Bool) (w old : Json) → b ≡ false → (if b then w else old) ≡ old
  kept b w old e = rw e refl

  -- On an envelope with a document whose first value is an object, or that has no value, and
  -- whose exceptions can be read, AddException returns true, Exceptions then gives the message
  -- behind those that were there, and the value of every other name is what it was.
  pub add_exception-exceptions_of :
      (msg : Bytes) (e : EnvelopeData Json) (values : List Json) (xs : List Bytes)
      → doc_values lib e.message ≡ some values
      → is_object (primary lib values) ≡ true
      → exceptions_of e ≡ ok xs
      → (after : EnvelopeData Json) × (add_exception msg e ≡ ok (after, true))
        × (exceptions_of after ≡ ok (xs ++ msg ∷ []))
        × ((other : Bytes)
            → list_eq exceptions_name other ≡ false
            → value_of lib other after ≡ value_of lib other e)
  add_exception-exceptions_of msg e values xs doc object' h =
      let old : read_exceptions (or_null lib (find_member (primary lib values) exceptions_name))
          ≡ ok xs =
        ap read_exceptions (
          sym (
            value_of-doc lib e values exceptions_name doc
            ∙ get_value-primary lib exceptions_name values))
        ∙ sym (exceptions_of-value_of e)
        ∙ h in
      let (w, gives, longer) = next_exceptions-Longer msg xs _ old in
      let (after, (added, seen)) = add_nvp-value_of lib exceptions_name w e values doc object' in
      (
        after,
        add_exception-nvp msg e values w doc gives ∙ added,
        exceptions_of-value_of after
            ∙ ap read_exceptions (
                seen exceptions_name
                ∙ replaced (list_eq exceptions_name exceptions_name) w
                    (value_of lib exceptions_name e) (list_eq_refl exceptions_name))
            ∙ longer,
        λ other differ.
            seen other ∙ kept (list_eq exceptions_name other) w (value_of lib other e) differ,
      )
