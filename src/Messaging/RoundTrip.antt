-- ===== src/Messaging/RoundTrip.antt =====
-- What ToJson writes of a message is what MessageFromJson reads.
use ra_common_cpp.Base.{
  ℕ, Result, List, [], ◌∷◌, ◌≡◌, refl, ◌∙◌, Option, none, some, Bytes, codes, list_eq,
  if◌then◌else◌, inl, inr, Bool-cases, ok,
}
use ra_common_cpp.Std.Entropy.{Source, NeverFails}
use ra_common_cpp.Util.Random.Ids.{random_uuid_like_lem}
use ra_common_cpp.Std.Json.{JsonLibrary}
use ra_common_cpp.Std.Json.Arrays.{of_strings, read_strings, read_strings-of}
use ra_common_cpp.Std.Json.Fields.{
  Fields, field, or_else, written, written_list, present, optional, or_default, optional-field,
  optional_string, at_string, or_default-field, or_default_no_field, or_default_list,
  find_member-present,
}
use ra_common_cpp.Identity.{Did}
use ra_common_cpp.Identity.Json.{did_to_json, did_from_json}
use ra_common_cpp.Identity.Json.RoundTrip.{did_from_json-to_json}
use ra_common_cpp.Network.Json.{IsDid}
use ra_common_cpp.Messaging.{
  Command, command_to_string, command_from_string, EventMessage, TextMessage, Body, document,
  command, event, text_body, Message, document_fields, command_fields, event_fields, text_fields,
  message_to_json, errors_from_json, document_from_json, read_command, command_from_json,
  event_from_json, text_from_json, undrawn, message_of_kind, message_from_json,
}

pub command_from_string-to_string : (x : Command) → command_from_string (command_to_string x) ≡ x
unfolding command_from_string command_to_string list_eq
command_from_string-to_string Command.start = refl
command_from_string-to_string Command.shutdown = refl
command_from_string-to_string Command.gracefully_shutdown = refl
command_from_string-to_string Command.restart = refl
command_from_string-to_string Command.pause = refl
command_from_string-to_string Command.unpause = refl
command_from_string-to_string Command.net_state = refl
command_from_string-to_string Command.report = refl
command_from_string-to_string Command.register_state_change_listener = refl
command_from_string-to_string Command.unregister_state_change_listener = refl

module _ {Json : Type 0} (lib : JsonLibrary Json) where
  open lib use {
    null, of_string, of_array, of_object, get_string, get_array, is_null, is_null-only,
    get_string-of, get_array-of,
  }

  abbrev pub IsOptionalDid : Option (Did Json) → Type 0
  IsOptionalDid none = Unit
  IsOptionalDid (some d) = IsDid lib d

  -- The messages that the text can hold.
  abbrev pub IsBody : Body Json → Type 0
  IsBody (document values) = Unit
  IsBody (command c) = Unit
  IsBody (event m) = Unit
  IsBody (text_body m) = IsOptionalDid m.to × IsOptionalDid m.from

  -- The message was read, with some draws.
  abbrev pub Reads : Message Json → Result (Message Json × ℕ) → Type 0
  Reads m r = (next : ℕ) × (r ≡ ok (m, next))

  read_errors :
      (fields : Fields Json) (errors : List Bytes)
      → field (codes "error_messages") fields ≡ or_else (written_list (of_strings lib) errors) none
      → errors_from_json lib (of_object (present fields)) ≡ ok errors
  unfolding errors_from_json
  read_errors fields errors there =
      or_default_list lib fields (codes "error_messages") (read_strings lib) (of_strings lib) errors
        there (read_strings-of lib errors)

  document_from_json-to_json :
      (values : List Json) (errors : List Bytes)
      → document_from_json lib (of_object (present (document_fields lib values errors)))
        ≡ ok (record { body = document values; error_messages = errors })
  unfolding document_from_json field list_eq
  document_from_json-to_json values errors =
      let fields = document_fields lib values errors in
      rw
        (
          or_default-field lib get_array fields (codes "data") (of_array values) (of_object [] ∷ [])
              values refl (get_array-of values),
          read_errors fields errors refl,
        )
        refl

  read_command-of_string : (c : Command) → read_command lib (of_string (command_to_string c)) ≡ ok c
  unfolding read_command
  read_command-of_string c =
      rw (get_string-of (command_to_string c), command_from_string-to_string c) refl

  command_from_json-to_json :
      (c : Option Command) (errors : List Bytes)
      → command_from_json lib (of_object (present (command_fields lib c errors)))
        ≡ ok (record { body = command c; error_messages = errors })
  unfolding command_from_json field list_eq
  command_from_json-to_json c errors =
      let fields = command_fields lib c errors in
      rw
        (
          optional-field lib (read_command lib) fields (codes "command")
              (λ x. of_string (command_to_string x)) c refl read_command-of_string,
          read_errors fields errors refl,
        )
        refl

  read_value :
      (fields : Fields Json) (v : Json)
      → field (codes "message") fields ≡ or_else (if is_null v then none else some v) none
      → or_default lib ok (of_object (present fields)) (codes "message") null ≡ ok v
  read_value fields v there = elim (Bool-cases (is_null v)) [
    | inl e ↦
        rw (is_null-only v e)
          (or_default_no_field lib ok fields (codes "message") null (there ∙ rw e refl))
    | inr e ↦ or_default-field lib ok fields (codes "message") v null v (there ∙ rw e refl) refl
  ]

  event_from_json-to_json :
      (source : Source) (m : EventMessage Json) (errors : List Bytes) (call : ℕ)
      → NeverFails source
      → Reads
          (record { body = event m; error_messages = errors })
          (event_from_json lib source (of_object (present (event_fields lib m errors))) call)
  unfolding event_from_json field list_eq
  event_from_json-to_json source m errors call always =
      let fields = event_fields lib m errors in
      let ((drawn, next), draws, _) = random_uuid_like_lem source call always in
      (
        next,
        rw
            (
              at_string lib fields (codes "event_type") m.event_type refl,
              optional_string lib fields (codes "id") (some m.event_id) refl,
              draws,
              optional_string lib fields (codes "name") m.name refl,
              read_value fields m.message_value refl,
              read_errors fields errors refl,
            )
            refl,
      )

  read_did :
      (fields : Fields Json) (name : Bytes) (d : Option (Did Json))
      → field name fields ≡ or_else (written (did_to_json lib) d) none
      → IsOptionalDid d
      → optional lib (did_from_json lib) (of_object (present fields)) name ≡ ok d
  unfolding optional
  read_did fields name none there keeps =
      rw (find_member-present lib fields name ∙ there, optional) refl
  read_did fields name (some d) there (kept, ordered) =
      rw
        (
          find_member-present lib fields name ∙ there,
          optional,
          did_from_json-to_json lib d kept ordered,
        )
        refl

  text_from_json-to_json :
      (m : TextMessage Json) (errors : List Bytes)
      → IsOptionalDid m.to
      → IsOptionalDid m.from
      → text_from_json lib (of_object (present (text_fields lib m errors)))
        ≡ ok (record { body = text_body m; error_messages = errors })
  unfolding text_from_json field list_eq
  text_from_json-to_json m errors keeps keeps' =
      let fields = text_fields lib m errors in
      rw
        (
          read_did fields (codes "to") m.to refl keeps,
          read_did fields (codes "from") m.from refl keeps',
          optional_string lib fields (codes "text") m.text refl,
          read_errors fields errors refl,
        )
        refl

  message_by_kind :
      (source : Source) (fields : Fields Json) (kind : Bytes) (m : Message Json) (call : ℕ)
      → field (codes "kind") fields ≡ some (of_string kind)
      → Reads m (message_of_kind lib source kind (of_object (present fields)) call)
      → Reads m (message_from_json lib source (of_object (present fields)) call)
  unfolding message_from_json
  message_by_kind source fields kind m call there (next, gives) =
      (next, rw (at_string lib fields (codes "kind") kind there) gives)

  undrawn-Reads :
      (m : Message Json) (r : Result (Message Json)) (call : ℕ)
      → r ≡ ok m
      → Reads m (undrawn lib call r)
  undrawn-Reads m r call e = (call, rw e refl)

  body_round_trip :
      (source : Source) (b : Body Json) (errors : List Bytes) (call : ℕ)
      → NeverFails source
      → IsBody b
      → Reads
          (record { body = b; error_messages = errors })
          (message_from_json lib source
            (message_to_json lib (record { body = b; error_messages = errors }))
            call)
  unfolding message_to_json message_of_kind field list_eq
  body_round_trip source (document values) errors call always keeps =
      message_by_kind source (document_fields lib values errors) (codes "document") _ call refl
        (undrawn-Reads _ _ call (document_from_json-to_json values errors))
  body_round_trip source (command c) errors call always keeps =
      message_by_kind source (command_fields lib c errors) (codes "command") _ call refl
        (undrawn-Reads _ _ call (command_from_json-to_json c errors))
  body_round_trip source (event m) errors call always keeps =
      message_by_kind source (event_fields lib m errors) (codes "event") _ call refl
        (event_from_json-to_json source m errors call always)
  body_round_trip source (text_body m) errors call always (keeps, keeps') =
      message_by_kind source (text_fields lib m errors) (codes "text") _ call refl
        (undrawn-Reads _ _ call (text_from_json-to_json m errors keeps keeps'))

  -- If getentropy succeeds for every count of at most 256 bytes, MessageFromJson reads from the text of a message the same
  -- message with its error messages, for each of the four kinds; the identities in a text message
  -- are such that a text can hold.
  pub message_from_json-to_json :
      (source : Source) (m : Message Json) (call : ℕ)
      → NeverFails source
      → IsBody m.body
      → Reads m (message_from_json lib source (message_to_json lib m) call)
  message_from_json-to_json source m call always keeps =
      body_round_trip source m.body m.error_messages call always keeps
