-- ===== src/Messaging.antt =====
-- include/ra_common/messaging: the commands and the four kinds of message, over the type `Json` of the
-- values that they carry, and their conversion to and from a value.
pub mod RoundTrip
pub mod Kinds
pub mod Email
use ra_common_cpp.Base.{
  ℕ, Bool, true, false, List, [], ◌∷◌, ◌++◌, Option, none, some, Bytes, codes, list_eq,
  if◌then◌else◌, Result, ok, err, runtime_error, ◌>>=◌,
}
use ra_common_cpp.Std.Entropy.{Source}
use ra_common_cpp.Util.Random.{value_or, random_uuid_like}
use ra_common_cpp.Std.Json.{JsonLibrary}
use ra_common_cpp.Std.Json.Arrays.{of_strings, read_strings}
use ra_common_cpp.Std.Json.Fields.{Fields, written, written_list, present, at, optional, or_default}
use ra_common_cpp.Identity.{Did}
use ra_common_cpp.Identity.Json.{did_to_json, did_from_json}

pub data Command : Type 0 where
  start shutdown gracefully_shutdown restart pause unpause net_state report
        register_state_change_listener unregister_state_change_listener :
      Command

unfoldable pub command_to_string : Command → Bytes
command_to_string Command.start = codes "Start"
command_to_string Command.shutdown = codes "Shutdown"
command_to_string Command.gracefully_shutdown = codes "GracefullyShutdown"
command_to_string Command.restart = codes "Restart"
command_to_string Command.pause = codes "Pause"
command_to_string Command.unpause = codes "Unpause"
command_to_string Command.net_state = codes "NetState"
command_to_string Command.report = codes "Report"
command_to_string Command.register_state_change_listener = codes "RegisterStateChangeListener"
command_to_string Command.unregister_state_change_listener = codes "UnregisterStateChangeListener"

unfoldable pub command_from_string : Bytes → Command
command_from_string s =
    if list_eq s (codes "Shutdown")
    then Command.shutdown
    else if list_eq s (codes "GracefullyShutdown")
    then Command.gracefully_shutdown
    else if list_eq s (codes "Restart")
    then Command.restart
    else if list_eq s (codes "Pause")
    then Command.pause
    else if list_eq s (codes "Unpause")
    then Command.unpause
    else if list_eq s (codes "NetState")
    then Command.net_state
    else if list_eq s (codes "Report")
    then Command.report
    else if list_eq s (codes "RegisterStateChangeListener")
    then Command.register_state_change_listener
    else if list_eq s (codes "UnregisterStateChangeListener")
    then Command.unregister_state_change_listener
    else Command.start

pub record EventMessage (Json : Type 0) : Type 0 where
  pub event_id : Bytes
  pub event_type : Bytes
  pub name : Option Bytes
  pub message_value : Json

pub record TextMessage (Json : Type 0) : Type 0 where
  pub to : Option (Did Json)
  pub from : Option (Did Json)
  pub text : Option Bytes

pub data Body (Json : Type 0) : Type 0 where
  document : List Json → Body Json
  command : Option Command → Body Json
  event : EventMessage Json → Body Json
  text_body : TextMessage Json → Body Json

-- A Message: the part of its class, and error_messages.
pub record Message (Json : Type 0) : Type 0 where
  pub body : Body Json
  pub error_messages : List Bytes

-- Kind()
unfoldable pub kind_of : {Json : Type 0} → Body Json → Bytes
kind_of (document values) = codes "document"
kind_of (command c) = codes "command"
kind_of (event m) = codes "event"
kind_of (text_body m) = codes "text"

unfoldable pub add_error_message : {Json : Type 0} → Bytes → Message Json → Message Json
add_error_message msg m = record m { error_messages = m.error_messages ++ msg ∷ [] }

unfoldable pub clear_error_messages : {Json : Type 0} → Message Json → Message Json
clear_error_messages m = record m { error_messages = [] }

module _ {Json : Type 0} (lib : JsonLibrary Json) where
  open lib use {null, of_string, of_array, of_object, get_string, get_array, is_null}

  abbrev pub errors_field : List Bytes → Bytes × Option Json
  errors_field errors = (codes "error_messages", written_list (of_strings lib) errors)

  -- The fields of ToJson, those of WithErrors included.
  abbrev pub document_fields : List Json → List Bytes → Fields Json
  document_fields values errors =
      (codes "kind", some (of_string (codes "document")))
      ∷ (codes "data", some (of_array values))
      ∷ errors_field errors
      ∷ []

  abbrev pub command_fields : Option Command → List Bytes → Fields Json
  command_fields c errors =
      (codes "kind", some (of_string (codes "command")))
      ∷ (codes "command", written (λ x. of_string (command_to_string x)) c)
      ∷ errors_field errors
      ∷ []

  abbrev pub event_fields : EventMessage Json → List Bytes → Fields Json
  event_fields m errors =
      (codes "kind", some (of_string (codes "event")))
      ∷ (codes "id", some (of_string m.event_id))
      ∷ (codes "event_type", some (of_string m.event_type))
      ∷ (codes "name", written of_string m.name)
      ∷ (codes "message", if is_null m.message_value then none else some m.message_value)
      ∷ errors_field errors
      ∷ []

  abbrev pub text_fields : TextMessage Json → List Bytes → Fields Json
  text_fields m errors =
      (codes "kind", some (of_string (codes "text")))
      ∷ (codes "to", written (did_to_json lib) m.to)
      ∷ (codes "from", written (did_to_json lib) m.from)
      ∷ (codes "text", written of_string m.text)
      ∷ errors_field errors
      ∷ []

  abbrev pub body_fields : Body Json → List Bytes → Fields Json
  body_fields (document values) errors = document_fields values errors
  body_fields (command c) errors = command_fields c errors
  body_fields (event m) errors = event_fields m errors
  body_fields (text_body m) errors = text_fields m errors

  unfoldable pub message_to_json : Message Json → Json
  message_to_json m = of_object (present (body_fields m.body m.error_messages))

  -- ErrorsFromJson
  unfoldable pub errors_from_json : Json → Result (List Bytes)
  errors_from_json j = or_default lib (read_strings lib) j (codes "error_messages") []

  unfoldable pub document_from_json : Json → Result (Message Json)
  document_from_json j = do
    values ← or_default lib get_array j (codes "data") (of_object [] ∷ [])
    errors ← errors_from_json j
    ok (record { body = document values; error_messages = errors })

  unfoldable pub read_command : Json → Result Command
  read_command j = do name' ← get_string j; ok (command_from_string name')

  unfoldable pub command_from_json : Json → Result (Message Json)
  command_from_json j = do
    c ← optional lib read_command j (codes "command")
    errors ← errors_from_json j
    ok (record { body = command c; error_messages = errors })

  -- RandomUuidLike is called for an event with an id, too. The result also has the number of the next
  -- call of getentropy.
  unfoldable pub event_from_json : Source → Json → ℕ → Result (Message Json × ℕ)
  unfolding value_or
  event_from_json source j call = do
    event_type' ← at lib get_string j (codes "event_type")
    id_in ← optional lib get_string j (codes "id")
    (drawn, next) ← random_uuid_like source call
    name' ← optional lib get_string j (codes "name")
    value' ← or_default lib ok j (codes "message") null
    errors ← errors_from_json j
    ok (
      record {
        body = event (record {
          event_id = value_or id_in drawn;
          event_type = event_type';
          name = name';
          message_value = value';
        });
        error_messages = errors;
      },
      next,
    )

  unfoldable pub text_from_json : Json → Result (Message Json)
  text_from_json j = do
    to' ← optional lib (did_from_json lib) j (codes "to")
    from' ← optional lib (did_from_json lib) j (codes "from")
    text' ← optional lib get_string j (codes "text")
    errors ← errors_from_json j
    ok (record {
      body = text_body (record { to = to'; from = from'; text = text' });
      error_messages = errors;
    })

  -- A class that draws nothing.
  abbrev pub undrawn : ℕ → Result (Message Json) → Result (Message Json × ℕ)
  undrawn call (ok m) = ok (m, call)
  undrawn call (err e) = err e

  unfoldable pub message_of_kind : Source → Bytes → Json → ℕ → Result (Message Json × ℕ)
  message_of_kind source kind j call =
      if list_eq kind (codes "document")
      then undrawn call (document_from_json j)
      else if list_eq kind (codes "command")
      then undrawn call (command_from_json j)
      else if list_eq kind (codes "event")
      then event_from_json source j call
      else if list_eq kind (codes "text")
      then undrawn call (text_from_json j)
      else err (runtime_error (codes "unknown message kind: " ++ kind))

  -- MessageFromJson
  unfoldable pub message_from_json : Source → Json → ℕ → Result (Message Json × ℕ)
  message_from_json source j call = do
    kind ← at lib get_string j (codes "kind")
    message_of_kind source kind j call
