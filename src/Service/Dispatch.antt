-- ===== src/Service/Dispatch.antt =====
-- include/ra_common/service/service.hpp and ServiceReport::ToJson: the dispatch of an envelope by its message
-- and of a command. What a concrete service overrides is the parameter Handlers, over its state `S`.
use ra_common_cpp.Base.{
  Bool, true, false, List, [], ◌∷◌, ◌≡◌, refl, ap, ◌∙◌, Option, none, some, Bytes, codes, list_eq,
  if◌then◌else◌, Result, ok, ◌>>=◌,
}
use ra_common_cpp.Std.Json.{JsonLibrary}
use ra_common_cpp.Std.Json.Arrays.{of_strings}
use ra_common_cpp.Std.Json.Fields.{Fields, written, written_list, present}
use ra_common_cpp.Messaging.{Command, Message, Body, document, command, event, text_body}
use ra_common_cpp.Service.{ServiceReport, ServiceCore, status_to_string, report_of}
use ra_common_cpp.Envelope.Json.{EnvelopeData}
use ra_common_cpp.Envelope.Payload.{or_null, set_header, header}

pub record Handlers (Json S : Type 0) : Type 0 where
  pub core : S → ServiceCore
  pub start : List (Bytes × Bytes) → S → S
  pub pause : S → S
  pub unpause : S → S
  pub restart : S → S
  pub shutdown : S → S
  pub graceful_shutdown : S → S
  pub handle_document : EnvelopeData Json → S → EnvelopeData Json × S
  pub handle_event : EnvelopeData Json → S → EnvelopeData Json × S
  pub handle_headers : EnvelopeData Json → S → EnvelopeData Json × S

module _ {Json S : Type 0} (lib : JsonLibrary Json) (h : Handlers Json S) where
  open lib use {of_bool, of_string, of_object, find_member, is_object, assign-of}

  abbrev pub report_fields : ServiceReport → Fields Json
  report_fields r =
      (codes "service_class_name", some (of_string r.service_class_name))
      ∷ (codes "service_status", some (of_string (status_to_string r.service_status_value)))
      ∷ (codes "registered", some (of_bool r.registered))
      ∷ (codes "running", some (of_bool r.is_running))
      ∷ (codes "version", written of_string r.version)
      ∷ (codes "services_dependent_upon", written_list (of_strings lib) r.services_dependent_upon)
      ∷ []

  unfoldable pub report_to_json : ServiceReport → Json
  report_to_json r = of_object (present (report_fields r))

  -- The switch of HandleCommand.
  unfoldable pub obey : Command → EnvelopeData Json → S → Result (EnvelopeData Json × S)
  unfolding report_to_json report_of
  obey Command.start e s = ok (e, h.start (h.core s).config s)
  obey Command.pause e s = ok (e, h.pause s)
  obey Command.unpause e s = ok (e, h.unpause s)
  obey Command.restart e s = ok (e, h.restart s)
  obey Command.shutdown e s = ok (e, h.shutdown s)
  obey Command.gracefully_shutdown e s = ok (e, h.graceful_shutdown s)
  obey Command.report e s = do
    after ← set_header lib (codes "result") (report_to_json (report_of (h.core s))) e
    ok (after, s)
  obey Command.net_state e s = ok (e, s)
  obey Command.register_state_change_listener e s = ok (e, s)
  obey Command.unregister_state_change_listener e s = ok (e, s)

  unfoldable pub handle_command :
      Option Command → EnvelopeData Json → S → Result (EnvelopeData Json × S)
  unfolding obey
  handle_command none e s = ok (e, s)
  handle_command (some c) e s = obey c e s

  unfoldable pub handle_body : Body Json → EnvelopeData Json → S → Result (EnvelopeData Json × S)
  unfolding handle_command
  handle_body (document values) e s = ok (h.handle_document e s)
  handle_body (event m) e s = ok (h.handle_event e s)
  handle_body (command c) e s = handle_command c e s
  handle_body (text_body m) e s = ok (h.handle_headers e s)

  unfoldable pub handle_message :
      Option (Message Json) → EnvelopeData Json → S → Result (EnvelopeData Json × S)
  unfolding handle_body
  handle_message none e s = ok (h.handle_headers e s)
  handle_message (some m) e s = handle_body m.body e s

  -- Handle
  unfoldable pub handle : EnvelopeData Json → S → Result (EnvelopeData Json × S)
  unfolding handle_message
  handle e s = handle_message e.message e s

  found_header :
      (other : Bytes) (b : Bool) (v : Json) (old : Option Json)
      → or_null lib (if b then some v else old) ≡ (if b then v else or_null lib old)
  found_header other true v old = refl
  found_header other false v old = refl

  handle_report_command :
      (e : EnvelopeData Json) (s : S) (errors : List Bytes) (after : Json)
      → e.message ≡ some (record { body = command (some Command.report); error_messages = errors })
      → lib.assign e.headers (codes "result") (report_to_json (report_of (h.core s))) ≡ ok after
      → handle e s ≡ ok (record e { headers = after }, s)
  unfolding handle set_header
  handle_report_command e s errors after reports assigned =
      rw (reports, handle_message, assigned) refl

  -- Handle of an envelope with the command Report and an object of headers leaves the service as
  -- it was and puts the JSON of its report into the header "result", and keeps every other
  -- header.
  pub handle-header :
      (e : EnvelopeData Json) (s : S) (errors : List Bytes)
      → e.message ≡ some (record { body = command (some Command.report); error_messages = errors })
      → is_object e.headers ≡ true
      → (e' : EnvelopeData Json) × ((handle e s ≡ ok (e', s))
          × ((name : Bytes)
              → header lib name e' ≡ (
                  if list_eq (codes "result") name
                  then report_to_json (report_of (h.core s))
                  else header lib name e)))
  unfolding header
  handle-header e s errors reports object' =
      let (after, (assigned, finds)) =
        assign-of e.headers (codes "result") (report_to_json (report_of (h.core s))) object' in
      (
        record e { headers = after },
        (
          handle_report_command e s errors after reports assigned,
          λ name.
              ap (or_null lib) (finds name)
              ∙ found_header name (list_eq (codes "result") name)
                  (report_to_json (report_of (h.core s))) (find_member e.headers name),
        ),
      )
