-- ===== src/Envelope/Json.antt =====
-- The fields of an envelope beside its routing, and ToJson and FromJson. `fuel` is that of
-- RouteFromJson, and `call` the number of the next call of getentropy.
pub mod RoundTrip
use ra_common_cpp.Base.{
  ℕ, zero, suc, Bool, true, false, List, [], ◌∷◌, Option, none, some, Bytes, codes, list_eq,
  if◌then◌else◌, Result, ok, err, ◌>>=◌,
}
use ra_common_cpp.Std.Numbers.{ℤ, pos}
use ra_common_cpp.Std.Entropy.{Source}
use ra_common_cpp.Util.Random.{value_or, random_uuid_like, next_long}
use ra_common_cpp.Std.Json.{JsonLibrary}
use ra_common_cpp.Std.Json.Arrays.{of_strings, read_strings}
use ra_common_cpp.Std.Json.Fields.{Fields, written, present, at, optional, or_default, value}
use ra_common_cpp.Identity.{Did}
use ra_common_cpp.Identity.Json.{did_to_json, did_from_json, default_did}
use ra_common_cpp.Route.{
  Route, DynamicRoutingSlip, Current, slip, no_more, no_current, current, new_meta,
}
use ra_common_cpp.Route.Json.{route_to_json, slip_to_json, current_to_json}
use ra_common_cpp.Route.Json.Read.{route_from_json, slip_from_json, read_current}
use ra_common_cpp.Messaging.{Message, message_to_json, message_from_json}
use ra_common_cpp.Multipart.{Multipart, multipart_to_json, multipart_from_json}
use ra_common_cpp.Service.{ServiceLevel, level_to_string, level_from_string}
use ra_common_cpp.Envelope.{Envelope, EnvelopeAction, action_to_string, action_from_string}

pub record EnvelopeData (Json : Type 0) : Type 0 where
  pub routing : Envelope Json
  pub did : Did Json
  pub client : Option Bytes
  pub reply_to_client : Bool
  pub client_reply_action : Option Bytes
  pub url : Option Bytes
  pub multipart : Option Multipart
  pub action : Option EnvelopeAction
  pub command_path : Option Bytes
  pub headers : Json
  pub message : Option (Message Json)
  pub sensitivity : ℤ
  pub delayed : Bool
  pub min_delay : ℤ
  pub max_delay : ℤ
  pub copy : Bool
  pub max_copies : ℤ
  pub min_copies : ℤ
  pub service_level : ServiceLevel

module _ {Json : Type 0} (lib : JsonLibrary Json) where
  open lib use {of_bool, of_int, of_string, of_object, get_bool, get_int, get_string, find_member}

  abbrev pub envelope_fields : EnvelopeData Json → Fields Json
  envelope_fields e =
      (codes "id", some (of_string e.routing.id))
      ∷ (codes "dynamic_routing_slip", some (slip_to_json lib e.routing.dynamic_routing_slip))
      ∷ (codes "markers", some (of_strings lib e.routing.markers))
      ∷ (codes "did", some (did_to_json lib e.did))
      ∷ (codes "reply_to_client", some (of_bool e.reply_to_client))
      ∷ (codes "headers", some e.headers)
      ∷ (codes "sensitivity", some (of_int e.sensitivity))
      ∷ (codes "delayed", some (of_bool e.delayed))
      ∷ (codes "min_delay", some (of_int e.min_delay))
      ∷ (codes "max_delay", some (of_int e.max_delay))
      ∷ (codes "copy", some (of_bool e.copy))
      ∷ (codes "max_copies", some (of_int e.max_copies))
      ∷ (codes "min_copies", some (of_int e.min_copies))
      ∷ (codes "service_level", some (of_string (level_to_string e.service_level)))
      ∷ (codes "route", current_to_json lib e.routing.route)
      ∷ (codes "client", written of_string e.client)
      ∷ (codes "client_reply_action", written of_string e.client_reply_action)
      ∷ (codes "url", written of_string e.url)
      ∷ (codes "multipart", written (multipart_to_json lib) e.multipart)
      ∷ (codes "action", written (λ a. of_string (action_to_string a)) e.action)
      ∷ (codes "command_path", written of_string e.command_path)
      ∷ (codes "message", written (message_to_json lib) e.message)
      ∷ []

  unfoldable pub envelope_to_json : EnvelopeData Json → Json
  envelope_to_json e = of_object (present (envelope_fields e))

  unfoldable pub read_action : Json → Result EnvelopeAction
  read_action j = do text ← get_string j; ok (action_from_string text)

  unfoldable pub read_level : Json → Result ServiceLevel
  read_level j = do text ← get_string j; ok (level_from_string text)

  -- `if (data.contains(name))` with a reader that may draw.
  unfoldable pub optional_drawn :
      {A : Type 0} → (Json → ℕ → Result (A × ℕ)) → Json → Bytes → ℕ → Result (Option A × ℕ)
  optional_drawn read j name call = elim (find_member j name) [
    | none ↦ ok (none, call)
    | some v ↦ read v call >>= λ r. ok (some r.0, r.1)
  ]

  module _ (source : Source) where
    -- The slip that the constructor made with the id `drawn`, unless the text has one.
    unfoldable pub slip_or : ℤ → ℕ → Json → ℕ → Result (DynamicRoutingSlip Json × ℕ)
    slip_or drawn fuel j call = elim (find_member j (codes "dynamic_routing_slip")) [
      | none ↦ ok (slip (new_meta none none drawn) no_more no_current, call)
      | some v ↦ slip_from_json lib source (route_from_json lib source fuel) v call
    ]

    -- The constructor draws an id and a slip, whatever the text has.
    unfoldable pub envelope_from_json : ℕ → Json → ℕ → Result (EnvelopeData Json × ℕ)
    unfolding value_or
    envelope_from_json fuel j call = do
      id_in ← optional lib get_string j (codes "id")
      (drawn, call1) ← random_uuid_like source call
      (drawn_long, call2) ← next_long source call1
      (slip', call3) ← slip_or drawn_long fuel j call2
      (route', call4) ←
          read_current lib source (route_from_json lib source fuel) (find_member j (codes "route"))
            call3
      markers' ← or_default lib (read_strings lib) j (codes "markers") []
      did' ← or_default lib (did_from_json lib) j (codes "did") (default_did lib)
      client' ← optional lib get_string j (codes "client")
      reply' ← value lib get_bool j (codes "reply_to_client") false
      reply_action' ← optional lib get_string j (codes "client_reply_action")
      url' ← optional lib get_string j (codes "url")
      (multipart', call5) ←
          optional_drawn (multipart_from_json lib source) j (codes "multipart") call4
      action' ← optional lib read_action j (codes "action")
      command_path' ← optional lib get_string j (codes "command_path")
      headers' ← or_default lib ok j (codes "headers") (of_object [])
      (message', last) ← optional_drawn (message_from_json lib source) j (codes "message") call5
      sensitivity' ← value lib get_int j (codes "sensitivity") (pos 1)
      delayed' ← value lib get_bool j (codes "delayed") false
      min_delay' ← value lib get_int j (codes "min_delay") (pos 0)
      max_delay' ← value lib get_int j (codes "max_delay") (pos 0)
      copy' ← value lib get_bool j (codes "copy") false
      max_copies' ← value lib get_int j (codes "max_copies") (pos 0)
      min_copies' ← value lib get_int j (codes "min_copies") (pos 0)
      level' ← or_default lib read_level j (codes "service_level") ServiceLevel.at_least_once
      ok (
        record {
          routing = record {
            id = value_or id_in drawn;
            dynamic_routing_slip = slip';
            route = route';
            markers = markers';
          };
          did = did';
          client = client';
          reply_to_client = reply';
          client_reply_action = reply_action';
          url = url';
          multipart = multipart';
          action = action';
          command_path = command_path';
          headers = headers';
          message = message';
          sensitivity = sensitivity';
          delayed = delayed';
          min_delay = min_delay';
          max_delay = max_delay';
          copy = copy';
          max_copies = max_copies';
          min_copies = min_copies';
          service_level = level';
        },
        last,
      )
