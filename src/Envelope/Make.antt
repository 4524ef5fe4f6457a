-- ===== src/Envelope/Make.antt =====
-- The constructor of class Envelope and the functions Command, Document, DocumentWithId, HeadersOnly, Event
-- and Text. RandomUuidLike is called for an id that is given too, and the slip's meta draws a NextLong; the
-- results have the number of the next call of getentropy.
pub mod Made
use ra_common_cpp.Base.{ℕ, false, [], ◌∷◌, Option, none, some, Bytes, Result, ok, ◌>>=◌}
use ra_common_cpp.Std.Numbers.{ℤ, pos}
use ra_common_cpp.Std.Json.{JsonLibrary}
use ra_common_cpp.Std.Entropy.{Source}
use ra_common_cpp.Util.Random.{value_or, random_uuid_like, next_long}
use ra_common_cpp.Identity.Json.{default_did}
use ra_common_cpp.Route.{slip, no_more, no_current, new_meta}
use ra_common_cpp.Messaging.{Message, document, command, event, text_body}
use ra_common_cpp.Service.{ServiceLevel}
use ra_common_cpp.Envelope.Json.{EnvelopeData}

module _ {Json : Type 0} (lib : JsonLibrary Json) where
  open lib use {null, of_object}

  abbrev pub fresh_envelope : Bytes → ℤ → Option (Message Json) → EnvelopeData Json
  fresh_envelope id route_id message = record {
    routing = record {
      id = id;
      dynamic_routing_slip = slip (new_meta none none route_id) no_more no_current;
      route = no_current;
      markers = [];
    };
    did = default_did lib;
    client = none;
    reply_to_client = false;
    client_reply_action = none;
    url = none;
    multipart = none;
    action = none;
    command_path = none;
    headers = of_object [];
    message = message;
    sensitivity = pos 1;
    delayed = false;
    min_delay = pos 0;
    max_delay = pos 0;
    copy = false;
    max_copies = pos 0;
    min_copies = pos 0;
    service_level = ServiceLevel.at_least_once;
  }

  module _ (source : Source) where
    unfoldable pub new_envelope :
        ℕ → Option Bytes → Option (Message Json) → Result (EnvelopeData Json × ℕ)
    unfolding value_or random_uuid_like next_long
    new_envelope call id_in message = do
      (drawn, call') ← random_uuid_like source call
      (route_id, call'') ← next_long source call'
      ok (fresh_envelope (value_or id_in drawn) route_id message, call'')

    unfoldable pub command_envelope : ℕ → Result (EnvelopeData Json × ℕ)
    unfolding new_envelope
    command_envelope call =
        new_envelope call none (some (record { body = command none; error_messages = [] }))

    -- A document has one empty object.
    unfoldable pub document_envelope : ℕ → Option Bytes → Result (EnvelopeData Json × ℕ)
    unfolding new_envelope
    document_envelope call id_in =
        new_envelope call id_in
          (some (record { body = document (of_object [] ∷ []); error_messages = [] }))

    unfoldable pub headers_only : ℕ → Result (EnvelopeData Json × ℕ)
    unfolding new_envelope
    headers_only call = new_envelope call none none

    -- EventMessage::Of draws its own id first.
    unfoldable pub event_envelope : ℕ → Bytes → Result (EnvelopeData Json × ℕ)
    unfolding new_envelope random_uuid_like
    event_envelope call event_type = do
      (event_id, call') ← random_uuid_like source call
      new_envelope call' none (
          some (record {
            body = event (record {
              event_id = event_id;
              event_type = event_type;
              name = none;
              message_value = null;
            });
            error_messages = [];
          }))

    unfoldable pub text_envelope : ℕ → Result (EnvelopeData Json × ℕ)
    unfolding new_envelope
    text_envelope call = new_envelope call none (
        some (record {
          body = text_body (record { to = none; from = none; text = none });
          error_messages = [];
        }))
