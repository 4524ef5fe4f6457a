-- ===== src/Examples/Dispatch.antt =====
-- An envelope's payload and the dispatch of one to a service.
use ra_common_cpp.Base.{◌≡◌, refl, true, false, [], ◌∷◌, none, some, Bytes, codes, list_eq, ok}
use ra_common_cpp.Std.Numbers.{pos}
use ra_common_cpp.Messaging.{Command, command, document}
use ra_common_cpp.Service.{ServiceStatus, ServiceCore}
use ra_common_cpp.Service.Dispatch.{Handlers, handle}
use ra_common_cpp.Service.Reports.{Reports, handle-Reports}
use ra_common_cpp.Envelope.Json.{EnvelopeData}
use ra_common_cpp.Envelope.Payload.{doc_values, primary, header}
use ra_common_cpp.Examples.Json.{Tree, trees, object_tree, member, int_tree, end_of_object}
use ra_common_cpp.Examples.Conversions.{parcel}

abbrev letter : EnvelopeData Tree
letter = record parcel {
  message = some (record {
    body = document (object_tree (member (codes "k") (int_tree (pos 1)) end_of_object) ∷ []);
    error_messages = [];
  });
}

letter_doc :
    doc_values trees letter.message
    ≡ some (object_tree (member (codes "k") (int_tree (pos 1)) end_of_object) ∷ [])
unfolding doc_values
letter_doc = refl

letter_object :
    trees.is_object
      (primary trees (object_tree (member (codes "k") (int_tree (pos 1)) end_of_object) ∷ []))
    ≡ true
unfolding primary
letter_object = refl

abbrev running_core : ServiceCore
running_core = record {
  service_class_name = codes "S";
  registered = true;
  version = none;
  services_dependent_upon = codes "T" ∷ [];
  config = [];
  has_producer = false;
  has_observer = false;
  status = ServiceStatus.running;
}

-- A service that does nothing.
abbrev idle : Handlers Tree ServiceCore
idle = record {
  core = λ s. s;
  start = λ config s. s;
  pause = λ s. s;
  unpause = λ s. s;
  restart = λ s. s;
  shutdown = λ s. s;
  graceful_shutdown = λ s. s;
  handle_document = λ e s. (e, s);
  handle_event = λ e s. (e, s);
  handle_headers = λ e s. (e, s);
}

abbrev inquiry : EnvelopeData Tree
inquiry = record parcel {
  message = some (record { body = command (some Command.report); error_messages = [] });
}

handle-Reports_example :
    (e' : EnvelopeData Tree) × (handle trees idle inquiry running_core ≡ ok (e', running_core))
    × Reports trees running_core (header trees (codes "result") e')
    × ((name : Bytes)
        → list_eq (codes "result") name ≡ false
        → header trees name e' ≡ header trees name inquiry)
handle-Reports_example = handle-Reports trees idle inquiry running_core [] refl refl
