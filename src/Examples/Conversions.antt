-- ===== src/Examples/Conversions.antt =====
-- The conversions at concrete values of the JSON library in Examples/Json.
use ra_common_cpp.Base.{ℕ, ◌≡◌, refl, true, false, [], ◌∷◌, none, some, codes, list_eq, ok, arith}
use ra_common_cpp.Std.Numbers.{ℤ, pos, negsuc}
use ra_common_cpp.Std.Json.{less, lookup}
use ra_common_cpp.Std.Json.Fields.{at}
use ra_common_cpp.Examples.Json.{
  Tree, trees, object_tree, member, string_tree, int_tree, end_of_object,
}
use ra_common_cpp.Examples.Crypto.{zeros, zeros_NeverFails}
use ra_common_cpp.Util.Random.{next_long}
use ra_common_cpp.Std.Entropy.{random_bytes_of}
use ra_common_cpp.Crypto.HashAlgorithm.{HashAlgorithm}
use ra_common_cpp.Identity.{Signature, Did, DidStatus, DidType}
use ra_common_cpp.Network.{Network, NetworkPeer}
use ra_common_cpp.Network.Json.{IsDid}
use ra_common_cpp.Route.{
  RouteMeta, new_meta, Route, DynamicRoutingSlip, simple, routing_slip, simple_external, slip,
  front, no_more, no_current, current,
}
use ra_common_cpp.Route.Json.{route_to_json, route_type}
use ra_common_cpp.Route.Json.Read.{meta_or_new, route_of_type, route_from_json}
use ra_common_cpp.Route.Json.RoundTrip.{route_from_json-to_json}
use ra_common_cpp.Route.Json.Types.{route_from_json-route_type, is_route_type}
use ra_common_cpp.Messaging.{
  Command, Message, command, text_body, message_to_json, message_from_json,
}
use ra_common_cpp.Messaging.RoundTrip.{message_from_json-to_json}
use ra_common_cpp.Service.{ServiceLevel}
use ra_common_cpp.Envelope.{EnvelopeAction}
use ra_common_cpp.Envelope.Json.{EnvelopeData, envelope_to_json, envelope_from_json}
use ra_common_cpp.Envelope.Json.RoundTrip.{envelope_from_json-to_json, emptied}

abbrev pub bob : Signature
bob = record {
  value_signed = some (codes "v");
  algorithm = none;
  signed_date = none;
  signed_by_username = none;
  signed_by_fingerprint = none;
  signed_by_address = some (codes "bob");
}

abbrev pub alice : Did Tree
alice = record {
  username = codes "alice";
  passphrase = some (codes "secret");
  passphrase2 = none;
  passphrase_hash = some (record { hash_value = codes "h"; algorithm = HashAlgorithm.sha512 });
  passphrase_hash_algorithm = HashAlgorithm.sha256;
  description = [];
  status = DidStatus.active;
  did_type = DidType.node;
  verified = true;
  authenticated = false;
  public_key = record {
    alias = none;
    fingerprint_value = some (codes "f");
    address_value = some (codes "a");
    key_type = none;
    is_identity_key = true;
    is_encryption_key = false;
    is_base64_encoded = false;
    is_base58_encoded = false;
    is_pem = false;
    is_hex = true;
    attributes = object_tree (member (codes "k") (int_tree (negsuc 2)) end_of_object);
    signed_attributes = (codes "mail", bob ∷ bob ∷ []) ∷ (codes "name", []) ∷ [];
  };
}

alice-IsDid : IsDid trees alice
unfolding less
alice-IsDid = ((λ e. cc), (refl, tt))

abbrev node : NetworkPeer Tree
node = record {
  network_value = Network.tor;
  did = alice;
  id = some (codes "n");
  port = some (pos 9050);
  services = codes "s" ∷ [];
}

abbrev hop : ℤ → RouteMeta
hop id = record { service = some (codes "s"); operation = none; routed = true; route_id = id }

-- A slip with an external route, a slip of its own and a current route.
abbrev journey : DynamicRoutingSlip Tree
journey =
    slip (hop (negsuc 41))
      (front
        (simple_external (record {
          meta = hop (pos 7);
          origination = none;
          destination = some node;
          send_content_only = true;
          status_code = negsuc 0;
        }))
        (front (routing_slip (slip (hop (pos 0)) no_more no_current)) no_more))
      (current (simple (hop (pos 5))))

route_from_json-to_json_example :
    route_from_json trees zeros 9 (route_to_json trees (routing_slip journey)) 0
    ≡ ok (routing_slip journey, 0)
route_from_json-to_json_example =
    route_from_json-to_json trees zeros (routing_slip journey) 9 0
      (
        omega arith,
        (((omega arith, (tt, alice-IsDid)), ((omega arith, (tt, tt)), tt)), omega arith),
      )
      (omega arith)

abbrev plain : Tree
plain = object_tree (member (codes "type") (string_tree (codes "simple")) end_of_object)

abbrev plain_route : Route Tree
plain_route = simple (record { service = none; operation = none; routed = false; route_id = pos 0 })

-- A route without a meta draws an id.
plain_read : route_from_json trees zeros 1 plain 0 ≡ ok (plain_route, 1)
unfolding route_from_json at lookup list_eq route_of_type meta_or_new new_meta next_long
    random_bytes_of
plain_read = refl

route_from_json-route_type_example :
    at trees trees.get_string plain (codes "type") ≡ ok (route_type plain_route)
route_from_json-route_type_example =
    route_from_json-route_type trees zeros 1 plain 0 (plain_route, 1) plain_read

abbrev odd : Tree
odd = object_tree (
    member (codes "type") (string_tree (codes "loop"))
      (member (codes "kind") (string_tree (codes "song")) end_of_object))

odd_type : at trees trees.get_string odd (codes "type") ≡ ok (codes "loop")
unfolding at lookup list_eq
odd_type = refl

loop_is_no_type : is_route_type (codes "loop") ≡ false
unfolding list_eq
loop_is_no_type = refl

abbrev greeting : Message Tree
greeting = record {
  body = text_body (record { to = some alice; from = none; text = some (codes "hi") });
  error_messages = codes "late" ∷ [];
}

abbrev order : Message Tree
order = record { body = command (some Command.pause); error_messages = [] }

order_read :
    (next : ℕ) × (message_from_json trees zeros (message_to_json trees order) 7 ≡ ok (order, next))
order_read = message_from_json-to_json trees zeros order 7 zeros_NeverFails tt

abbrev pub parcel : EnvelopeData Tree
parcel = record {
  routing = record {
    id = codes "id";
    dynamic_routing_slip =
        slip (hop (negsuc 41))
          (front (routing_slip (slip (hop (pos 0)) no_more no_current)) no_more) no_current;
    route = current (simple (hop (pos 5)));
    markers = codes "m" ∷ [];
  };
  did = alice;
  client = some (codes "c");
  reply_to_client = true;
  client_reply_action = none;
  url = some (codes "u");
  multipart = some (record { boundary = codes "b"; charset = none; body_text = codes "lost" });
  action = some EnvelopeAction.put;
  command_path = none;
  headers = object_tree end_of_object;
  message = some greeting;
  sensitivity = pos 3;
  delayed = false;
  min_delay = pos 0;
  max_delay = pos 10;
  copy = true;
  max_copies = pos 2;
  min_copies = pos 1;
  service_level = ServiceLevel.exactly_once;
}

envelope_from_json-to_json_example :
    (last : ℕ) × (envelope_from_json trees zeros 5 (envelope_to_json trees parcel) 0
      ≡ ok (record parcel { multipart = emptied parcel.multipart }, last))
envelope_from_json-to_json_example =
    envelope_from_json-to_json trees zeros parcel 5 0 zeros_NeverFails
      (
        (omega arith, ((((omega arith), (tt, tt)), tt), tt)),
        (omega arith, (alice-IsDid, (alice-IsDid, tt))),
      )
      (omega arith) (omega arith)
