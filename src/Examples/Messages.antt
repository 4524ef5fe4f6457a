-- ===== src/Examples/Messages.antt =====
-- Runs of routes, envelopes, identities and peers, and their theorems at concrete inputs.
use ra_common_cpp.Base.{◌≡◌, refl, true, false, List, [], ◌∷◌, ◌++◌, map, none, some, Bytes, codes}
use mathlib.Core.List.{reverse}
use ra_common_cpp.Std.Numbers.{pos}
use ra_common_cpp.Crypto.HashAlgorithm.{HashAlgorithm}
use ra_common_cpp.Identity.{Signature, PublicKey, DidStatus, DidType}
use ra_common_cpp.Network.{Network, NetworkPeer}
use ra_common_cpp.Route.{
  Route, Current, DynamicRoutingSlip, slip, no_more, no_current, clone, simple_of,
  simple_external_of, set_route_id,
}
use ra_common_cpp.Route.Slip.{
  add_route, next_route, current_route, number_remaining_routes, slip_id,
}
use ra_common_cpp.Route.Stack.{itinerary, add_all, IsStamped, slip-IsStamped}
use ra_common_cpp.Envelope.{Envelope, get_route, ratchet, add_service_route}
use ra_common_cpp.Envelope.Routing.{visited, visited-add_all}

abbrev bob : Signature
bob = record {
  value_signed = none;
  algorithm = none;
  signed_date = none;
  signed_by_username = none;
  signed_by_fingerprint = none;
  signed_by_address = some (codes "bob");
}

abbrev key_at : Bytes → PublicKey Bytes
key_at address = record {
  alias = none;
  fingerprint_value = some (codes "f");
  address_value = some address;
  key_type = none;
  is_identity_key = true;
  is_encryption_key = false;
  is_base64_encoded = false;
  is_base58_encoded = false;
  is_pem = false;
  is_hex = false;
  attributes = [];
  signed_attributes = (codes "name", bob ∷ []) ∷ [];
}

abbrev peer_at : Bytes → NetworkPeer Bytes
peer_at address = record {
  network_value = Network.http;
  did = record {
    username = codes "Anon";
    passphrase = none;
    passphrase2 = none;
    passphrase_hash = none;
    passphrase_hash_algorithm = HashAlgorithm.pbkdf2_hmac_sha1;
    description = [];
    status = DidStatus.inactive;
    did_type = DidType.identity;
    verified = false;
    authenticated = false;
    public_key = key_at address;
  };
  id = none;
  port = none;
  services = [];
}

abbrev empty_slip : DynamicRoutingSlip Bytes
empty_slip =
    slip (record { service = none; operation = none; routed = false; route_id = pos 9 }) no_more
      no_current

abbrev stops : List (Route Bytes)
stops =
    simple_of (codes "a") (codes "op") (pos 1)
    ∷ simple_external_of (codes "b") (codes "op") (pos 2)
    ∷ []

abbrev letter : Envelope Bytes
letter = record {
  id = codes "id";
  dynamic_routing_slip = empty_slip;
  route = no_current;
  markers = codes "sent" ∷ [];
}

-- Two routes added: the second is gone to first.
letter_goes :
    (get_route (
      ratchet (
        add_service_route
          (codes "b")
          (codes "op")
          (pos 2)
          (add_service_route (codes "a") (codes "op") (pos 1) letter)))).1
    ≡ Current.current (simple_of (codes "b") (codes "op") (pos 9))
unfolding get_route ratchet add_service_route add_route next_route clone set_route_id simple_of
letter_goes = refl

slip-IsStamped_example :
    IsStamped (add_route (simple_of (codes "a") (codes "op") (pos 1)) empty_slip)
    × (IsStamped (next_route empty_slip).0 × IsStamped (current_route empty_slip).0)
slip-IsStamped_example =
    slip-IsStamped (simple_of (codes "a") (codes "op") (pos 1)) empty_slip (tt, tt)

visited-add_all_example :
    visited
      (number_remaining_routes (add_all stops empty_slip))
      (record letter { dynamic_routing_slip = add_all stops empty_slip })
    ≡ reverse (map (set_route_id (slip_id empty_slip)) stops)
      ++ itinerary (number_remaining_routes empty_slip) empty_slip
visited-add_all_example = visited-add_all stops letter
