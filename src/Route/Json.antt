-- ===== src/Route/Json.antt =====
-- ToJson of the four kinds of route and of RouteMeta, and RouteMeta::FromJson.
pub mod Read
pub mod Types
pub mod External
pub mod RoundTrip
use ra_common_cpp.Base.{
  ℕ, zero, Bool, true, false, List, [], ◌∷◌, Option, none, some, Bytes, codes, list_eq,
  if◌then◌else◌, Result, ok, ◌>>=◌,
}
use ra_common_cpp.Std.Numbers.{ℤ, pos, signed_to_string, stoll}
use ra_common_cpp.Std.Json.{JsonLibrary}
use ra_common_cpp.Std.Json.Fields.{Fields, written, present, at, optional, or_default, value}
use ra_common_cpp.Network.{NetworkPeer}
use ra_common_cpp.Network.Json.{peer_to_json, peer_from_json}
use ra_common_cpp.Route.{
  RouteMeta, SimpleExternalRoute, RelayedExternalRoute, Route, DynamicRoutingSlip, Routes, Current,
  simple, routing_slip, simple_external, relayed_external, slip, no_more, front, no_current,
  current,
}

-- Type()
unfoldable pub route_type : {Json : Type 0} → Route Json → Bytes
route_type (simple m) = codes "simple"
route_type (routing_slip s) = codes "routing_slip"
route_type (simple_external r) = codes "simple_external"
route_type (relayed_external r) = codes "relayed_external"

module _ {Json : Type 0} (lib : JsonLibrary Json) where
  open lib use {of_bool, of_int, of_string, of_array, of_object, get_bool, get_int, get_string}

  abbrev pub meta_fields : RouteMeta → Fields Json
  meta_fields m =
      (codes "service", written of_string m.service)
      ∷ (codes "operation", written of_string m.operation)
      ∷ (codes "routed", some (of_bool m.routed))
      ∷ (codes "route_id", some (of_string (signed_to_string m.route_id)))
      ∷ []

  unfoldable pub meta_to_json : RouteMeta → Json
  meta_to_json m = of_object (present (meta_fields m))

  unfoldable pub read_id : Json → Result ℤ
  read_id j = do text ← get_string j; stoll text

  unfoldable pub meta_from_json : Json → Result RouteMeta
  meta_from_json j = do
    service' ← optional lib get_string j (codes "service")
    operation' ← optional lib get_string j (codes "operation")
    routed' ← value lib get_bool j (codes "routed") false
    id' ← or_default lib read_id j (codes "route_id") (pos 0)
    ok (record { service = service'; operation = operation'; routed = routed'; route_id = id' })

  abbrev pub external_fields : SimpleExternalRoute Json → Fields Json
  external_fields r =
      (codes "type", some (of_string (codes "simple_external")))
      ∷ (codes "meta", some (meta_to_json r.meta))
      ∷ (codes "origination", written (peer_to_json lib) r.origination)
      ∷ (codes "destination", written (peer_to_json lib) r.destination)
      ∷ (codes "send_content_only", some (of_bool r.send_content_only))
      ∷ (codes "status_code", some (of_int r.status_code))
      ∷ []

  unfoldable pub external_to_json : SimpleExternalRoute Json → Json
  external_to_json r = of_object (present (external_fields r))

  abbrev pub relayed_fields : RelayedExternalRoute Json → Fields Json
  relayed_fields r =
      (codes "type", some (of_string (codes "relayed_external")))
      ∷ (codes "base", some (external_to_json r.base))
      ∷ (codes "from_peer", written (peer_to_json lib) r.from_peer)
      ∷ (codes "to_peer", written (peer_to_json lib) r.to_peer)
      ∷ (codes "delayed", some (of_bool r.delayed))
      ∷ (codes "min_delay", some (of_int r.min_delay))
      ∷ (codes "max_delay", some (of_int r.max_delay))
      ∷ (codes "copy", some (of_bool r.copy))
      ∷ (codes "min_copies", some (of_int r.min_copies))
      ∷ (codes "max_copies", some (of_int r.max_copies))
      ∷ (codes "sensitivity", some (of_int r.sensitivity))
      ∷ []

  unfoldable pub relayed_to_json : RelayedExternalRoute Json → Json
  relayed_to_json r = of_object (present (relayed_fields r))

  abbrev pub simple_fields : RouteMeta → Fields Json
  simple_fields m =
      (codes "type", some (of_string (codes "simple"))) ∷ (codes "meta", some (meta_to_json m)) ∷ []

  abbrev pub slip_fields : RouteMeta → List Json → Option Json → Fields Json
  slip_fields m routes c =
      (codes "type", some (of_string (codes "routing_slip")))
      ∷ (codes "meta", some (meta_to_json m))
      ∷ (codes "routes", some (of_array routes))
      ∷ (codes "current_route", c)
      ∷ []

  unfoldable mutual
    pub route_to_json : Route Json → Json
    route_to_json (simple m) = of_object (present (simple_fields m))
    route_to_json (routing_slip s) = slip_to_json s
    route_to_json (simple_external r) = external_to_json r
    route_to_json (relayed_external r) = relayed_to_json r

    pub slip_to_json : DynamicRoutingSlip Json → Json
    slip_to_json (slip m routes c) =
        of_object (present (slip_fields m (routes_to_json routes) (current_to_json c)))

    pub routes_to_json : Routes Json → List Json
    routes_to_json no_more = []
    routes_to_json (front r routes) = route_to_json r ∷ routes_to_json routes

    pub current_to_json : Current Json → Option Json
    current_to_json no_current = none
    current_to_json (current r) = some (route_to_json r)
