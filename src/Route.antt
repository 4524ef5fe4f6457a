-- ===== src/Route.antt =====
-- include/ra_common/route: the four kinds of route and the routing slip, over the type `Json` of
-- attribute values. A std::unique_ptr owns its route, so a moved or cloned route is a value.
pub mod Json
pub mod Slip
pub mod Clone
pub mod Stack
use ra_common_cpp.Base.{ℕ, zero, suc, Bool, true, false, Option, none, some, Bytes}
use ra_common_cpp.Std.Numbers.{ℤ, pos}
use ra_common_cpp.Network.{NetworkPeer}

pub record RouteMeta : Type 0 where
  pub service : Option Bytes
  pub operation : Option Bytes
  pub routed : Bool
  pub route_id : ℤ

-- RouteMeta::New; the last argument is what NextLong returned.
unfoldable pub new_meta : Option Bytes → Option Bytes → ℤ → RouteMeta
new_meta service operation id = record {
  service = service;
  operation = operation;
  routed = false;
  route_id = id;
}

pub record SimpleExternalRoute (Json : Type 0) : Type 0 where
  pub meta : RouteMeta
  pub origination : Option (NetworkPeer Json)
  pub destination : Option (NetworkPeer Json)
  pub send_content_only : Bool
  pub status_code : ℤ

pub record RelayedExternalRoute (Json : Type 0) : Type 0 where
  pub base : SimpleExternalRoute Json
  pub from_peer : Option (NetworkPeer Json)
  pub to_peer : Option (NetworkPeer Json)
  pub delayed : Bool
  pub min_delay : ℤ
  pub max_delay : ℤ
  pub copy : Bool
  pub min_copies : ℤ
  pub max_copies : ℤ
  pub sensitivity : ℤ

-- A slip is itself a route. `Routes` is its deque, front first, and `Current` its `current_`.
mutual
  pub data Route (Json : Type 0) : Type 0 where
    simple : RouteMeta → Route Json
    routing_slip : DynamicRoutingSlip Json → Route Json
    simple_external : SimpleExternalRoute Json → Route Json
    relayed_external : RelayedExternalRoute Json → Route Json

  pub data DynamicRoutingSlip (Json : Type 0) : Type 0 where
    slip : RouteMeta → Routes Json → Current Json → DynamicRoutingSlip Json

  pub data Routes (Json : Type 0) : Type 0 where
    no_more : Routes Json
    front : Route Json → Routes Json → Routes Json

  pub data Current (Json : Type 0) : Type 0 where
    no_current : Current Json
    current : Route Json → Current Json

-- Meta()
unfoldable pub meta_of : {Json : Type 0} → Route Json → RouteMeta
meta_of (simple m) = m
meta_of (routing_slip (slip m routes c)) = m
meta_of (simple_external r) = r.meta
meta_of (relayed_external r) = r.base.meta

unfoldable pub route_id_of : {Json : Type 0} → Route Json → ℤ
unfolding meta_of
route_id_of r = (meta_of r).route_id

unfoldable pub set_route_id : {Json : Type 0} → ℤ → Route Json → Route Json
set_route_id id (simple m) = simple (record m { route_id = id })
set_route_id id (routing_slip (slip m routes c)) =
    routing_slip (slip (record m { route_id = id }) routes c)
set_route_id id (simple_external r) =
    simple_external (record r { meta = record r.meta { route_id = id } })
set_route_id id (relayed_external r) =
    relayed_external
      (record r { base = record r.base { meta = record r.base.meta { route_id = id } } })

-- SimpleRoute::Of and SimpleExternalRoute::Of
unfoldable pub simple_of : {Json : Type 0} → Bytes → Bytes → ℤ → Route Json
unfolding new_meta
simple_of service operation id = simple (new_meta (some service) (some operation) id)

unfoldable pub simple_external_of : {Json : Type 0} → Bytes → Bytes → ℤ → Route Json
unfolding new_meta
simple_external_of service operation id = simple_external (record {
  meta = new_meta (some service) (some operation) id;
  origination = none;
  destination = none;
  send_content_only = true;
  status_code = pos 0;
})

-- Clone: the default member-wise copy, and for a slip the copy of every route that it owns.
unfoldable mutual
  pub clone : {Json : Type 0} → Route Json → Route Json
  clone (simple m) = simple m
  clone (routing_slip s) = routing_slip (clone_slip s)
  clone (simple_external r) = simple_external r
  clone (relayed_external r) = relayed_external r

  pub clone_slip : {Json : Type 0} → DynamicRoutingSlip Json → DynamicRoutingSlip Json
  clone_slip (slip m routes c) = slip m (clone_routes routes) (clone_current c)

  pub clone_routes : {Json : Type 0} → Routes Json → Routes Json
  clone_routes no_more = no_more
  clone_routes (front r routes) = front (clone r) (clone_routes routes)

  pub clone_current : {Json : Type 0} → Current Json → Current Json
  clone_current no_current = no_current
  clone_current (current r) = current (clone r)
