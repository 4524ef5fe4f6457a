-- ===== src/Envelope.antt =====
-- include/ra_common/envelope.hpp: the identity, routing and markers of an envelope, over the type
-- `Json` of attribute values. The record has the fields that these operations use; Envelope/Json has
-- the others.
pub mod Json
pub mod Payload
pub mod Routing
pub mod Headers
pub mod Exceptions
pub mod Make
use ra_common_cpp.Base.{
  ℕ, Bool, true, false, ◌||◌, List, [], ◌∷◌, ◌++◌, Bytes, codes, list_eq, if◌then◌else◌,
}
use ra_common_cpp.Std.Numbers.{ℤ}
use ra_common_cpp.Route.{
  Route, DynamicRoutingSlip, Current, no_current, current, clone, clone_current, simple_of,
  simple_external_of,
}
use ra_common_cpp.Route.Slip.{add_route, next_route, current_route}

pub data EnvelopeAction : Type 0 where
  post put delete get : EnvelopeAction

unfoldable pub action_to_string : EnvelopeAction → Bytes
action_to_string EnvelopeAction.post = codes "Post"
action_to_string EnvelopeAction.put = codes "Put"
action_to_string EnvelopeAction.delete = codes "Delete"
action_to_string EnvelopeAction.get = codes "Get"

unfoldable pub action_from_string : Bytes → EnvelopeAction
action_from_string s =
    if list_eq s (codes "Put")
    then EnvelopeAction.put
    else if list_eq s (codes "Delete")
    then EnvelopeAction.delete
    else if list_eq s (codes "Get")
    then EnvelopeAction.get
    else EnvelopeAction.post

pub record Envelope (Json : Type 0) : Type 0 where
  pub id : Bytes
  pub dynamic_routing_slip : DynamicRoutingSlip Json
  pub route : Current Json
  pub markers : List Bytes

unfoldable pub marker_present : Bytes → List Bytes → Bool
marker_present marker [] = false
marker_present marker (m ∷ ms) = list_eq m marker || marker_present marker ms

module _ {Json : Type 0} where
  -- GetRoute, with the route that it returns.
  unfoldable pub get_route : Envelope Json → Envelope Json × Current Json
  get_route e = elim e.route [
    | current r ↦ (e, current r)
    | no_current ↦
        let (after, now) = current_route e.dynamic_routing_slip in
        (record e { dynamic_routing_slip = after; route = clone_current now }, clone_current now)
  ]

  unfoldable pub ratchet : Envelope Json → Envelope Json
  ratchet e =
      let (after, next) = next_route e.dynamic_routing_slip in
      record e { dynamic_routing_slip = after; route = clone_current next }

  -- AddRoute and AddExternalRoute; the last argument but one is what NextLong returned.
  unfoldable pub add_service_route : Bytes → Bytes → ℤ → Envelope Json → Envelope Json
  add_service_route service operation drawn e = record e {
    dynamic_routing_slip = add_route (simple_of service operation drawn) e.dynamic_routing_slip;
  }

  unfoldable pub add_external_route : Bytes → Bytes → ℤ → Envelope Json → Envelope Json
  add_external_route service operation drawn e = record e {
    dynamic_routing_slip =
        add_route (simple_external_of service operation drawn) e.dynamic_routing_slip;
  }

  unfoldable pub mark : Bytes → Envelope Json → Envelope Json
  mark marker e = record e { markers = e.markers ++ marker ∷ [] }

  unfoldable pub envelope_equals : Envelope Json → Envelope Json → Bool
  envelope_equals e other = list_eq e.id other.id
