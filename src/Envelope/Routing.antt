-- ===== src/Envelope/Routing.antt =====
-- How an envelope goes along its routing slip, and which markers it bears.
use ra_common_cpp.Base.{
  ℕ, ap₂, zero, suc, ◌≡◌, refl, ap, ◌∙◌, ◌||◌, List, [], ◌∷◌, ◌++◌, map, Bytes, list_eq, arith,
}
use mathlib.Core.List.{reverse}
use ra_common_cpp.Route.{
  Route, DynamicRoutingSlip, Current, slip, no_more, front, no_current, current, clone,
  clone_current, set_route_id,
}
use ra_common_cpp.Route.Clone.{clone_lem}
use ra_common_cpp.Route.Slip.{next_route, current_route, number_remaining_routes, slip_id}
use ra_common_cpp.Route.Stack.{itinerary, add_all, itinerary-add_all}
use ra_common_cpp.Envelope.{
  Envelope, EnvelopeAction, action_to_string, action_from_string, get_route, ratchet,
  marker_present, mark,
}

pub action_from_string-to_string :
    (x : EnvelopeAction) → action_from_string (action_to_string x) ≡ x
unfolding action_from_string action_to_string list_eq
action_from_string-to_string EnvelopeAction.post = refl
action_from_string-to_string EnvelopeAction.put = refl
action_from_string-to_string EnvelopeAction.delete = refl
action_from_string-to_string EnvelopeAction.get = refl

marker_present-append :
    (m : Bytes) (xs ys : List Bytes)
    → marker_present m (xs ++ ys) ≡ (marker_present m xs || marker_present m ys)
unfolding marker_present
marker_present-append m [] ys = refl
marker_present-append m (x ∷ xs) ys = ground (arith, marker_present-append m xs ys)

module _ {Json : Type 0} where
  clone_current_lem : (c : Current Json) → clone_current c ≡ c
  unfolding clone
  clone_current_lem no_current = refl
  clone_current_lem (current r) = ap current (clone_lem r)

  -- What GetRoute returns after each of at most `fuel` calls of Ratchet, up to the first nullptr.
  abbrev pub visited : ℕ → Envelope Json → List (Route Json)
  visited zero e = []
  visited (suc fuel) e =
      let rest = visited fuel (ratchet e) in
      elim ((get_route (ratchet e)).1) [ no_current ↦ [] | current r ↦ r ∷ rest ]

  visited_from :
      (fuel : ℕ) (id : Bytes) (s : DynamicRoutingSlip Json) (now : Current Json)
      (markers : List Bytes)
      → visited fuel (record { id = id; dynamic_routing_slip = s; route = now; markers = markers })
        ≡ itinerary fuel s
  unfolding ratchet get_route next_route current_route clone
  visited_from zero id s now markers = refl
  visited_from (suc fuel) id (slip m no_more c) now markers = refl
  visited_from (suc fuel) id (slip m (front r rest) c) now markers =
      ap₂ ◌∷◌ (clone_lem r)
        (visited_from fuel id (slip m rest (current r)) (current (clone r)) markers)

  -- An envelope goes through the routes of its slip in the order of the slip, whatever its route was.
  pub visited-itinerary :
      (fuel : ℕ) (e : Envelope Json) → visited fuel e ≡ itinerary fuel e.dynamic_routing_slip
  visited-itinerary fuel e = visited_from fuel e.id e.dynamic_routing_slip e.route e.markers

  -- After any routes were added to the slip of an envelope, Ratchet and GetRoute take it through
  -- them last in, first out, each stamped with the id of the slip, and then through the routes
  -- that were there.
  pub visited-add_all :
      (rs : List (Route Json)) (e : Envelope Json)
      → let slip' = add_all rs e.dynamic_routing_slip in
        visited (number_remaining_routes slip') (record e { dynamic_routing_slip = slip' })
        ≡ reverse (map (set_route_id (slip_id e.dynamic_routing_slip)) rs)
          ++ itinerary (number_remaining_routes e.dynamic_routing_slip) e.dynamic_routing_slip
  visited-add_all rs e =
      visited-itinerary (number_remaining_routes (add_all rs e.dynamic_routing_slip))
        (record e { dynamic_routing_slip = add_all rs e.dynamic_routing_slip })
      ∙ itinerary-add_all rs e.dynamic_routing_slip

  resolve_twice :
      (id : Bytes) (s : DynamicRoutingSlip Json) (now : Current Json) (markers : List Bytes)
      → let e : Envelope Json = record {
        id = id;
        dynamic_routing_slip = s;
        route = now;
        markers = markers;
      } in
        get_route (get_route e).0 ≡ get_route e
  unfolding get_route current_route next_route clone
  resolve_twice id s (current r) markers = refl
  resolve_twice id (slip m more (current r)) no_current markers = refl
  resolve_twice id (slip m no_more no_current) no_current markers = refl
  resolve_twice id (slip m (front r rest) no_current) no_current markers = refl

  -- A second GetRoute returns what the first returned and leaves the envelope as the first left
  -- it.
  pub get_route_twice : (e : Envelope Json) → get_route (get_route e).0 ≡ get_route e
  get_route_twice e = resolve_twice e.id e.dynamic_routing_slip e.route e.markers

  -- After Mark an envelope bears the new marker and exactly the markers that it bore before.
  pub mark-marker_present :
      (m n : Bytes) (e : Envelope Json)
      → marker_present m (mark n e).markers ≡ (marker_present m e.markers || list_eq n m)
  unfolding mark
  mark-marker_present m n e =
      marker_present-append m e.markers (n ∷ []) ∙ unfold marker_present in ground (arith)
