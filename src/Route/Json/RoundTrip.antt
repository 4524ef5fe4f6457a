-- ===== src/Route/Json/RoundTrip.antt =====
-- What ToJson writes of a route is what RouteFromJson reads, with no call of NextLong.
use ra_common_cpp.Base.{
  ℕ, zero, suc, ◌+◌, ◌≤◌, List, ◌≡◌, refl, ◌∙◌, some, Bytes, codes, list_eq, Result, ok, arith,
}
use ra_common_cpp.Std.Numbers.Decimal.{IsInt64}
use ra_common_cpp.Std.Entropy.{Source}
use ra_common_cpp.Std.Json.{JsonLibrary}
use ra_common_cpp.Std.Json.Fields.{Fields, field, present, find_member-present, at_string}
use ra_common_cpp.Route.{
  RouteMeta, SimpleExternalRoute, RelayedExternalRoute, Route, DynamicRoutingSlip, Routes, Current,
  simple, routing_slip, simple_external, relayed_external, slip, no_more, front, no_current,
  current,
}
use ra_common_cpp.Route.Json.{
  external_fields, external_to_json, relayed_fields, relayed_to_json, simple_fields, slip_fields,
  route_to_json, slip_to_json, routes_to_json, current_to_json,
}
use ra_common_cpp.Route.Json.Read.{
  read_routes, routes_from_json, read_current, current_from_json, slip_from_json, route_of_type,
  route_from_json,
}
use ra_common_cpp.Route.Json.External.{
  IsExternal, IsPeer, read_meta, external_from_json-to_json, relayed_from_json-to_json,
}

module _ {Json : Type 0} (lib : JsonLibrary Json) where
  open lib use {of_string, of_object, of_array, get_string, elements-of}

  abbrev mutual
    -- The routes that the text can hold: a route id is an int64_t, and a peer has an identity that the
    -- text can hold.
    pub IsRoute : Route Json → Type 0
    IsRoute (simple m) = IsInt64 m.route_id
    IsRoute (routing_slip s) = IsSlip s
    IsRoute (simple_external r) = IsExternal lib r
    IsRoute (relayed_external r) =
        IsExternal lib r.base × (IsPeer lib r.from_peer × IsPeer lib r.to_peer)

    pub IsSlip : DynamicRoutingSlip Json → Type 0
    IsSlip (slip m routes c) = IsInt64 m.route_id × (AreRoutes routes × IsCurrent c)

    pub AreRoutes : Routes Json → Type 0
    AreRoutes no_more = Unit
    AreRoutes (front r routes) = IsRoute r × AreRoutes routes

    pub IsCurrent : Current Json → Type 0
    IsCurrent no_current = Unit
    IsCurrent (current r) = IsRoute r

  -- The number of routes, those in slips included.
  abbrev mutual
    pub route_size : Route Json → ℕ
    route_size (simple m) = 1
    route_size (routing_slip s) = suc (slip_size s)
    route_size (simple_external r) = 1
    route_size (relayed_external r) = 1

    pub slip_size : DynamicRoutingSlip Json → ℕ
    slip_size (slip m routes c) = routes_size routes + current_size c

    pub routes_size : Routes Json → ℕ
    routes_size no_more = 0
    routes_size (front r routes) = route_size r + routes_size routes

    pub current_size : Current Json → ℕ
    current_size no_current = 0
    current_size (current r) = route_size r

  route_size-positive : (r : Route Json) → route_size r ≤ 0 → ⊥
  route_size-positive (simple m) enough = omega arith
  route_size-positive (routing_slip s) enough = omega arith
  route_size-positive (simple_external r) enough = omega arith
  route_size-positive (relayed_external r) enough = omega arith

  module _ (source : Source) where
    by_type :
        (fuel : ℕ) (fields : Fields Json) (text : Bytes) (i : ℕ) (result : Result (Route Json × ℕ))
        → field (codes "type") fields ≡ some (of_string text)
        → route_of_type lib source
            (route_from_json lib source fuel)
            text
            (of_object (present fields))
            i
          ≡ result
        → route_from_json lib source (suc fuel) (of_object (present fields)) i ≡ result
    unfolding route_from_json
    by_type fuel fields text i result there gives =
        rw (at_string lib fields (codes "type") text there) gives

    simple_of_type :
        (read : Json → ℕ → Result (Route Json × ℕ)) (m : RouteMeta) (i : ℕ)
        → IsInt64 m.route_id
        → route_of_type lib source read (codes "simple") (route_to_json lib (simple m)) i
          ≡ ok (simple m, i)
    unfolding route_of_type route_to_json list_eq field
    simple_of_type read m i small =
        rw (read_meta lib source (simple_fields lib m) m i refl small) refl

    external_of_type :
        (read : Json → ℕ → Result (Route Json × ℕ)) (r : SimpleExternalRoute Json) (i : ℕ)
        → IsExternal lib r
        → route_of_type lib source read (codes "simple_external") (external_to_json lib r) i
          ≡ ok (simple_external r, i)
    unfolding route_of_type list_eq
    external_of_type read r i keeps = rw (external_from_json-to_json lib source r i keeps) refl

    relayed_of_type :
        (read : Json → ℕ → Result (Route Json × ℕ)) (r : RelayedExternalRoute Json) (i : ℕ)
        → IsExternal lib r.base
        → IsPeer lib r.from_peer
        → IsPeer lib r.to_peer
        → route_of_type lib source read (codes "relayed_external") (relayed_to_json lib r) i
          ≡ ok (relayed_external r, i)
    unfolding route_of_type list_eq
    relayed_of_type read r i keeps from to =
        rw (relayed_from_json-to_json lib source r i keeps from to) refl

    field-current :
        (m : RouteMeta) (routes : List Json) (c : Current Json)
        → field (codes "current_route") (slip_fields lib m routes (current_to_json lib c))
          ≡ current_to_json lib c
    unfolding field list_eq route_to_json
    field-current m routes no_current = refl
    field-current m routes (current r) = refl

    slip_from_parts :
        (read : Json → ℕ → Result (Route Json × ℕ)) (m : RouteMeta) (routes : Routes Json)
        (c : Current Json) (i : ℕ)
        → IsInt64 m.route_id
        → read_routes lib source read (routes_to_json lib routes) i ≡ ok (routes, i)
        → read_current lib source read (current_to_json lib c) i ≡ ok (c, i)
        → slip_from_json lib source read (slip_to_json lib (slip m routes c)) i
          ≡ ok (slip m routes c, i)
    unfolding slip_from_json routes_from_json current_from_json slip_to_json list_eq field
    slip_from_parts read m routes c i small reads reads' =
        let fields = slip_fields lib m (routes_to_json lib routes) (current_to_json lib c) in
        rw
          (
            read_meta lib source fields m i refl small,
            find_member-present lib fields (codes "routes"),
            routes_from_json,
            elements-of (routes_to_json lib routes),
            reads,
            find_member-present lib fields (codes "current_route")
                ∙ field-current m (routes_to_json lib routes) c,
            current_from_json,
            reads',
          )
          refl

    slip_of_type :
        (read : Json → ℕ → Result (Route Json × ℕ)) (s : DynamicRoutingSlip Json) (i : ℕ)
        → slip_from_json lib source read (slip_to_json lib s) i ≡ ok (s, i)
        → route_of_type lib source read (codes "routing_slip") (slip_to_json lib s) i
          ≡ ok (routing_slip s, i)
    unfolding route_of_type list_eq
    slip_of_type read s i reads = rw reads refl

    mutual
      unfolding read_routes read_current route_to_json external_to_json relayed_to_json field
          list_eq

      route_round_trip :
          (r : Route Json) (fuel i : ℕ)
          → IsRoute r
          → route_size r ≤ fuel
          → route_from_json lib source fuel (route_to_json lib r) i ≡ ok (r, i)
      route_round_trip (simple m) zero i keeps enough = absurd (omega arith)
      route_round_trip (simple m) (suc fuel) i keeps enough =
          by_type fuel (simple_fields lib m) (codes "simple") i _ refl
            (simple_of_type (route_from_json lib source fuel) m i keeps)
      route_round_trip (routing_slip s) zero i keeps enough = absurd (omega arith)
      route_round_trip (routing_slip s) (suc fuel) i keeps enough =
          routing_slip-to_json s fuel i keeps (omega arith)
      route_round_trip (simple_external r) zero i keeps enough = absurd (omega arith)
      route_round_trip (simple_external r) (suc fuel) i keeps enough =
          by_type fuel (external_fields lib r) (codes "simple_external") i _ refl
            (external_of_type (route_from_json lib source fuel) r i keeps)
      route_round_trip (relayed_external r) zero i keeps enough = absurd (omega arith)
      route_round_trip (relayed_external r) (suc fuel) i (keeps, (from, to)) enough =
          by_type fuel (relayed_fields lib r) (codes "relayed_external") i _ refl
            (relayed_of_type (route_from_json lib source fuel) r i keeps from to)

      routing_slip-to_json :
          (s : DynamicRoutingSlip Json) (fuel i : ℕ)
          → IsSlip s
          → slip_size s ≤ fuel
          → route_from_json lib source (suc fuel) (slip_to_json lib s) i ≡ ok (routing_slip s, i)
      routing_slip-to_json (slip m routes c) fuel i (small, (keeps, keeps')) enough =
          by_type fuel (slip_fields lib m (routes_to_json lib routes) (current_to_json lib c))
            (codes "routing_slip") i _ refl
            (slip_of_type (route_from_json lib source fuel) (slip m routes c) i (
              slip_from_parts (route_from_json lib source fuel) m routes c i small
                (read_routes-to_json routes fuel i keeps (omega arith))
                (read_current-to_json c fuel i keeps' (omega arith))))

      read_routes-to_json :
          (routes : Routes Json) (fuel i : ℕ)
          → AreRoutes routes
          → routes_size routes ≤ fuel
          → read_routes lib source (route_from_json lib source fuel) (routes_to_json lib routes) i
            ≡ ok (routes, i)
      read_routes-to_json no_more fuel i keeps enough = refl
      read_routes-to_json (front r routes) fuel i (keeps, keeps') enough =
          rw
            (
              route_round_trip r fuel i keeps (omega arith),
              read_routes-to_json routes fuel i keeps' (omega arith),
            )
            refl

      pub read_current-to_json :
          (c : Current Json) (fuel i : ℕ)
          → IsCurrent c
          → current_size c ≤ fuel
          → read_current lib source (route_from_json lib source fuel) (current_to_json lib c) i
            ≡ ok (c, i)
      read_current-to_json no_current fuel i keeps enough = refl
      read_current-to_json (current r) fuel i keeps enough =
          rw (route_round_trip r fuel i keeps enough) refl

    pub slip_from_json-to_json :
        (s : DynamicRoutingSlip Json) (fuel i : ℕ)
        → IsSlip s
        → slip_size s ≤ fuel
        → slip_from_json lib source (route_from_json lib source fuel) (slip_to_json lib s) i
          ≡ ok (s, i)
    slip_from_json-to_json (slip m routes c) fuel i (small, (keeps, keeps')) enough =
        slip_from_parts (route_from_json lib source fuel) m routes c i small
          (read_routes-to_json routes fuel i keeps (omega arith))
          (read_current-to_json c fuel i keeps' (omega arith))

    -- With fuel for each route, RouteFromJson reads from the text of a route the same route and
    -- does not call NextLong, for each of the four kinds and slips nested to any depth; the route
    -- ids are in 64 bits and the peers have identities that a text can hold.
    pub route_from_json-to_json :
        (r : Route Json) (fuel i : ℕ)
        → IsRoute r
        → route_size r ≤ fuel
        → route_from_json lib source fuel (route_to_json lib r) i ≡ ok (r, i)
    route_from_json-to_json r fuel i keeps enough = route_round_trip r fuel i keeps enough
