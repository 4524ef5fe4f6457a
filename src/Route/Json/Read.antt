-- ===== src/Route/Json/Read.antt =====
-- RouteFromJson. Where the text has no route meta the default constructor draws a new route id with
-- NextLong: `i` is the number of the next call of getentropy, and the second part of a result that of
-- the call after it. The fuel bounds how deep slips are nested.
use ra_common_cpp.Base.{
  ℕ, zero, suc, ◌++◌, false, List, [], ◌∷◌, Option, none, some, Bytes, codes, list_eq,
  if◌then◌else◌, Result, ok, err, runtime_error, out_of_fuel, ◌>>=◌,
}
use ra_common_cpp.Std.Numbers.{ℤ, pos}
use ra_common_cpp.Std.Json.{JsonLibrary}
use ra_common_cpp.Std.Json.Fields.{at, optional, value}
use ra_common_cpp.Std.Entropy.{Source}
use ra_common_cpp.Util.Random.{next_long}
use ra_common_cpp.Network.Json.{peer_from_json}
use ra_common_cpp.Route.{
  RouteMeta, new_meta, SimpleExternalRoute, RelayedExternalRoute, Route, DynamicRoutingSlip, Routes,
  Current, simple, routing_slip, simple_external, relayed_external, slip, no_more, front,
  no_current, current,
}
use ra_common_cpp.Route.Json.{meta_from_json}

module _ {Json : Type 0} (lib : JsonLibrary Json) (source : Source) where
  open lib use {get_bool, get_int, get_string, find_member, elements}

  -- data.contains("meta") ? RouteMeta::FromJson(data.at("meta")) : RouteMeta::New()
  unfoldable pub meta_or_new : Json → ℕ → Result (RouteMeta × ℕ)
  meta_or_new j i = elim (find_member j (codes "meta")) [
    | none ↦ next_long source i >>= λ drawn. ok (new_meta none none drawn.0, drawn.1)
    | some v ↦ meta_from_json lib v >>= λ m. ok (m, i)
  ]

  unfoldable pub external_from_json : Json → ℕ → Result (SimpleExternalRoute Json × ℕ)
  external_from_json j i = do
    (meta', i') ← meta_or_new j i
    origination' ← optional lib (peer_from_json lib) j (codes "origination")
    destination' ← optional lib (peer_from_json lib) j (codes "destination")
    content' ← value lib get_bool j (codes "send_content_only") false
    status' ← value lib get_int j (codes "status_code") (pos 0)
    ok (
      record {
        meta = meta';
        origination = origination';
        destination = destination';
        send_content_only = content';
        status_code = status';
      },
      i',
    )

  -- SimpleExternalRoute()
  unfoldable pub default_external : ℤ → SimpleExternalRoute Json
  default_external id = record {
    meta = new_meta none none id;
    origination = none;
    destination = none;
    send_content_only = false;
    status_code = pos 0;
  }

  unfoldable pub base_or_new : Json → ℕ → Result (SimpleExternalRoute Json × ℕ)
  base_or_new j i = elim (find_member j (codes "base")) [
    | none ↦ next_long source i >>= λ drawn. ok (default_external drawn.0, drawn.1)
    | some v ↦ external_from_json v i
  ]

  unfoldable pub relayed_from_json : Json → ℕ → Result (RelayedExternalRoute Json × ℕ)
  relayed_from_json j i = do
    (base', i') ← base_or_new j i
    from' ← optional lib (peer_from_json lib) j (codes "from_peer")
    to' ← optional lib (peer_from_json lib) j (codes "to_peer")
    delayed' ← value lib get_bool j (codes "delayed") false
    min_delay' ← value lib get_int j (codes "min_delay") (pos 0)
    max_delay' ← value lib get_int j (codes "max_delay") (pos 0)
    copy' ← value lib get_bool j (codes "copy") false
    min_copies' ← value lib get_int j (codes "min_copies") (pos 0)
    max_copies' ← value lib get_int j (codes "max_copies") (pos 0)
    sensitivity' ← value lib get_int j (codes "sensitivity") (pos 0)
    ok (
      record {
        base = base';
        from_peer = from';
        to_peer = to';
        delayed = delayed';
        min_delay = min_delay';
        max_delay = max_delay';
        copy = copy';
        min_copies = min_copies';
        max_copies = max_copies';
        sensitivity = sensitivity';
      },
      i',
    )

  -- The loop over `routes`, and what the slip owns of `current_route`.
  unfoldable pub read_routes :
      (Json → ℕ → Result (Route Json × ℕ)) → List Json → ℕ → Result (Routes Json × ℕ)
  read_routes read [] i = ok (no_more, i)
  read_routes read (x ∷ xs) i = do
    (r, i') ← read x i
    (rs, i'') ← read_routes read xs i'
    ok (front r rs, i'')

  unfoldable pub routes_from_json :
      (Json → ℕ → Result (Route Json × ℕ)) → Json → ℕ → Result (Routes Json × ℕ)
  routes_from_json read j i = elim (find_member j (codes "routes")) [
    | none ↦ ok (no_more, i)
    | some v ↦ read_routes read (elements v) i
  ]

  unfoldable pub read_current :
      (Json → ℕ → Result (Route Json × ℕ)) → Option Json → ℕ → Result (Current Json × ℕ)
  read_current read none i = ok (no_current, i)
  read_current read (some v) i = do (r, i') ← read v i; ok (current r, i')

  unfoldable pub current_from_json :
      (Json → ℕ → Result (Route Json × ℕ)) → Json → ℕ → Result (Current Json × ℕ)
  unfolding read_current
  current_from_json read j i = read_current read (find_member j (codes "current_route")) i

  unfoldable pub slip_from_json :
      (Json → ℕ → Result (Route Json × ℕ)) → Json → ℕ → Result (DynamicRoutingSlip Json × ℕ)
  slip_from_json read j i = do
    (meta', i') ← meta_or_new j i
    (routes', i'') ← routes_from_json read j i'
    (current', i''') ← current_from_json read j i''
    ok (slip meta' routes' current', i''')

  unfoldable pub route_of_type :
      (Json → ℕ → Result (Route Json × ℕ)) → Bytes → Json → ℕ → Result (Route Json × ℕ)
  route_of_type read type' j i =
      if list_eq type' (codes "simple")
      then (do (meta', i') ← meta_or_new j i; ok (simple meta', i'))
      else if list_eq type' (codes "routing_slip")
      then (do (s, i') ← slip_from_json read j i; ok (routing_slip s, i'))
      else if list_eq type' (codes "simple_external")
      then (do (r, i') ← external_from_json j i; ok (simple_external r, i'))
      else if list_eq type' (codes "relayed_external")
      then (do (r, i') ← relayed_from_json j i; ok (relayed_external r, i'))
      else err (runtime_error (codes "unknown route type: " ++ type'))

  -- RouteFromJson
  unfoldable pub route_from_json : ℕ → Json → ℕ → Result (Route Json × ℕ)
  route_from_json zero j i = err out_of_fuel
  route_from_json (suc fuel) j i = do
    type' ← at lib get_string j (codes "type")
    route_of_type (route_from_json fuel) type' j i
