-- ===== src/Route/Clone.antt =====
-- A clone has the content of its route, however deep the slips in it are nested.
use ra_common_cpp.Base.{◌≡◌, refl, ap, ap₂}
use ra_common_cpp.Route.{
  Route, DynamicRoutingSlip, Routes, Current, simple, routing_slip, simple_external,
  relayed_external, slip, no_more, front, no_current, current, clone, clone_slip, clone_routes,
  clone_current,
}

mutual
  unfolding clone

  clone_same : {Json : Type 0} (r : Route Json) → clone r ≡ r
  clone_same (simple m) = refl
  clone_same (routing_slip s) = ap routing_slip (clone_slip_same s)
  clone_same (simple_external r) = refl
  clone_same (relayed_external r) = refl

  clone_slip_same : {Json : Type 0} (s : DynamicRoutingSlip Json) → clone_slip s ≡ s
  clone_slip_same (slip m routes c) = ap₂ (slip m) (clone_routes_same routes) (clone_current_same c)

  clone_routes_same : {Json : Type 0} (routes : Routes Json) → clone_routes routes ≡ routes
  clone_routes_same no_more = refl
  clone_routes_same (front r routes) = ap₂ front (clone_same r) (clone_routes_same routes)

  clone_current_same : {Json : Type 0} (c : Current Json) → clone_current c ≡ c
  clone_current_same no_current = refl
  clone_current_same (current r) = ap current (clone_same r)

-- Clone gives a route equal to its original, for each of the four kinds and for slips nested to
-- any depth.
pub clone_lem : {Json : Type 0} (r : Route Json) → clone r ≡ r
clone_lem r = clone_same r
