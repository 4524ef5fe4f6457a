-- ===== src/Route/Slip.antt =====
-- The operations of DynamicRoutingSlip in include/ra_common/route/dynamic_routing_slip.hpp.
use ra_common_cpp.Base.{ℕ, suc}
use ra_common_cpp.Std.Numbers.{ℤ}
use ra_common_cpp.Route.{
  Route, DynamicRoutingSlip, Routes, Current, slip, no_more, front, no_current, current,
  set_route_id,
}

module _ {Json : Type 0} where
  unfoldable pub slip_id : DynamicRoutingSlip Json → ℤ
  slip_id (slip m routes c) = m.route_id

  -- AddRoute: the route is stamped with the slip's id and put in front.
  unfoldable pub add_route : Route Json → DynamicRoutingSlip Json → DynamicRoutingSlip Json
  add_route r (slip m routes c) = slip m (front (set_route_id m.route_id r) routes) c

  unfoldable pub count : Routes Json → ℕ
  count no_more = 0
  count (front r routes) = suc (count routes)

  unfoldable pub number_remaining_routes : DynamicRoutingSlip Json → ℕ
  unfolding count
  number_remaining_routes (slip m routes c) = count routes

  -- NextRoute, with the route that it returns; `no_current` is nullptr.
  unfoldable pub next_route : DynamicRoutingSlip Json → DynamicRoutingSlip Json × Current Json
  next_route (slip m no_more c) = (slip m no_more no_current, no_current)
  next_route (slip m (front r routes) c) = (slip m routes (current r), current r)

  -- CurrentRoute
  unfoldable pub current_route : DynamicRoutingSlip Json → DynamicRoutingSlip Json × Current Json
  unfolding next_route
  current_route (slip m routes no_current) =
      let s = (next_route (slip m routes no_current)).0 in (s, current_of s)
    where
      current_of : DynamicRoutingSlip Json → Current Json
      current_of (slip m' routes' c') = c'
  current_route (slip m routes (current r)) = (slip m routes (current r), current r)

  unfoldable pub peek_at_next_route : DynamicRoutingSlip Json → Current Json
  peek_at_next_route (slip m no_more c) = no_current
  peek_at_next_route (slip m (front r routes) c) = current r
