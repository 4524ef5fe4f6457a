-- ===== src/Route/Stack.antt =====
-- The slip as a stack: the routes that NextRoute goes through, one call after the other.
use ra_common_cpp.Base.{
  ℕ, zero, suc, ◌≡◌, refl, sym, ap, ◌∙◌, List, [], ◌∷◌, ◌++◌, map, append_assoc,
}
use mathlib.Core.List.{reverse, reverse_aux}
use ra_common_cpp.Std.Numbers.{ℤ}
use ra_common_cpp.Route.{
  Route, DynamicRoutingSlip, Routes, Current, slip, no_more, front, no_current, current, simple,
  routing_slip, simple_external, relayed_external, set_route_id, route_id_of,
}
use ra_common_cpp.Route.Slip.{
  slip_id, add_route, number_remaining_routes, next_route, current_route,
}

reverse_aux-append {ℓ} : {A : Type ℓ} (xs ys : List A) → reverse_aux xs ys ≡ reverse xs ++ ys
reverse_aux-append [] ys = refl
reverse_aux-append (x ∷ xs) ys =
    reverse_aux-append xs (x ∷ ys)
    ∙ sym (append_assoc (reverse xs) (x ∷ []) ys)
    ∙ ap (λ l. l ++ ys) (sym (reverse_aux-append xs (x ∷ [])))

module _ {Json : Type 0} where
  -- The routes that at most `fuel` calls of NextRoute return, up to the first nullptr.
  abbrev pub itinerary : ℕ → DynamicRoutingSlip Json → List (Route Json)
  itinerary zero s = []
  itinerary (suc fuel) s =
      let rest = itinerary fuel (next_route s).0 in
      elim ((next_route s).1) [ no_current ↦ [] | current r ↦ r ∷ rest ]

  abbrev pub add_all : List (Route Json) → DynamicRoutingSlip Json → DynamicRoutingSlip Json
  add_all [] s = s
  add_all (r ∷ rs) s = add_all rs (add_route r s)

  abbrev pub to_list : Routes Json → List (Route Json)
  to_list no_more = []
  to_list (front r routes) = r ∷ to_list routes

  abbrev pub routes_of : DynamicRoutingSlip Json → List (Route Json)
  routes_of (slip m routes c) = to_list routes

  itinerary_lem :
      (s : DynamicRoutingSlip Json) → itinerary (number_remaining_routes s) s ≡ routes_of s
  unfolding number_remaining_routes next_route
  itinerary_lem (slip m no_more c) = refl
  itinerary_lem (slip m (front r routes) c) = ap (◌∷◌ r) (itinerary_lem (slip m routes (current r)))

  add_all-routes_of :
      (rs : List (Route Json)) (s : DynamicRoutingSlip Json)
      → routes_of (add_all rs s) ≡ reverse_aux (map (set_route_id (slip_id s)) rs) (routes_of s)
  unfolding add_route slip_id
  add_all-routes_of [] s = refl
  add_all-routes_of (r ∷ rs) (slip m routes c) =
      add_all-routes_of rs (slip m (front (set_route_id m.route_id r) routes) c)

  -- After any routes were added to a routing slip, NextRoute returns them last in, first out,
  -- each stamped with the id of the slip, and then the routes that were there.
  pub itinerary-add_all :
      (rs : List (Route Json)) (s : DynamicRoutingSlip Json)
      → itinerary (number_remaining_routes (add_all rs s)) (add_all rs s)
        ≡ reverse (map (set_route_id (slip_id s)) rs) ++ itinerary (number_remaining_routes s) s
  itinerary-add_all rs s =
      itinerary_lem (add_all rs s)
      ∙ add_all-routes_of rs s
      ∙ reverse_aux-append (map (set_route_id (slip_id s)) rs) (routes_of s)
      ∙ ap (reverse (map (set_route_id (slip_id s)) rs) ++◌) (sym (itinerary_lem s))

  -- Every route that the slip holds has the slip's id.
  abbrev pub AllStamped : ℤ → Routes Json → Type 0
  AllStamped id no_more = Unit {0}
  AllStamped id (front r routes) = (route_id_of r ≡ id) × AllStamped id routes

  abbrev pub CurrentStamped : ℤ → Current Json → Type 0
  CurrentStamped id no_current = Unit {0}
  CurrentStamped id (current r) = route_id_of r ≡ id

  abbrev pub IsStamped : DynamicRoutingSlip Json → Type 0
  IsStamped (slip m routes c) = AllStamped m.route_id routes × CurrentStamped m.route_id c

  set_route_id-route_id : (id : ℤ) (r : Route Json) → route_id_of (set_route_id id r) ≡ id
  unfolding route_id_of set_route_id
  set_route_id-route_id id (simple m) = refl
  set_route_id-route_id id (routing_slip (slip m routes c)) = refl
  set_route_id-route_id id (simple_external r) = refl
  set_route_id-route_id id (relayed_external r) = refl

  -- If every route of a slip and its current route have the id of the slip, then so it is after
  -- AddRoute, after NextRoute and after CurrentRoute.
  pub slip-IsStamped :
      (r : Route Json) (s : DynamicRoutingSlip Json)
      → IsStamped s
      → IsStamped (add_route r s) × (IsStamped (next_route s).0 × IsStamped (current_route s).0)
  unfolding add_route next_route current_route
  slip-IsStamped r (slip m no_more no_current) h =
      ((((set_route_id-route_id m.route_id r), h.0), h.1), (h, h))
  slip-IsStamped r (slip m no_more (current c)) h =
      ((((set_route_id-route_id m.route_id r), h.0), h.1), ((tt, tt), h))
  slip-IsStamped r (slip m (front f rest) no_current) h =
      ((((set_route_id-route_id m.route_id r), h.0), h.1), ((h.0.1, h.0.0), (h.0.1, h.0.0)))
  slip-IsStamped r (slip m (front f rest) (current c)) h =
      ((((set_route_id-route_id m.route_id r), h.0), h.1), ((h.0.1, h.0.0), h))
