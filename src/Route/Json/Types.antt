-- ===== src/Route/Json/Types.antt =====
-- What RouteFromJson does by the type that the text names.
use ra_common_cpp.Base.{
  ℕ, zero, suc, Bool, false, ◌||◌, ◌++◌, ◌≡◌, ◌∙◌, sym, Bytes, codes, list_eq, list_eq→eq, inl, inr,
  Bool-cases, Result, ok, err, runtime_error, >>=-eq-ok, arith,
}
use ra_common_cpp.Std.Entropy.{Source}
use ra_common_cpp.Std.Json.{JsonLibrary}
use ra_common_cpp.Std.Json.Fields.{at}
use ra_common_cpp.Route.{Route}
use ra_common_cpp.Route.Json.{route_type}
use ra_common_cpp.Route.Json.Read.{route_of_type, route_from_json}

abbrev pub is_route_type : Bytes → Bool
is_route_type text =
    list_eq text (codes "simple")
    || list_eq text (codes "routing_slip")
    || list_eq text (codes "simple_external")
    || list_eq text (codes "relayed_external")

module _ {Json : Type 0} (lib : JsonLibrary Json) (source : Source) where
  open lib use {get_string}

  of_type :
      (read : Json → ℕ → Result (Route Json × ℕ)) (text : Bytes) (j : Json) (i : ℕ)
      (r : Route Json × ℕ)
      → route_of_type lib source read text j i ≡ ok r
      → route_type r.0 ≡ text
  unfolding route_of_type route_type
  of_type read text j i r = elim (Bool-cases (list_eq text (codes "simple"))) [
    | inl e ↦ rw e (λ reads. (ground arith) ∙ sym (list_eq→eq _ _ e))
    | inr e ↦ rw e (elim (Bool-cases (list_eq text (codes "routing_slip"))) [
      | inl e ↦ rw e (λ reads. (ground arith) ∙ sym (list_eq→eq _ _ e))
      | inr e ↦ rw e (elim (Bool-cases (list_eq text (codes "simple_external"))) [
        | inl e ↦ rw e (λ reads. (ground arith) ∙ sym (list_eq→eq _ _ e))
        | inr e ↦ rw e (elim (Bool-cases (list_eq text (codes "relayed_external"))) [
          | inl e ↦ rw e (λ reads. (ground arith) ∙ sym (list_eq→eq _ _ e))
          | inr e ↦ rw e (λ reads. absurd (cc))
        ])
      ])
    ])
  ]

  -- A route that RouteFromJson returns is of the type that the text names.
  pub route_from_json-route_type :
      (fuel : ℕ) (j : Json) (i : ℕ) (r : Route Json × ℕ)
      → route_from_json lib source fuel j i ≡ ok r
      → at lib get_string j (codes "type") ≡ ok (route_type r.0)
  unfolding route_from_json
  route_from_json-route_type zero j i r reads = absurd (cc)
  route_from_json-route_type (suc fuel) j i r reads =
      let (text, (gives, found)) =
        >>=-eq-ok (λ text. route_of_type lib source (route_from_json lib source fuel) text j i) r
          (at lib get_string j (codes "type")) reads in
      rw (of_type (route_from_json lib source fuel) text j i r gives) found

  -- RouteFromJson throws a runtime_error that names the type if the text names a type that is
  -- none of the four.
  pub route_from_json-unknown :
      (fuel : ℕ) (text : Bytes) (j : Json) (i : ℕ)
      → at lib get_string j (codes "type") ≡ ok text
      → is_route_type text ≡ false
      → route_from_json lib source (suc fuel) j i
        ≡ err (runtime_error (codes "unknown route type: " ++ text))
  unfolding route_from_json route_of_type
  route_from_json-unknown fuel text j i found unknown = rw found (ground (arith, unknown))
