-- ===== src/Envelope/Make/Made.antt =====
-- The envelopes that class Envelope makes, as JSON.
use ra_common_cpp.Base.{ℕ, ◌≡◌, refl, Option, Bytes, length, ok, arith}
use ra_common_cpp.Std.Numbers.{ℤ}
use ra_common_cpp.Std.Numbers.Decimal.{IsInt64}
use ra_common_cpp.Std.Json.{JsonLibrary}
use ra_common_cpp.Std.Entropy.{Source, NeverFails}
use ra_common_cpp.Util.Random.{value_or}
use ra_common_cpp.Util.Random.Ids.{random_uuid_like_lem}
use ra_common_cpp.Util.Random.Ranges.{next_long-IsInt64}
use ra_common_cpp.Identity.Json.{default_did}
use ra_common_cpp.Route.{new_meta}
use ra_common_cpp.Messaging.{Message}
use ra_common_cpp.Envelope.Json.{EnvelopeData, envelope_to_json, envelope_from_json}
use ra_common_cpp.Envelope.Json.RoundTrip.{IsMessage, IsEnvelope, envelope_from_json-to_json}
use ra_common_cpp.Envelope.Make.{fresh_envelope, new_envelope}

module _ {Json : Type 0} (lib : JsonLibrary Json) where
  fresh_envelope-IsEnvelope :
      (id : Bytes) (route_id : ℤ) (message : Option (Message Json))
      → IsInt64 route_id
      → IsMessage lib message
      → IsEnvelope lib (fresh_envelope lib id route_id message)
  unfolding default_did new_meta
  fresh_envelope-IsEnvelope id route_id message small keeps =
      ((small, (tt, tt)), (tt, (((λ e. refl), tt), keeps)))

  -- If getentropy succeeds for every count of at most 256 bytes, the constructor of Envelope
  -- returns, whatever id and message it is given; the id is the given one, or one of 36
  -- characters that was drawn; and FromJson reads from the text of the new envelope the same
  -- envelope, for every message whose identities a text can hold.
  pub envelope_from_json-new_envelope :
      (source : Source) (call : ℕ) (id_in : Option Bytes) (message : Option (Message Json))
      (again : ℕ)
      → NeverFails source
      → IsMessage lib message
      → (made : EnvelopeData Json × ℕ) × (new_envelope lib source call id_in message ≡ ok made)
        × ((drawn : Bytes) × (made.0.routing.id ≡ value_or id_in drawn) × (length drawn ≡ 36))
        × ((last : ℕ) × (envelope_from_json lib source 1 (envelope_to_json lib made.0) again
              ≡ ok (made.0, last)))
  unfolding new_envelope
  envelope_from_json-new_envelope source call id_in message again always keeps =
      let ((drawn, next), draws, size) = random_uuid_like_lem source call always in
      let ((route_id, last), draws', small) = next_long-IsInt64 source next always in
      let e : EnvelopeData Json = fresh_envelope lib (value_or id_in drawn) route_id message in
      (
        (e, last),
        rw (draws, draws') refl,
        (drawn, refl, size),
        envelope_from_json-to_json lib source e 1 again always
            (fresh_envelope-IsEnvelope (value_or id_in drawn) route_id message small keeps)
            (omega arith) (omega arith),
      )
