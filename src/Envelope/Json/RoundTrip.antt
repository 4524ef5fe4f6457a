-- ===== src/Envelope/Json/RoundTrip.antt =====
-- What ToJson writes of an envelope is what FromJson reads, but for the body of a multipart.
use ra_common_cpp.Base.{Result, ℕ, ◌≤◌, [], ◌≡◌, refl, ◌∙◌, Option, none, some, codes, list_eq, ok}
use ra_common_cpp.Std.Numbers.{ℤ, pos}
use ra_common_cpp.Std.Entropy.{Source, NeverFails}
use ra_common_cpp.Util.Random.Ids.{random_uuid_like_lem}
use ra_common_cpp.Util.Random.Ranges.{next_long-IsInt64}
use ra_common_cpp.Std.Json.{JsonLibrary}
use ra_common_cpp.Std.Json.Arrays.{of_strings, read_strings, read_strings-of}
use ra_common_cpp.Std.Json.Fields.{
  Fields, field, or_else, written, present, optional-field, optional_string, or_default-field,
  value-field, find_member-present,
}
use ra_common_cpp.Identity.Json.{did_to_json, did_from_json, default_did}
use ra_common_cpp.Identity.Json.RoundTrip.{did_from_json-to_json}
use ra_common_cpp.Network.Json.{IsDid}
use ra_common_cpp.Route.{DynamicRoutingSlip}
use ra_common_cpp.Route.Json.{slip_to_json, current_to_json}
use ra_common_cpp.Route.Json.Read.{route_from_json, read_current}
use ra_common_cpp.Route.Json.External.{read_bool, read_int}
use ra_common_cpp.Route.Json.RoundTrip.{
  IsSlip, IsCurrent, slip_size, current_size, slip_from_json-to_json, read_current-to_json,
}
use ra_common_cpp.Messaging.{Message, message_to_json, message_from_json}
use ra_common_cpp.Messaging.RoundTrip.{IsBody, message_from_json-to_json}
use ra_common_cpp.Multipart.{
  Multipart, multipart_to_json, multipart_from_json, multipart_from_json-to_json,
}
use ra_common_cpp.Service.{ServiceLevel, level_to_string}
use ra_common_cpp.Service.Updates.{level_from_string-to_string}
use ra_common_cpp.Envelope.{EnvelopeAction, action_to_string, action_from_string}
use ra_common_cpp.Envelope.Json.{
  EnvelopeData, envelope_fields, envelope_to_json, read_action, read_level, slip_or, optional_drawn,
  envelope_from_json,
}

action_from_string-to_string : (x : EnvelopeAction) → action_from_string (action_to_string x) ≡ x
unfolding action_from_string action_to_string list_eq
action_from_string-to_string EnvelopeAction.post = refl
action_from_string-to_string EnvelopeAction.put = refl
action_from_string-to_string EnvelopeAction.delete = refl
action_from_string-to_string EnvelopeAction.get = refl

or_else-none : {Json : Type 0} (o : Option Json) → or_else o none ≡ o
or_else-none none = refl
or_else-none (some v) = refl

-- A multipart without what was appended to it.
abbrev pub emptied : Option Multipart → Option Multipart
emptied none = none
emptied (some m) = some (record m { body_text = [] })

module _ {Json : Type 0} (lib : JsonLibrary Json) where
  open lib use {
    of_bool, of_int, of_string, of_object, get_bool, get_int, get_string, find_member,
    get_string-of, get_int-of,
  }

  abbrev pub IsMessage : Option (Message Json) → Type 0
  IsMessage none = Unit
  IsMessage (some m) = IsBody lib m.body

  -- The envelopes that the text can hold.
  abbrev pub IsEnvelope : EnvelopeData Json → Type 0
  IsEnvelope e =
      IsSlip lib e.routing.dynamic_routing_slip
      × (IsCurrent lib e.routing.route × (IsDid lib e.did × IsMessage e.message))

  read_action-of_string :
      (a : EnvelopeAction) → read_action lib (of_string (action_to_string a)) ≡ ok a
  unfolding read_action
  read_action-of_string a =
      rw (get_string-of (action_to_string a), action_from_string-to_string a) refl

  read_level-of_string : (l : ServiceLevel) → read_level lib (of_string (level_to_string l)) ≡ ok l
  unfolding read_level
  read_level-of_string l =
      rw (get_string-of (level_to_string l), level_from_string-to_string l) refl

  -- The value was read, with some draws.
  abbrev ReadsSome : {A : Type 0} → Option A → Result (Option A × ℕ) → Type 0
  ReadsSome o r = (next : ℕ) × (r ≡ ok (o, next))

  read_multipart :
      (source : Source) (fields : Fields Json) (m : Option Multipart) (call : ℕ)
      → NeverFails source
      → field (codes "multipart") fields ≡ or_else (written (multipart_to_json lib) m) none
      → ReadsSome (emptied m) (
          optional_drawn lib
            (multipart_from_json lib source)
            (of_object (present fields))
            (codes "multipart")
            call)
  unfolding optional_drawn
  read_multipart source fields none call always there =
      (call, rw (find_member-present lib fields (codes "multipart") ∙ there, optional_drawn) refl)
  read_multipart source fields (some m) call always there =
      let (next, reads) = multipart_from_json-to_json lib source m call always in
      (
        next,
        rw (find_member-present lib fields (codes "multipart") ∙ there, optional_drawn, reads) refl,
      )

  read_message :
      (source : Source) (fields : Fields Json) (m : Option (Message Json)) (call : ℕ)
      → NeverFails source
      → field (codes "message") fields ≡ or_else (written (message_to_json lib) m) none
      → IsMessage m
      → ReadsSome m (
          optional_drawn lib
            (message_from_json lib source)
            (of_object (present fields))
            (codes "message")
            call)
  unfolding optional_drawn
  read_message source fields none call always there keeps =
      (call, rw (find_member-present lib fields (codes "message") ∙ there, optional_drawn) refl)
  read_message source fields (some m) call always there keeps =
      let (next, reads) = message_from_json-to_json lib source m call always keeps in
      (
        next,
        rw (find_member-present lib fields (codes "message") ∙ there, optional_drawn, reads) refl,
      )

  module _ (source : Source) where
    read_slip :
        (drawn : ℤ) (fuel : ℕ) (fields : Fields Json) (s : DynamicRoutingSlip Json) (i : ℕ)
        → field (codes "dynamic_routing_slip") fields ≡ some (slip_to_json lib s)
        → IsSlip lib s
        → slip_size lib s ≤ fuel
        → slip_or lib source drawn fuel (of_object (present fields)) i ≡ ok (s, i)
    unfolding slip_or
    read_slip drawn fuel fields s i there keeps enough =
        rw (find_member-present lib fields (codes "dynamic_routing_slip") ∙ there, slip_or)
          (slip_from_json-to_json lib source s fuel i keeps enough)

    field-route :
        (e : EnvelopeData Json)
        → field (codes "route") (envelope_fields lib e) ≡ current_to_json lib e.routing.route
    unfolding field list_eq
    field-route e = or_else-none (current_to_json lib e.routing.route)

    read_route :
        (fuel : ℕ) (e : EnvelopeData Json) (i : ℕ)
        → IsCurrent lib e.routing.route
        → current_size lib e.routing.route ≤ fuel
        → read_current lib source
            (route_from_json lib source fuel)
            (find_member (envelope_to_json lib e) (codes "route"))
            i
          ≡ ok (e.routing.route, i)
    unfolding envelope_to_json
    read_route fuel e i keeps enough =
        rw (find_member-present lib (envelope_fields lib e) (codes "route") ∙ field-route e)
          (read_current-to_json lib source e.routing.route fuel i keeps enough)

    -- If getentropy succeeds for every count of at most 256 bytes, then with fuel for the routes
    -- in it, FromJson, which draws random ids also for what the text has, returns from the text
    -- of an envelope the same envelope, but with the body of its multipart emptied. The envelope
    -- has route ids in 64 bits, and identities that a text can hold: empty attributes are {} and
    -- the signed attributes are in order.
    pub envelope_from_json-to_json :
        (e : EnvelopeData Json) (fuel call : ℕ)
        → NeverFails source
        → IsEnvelope e
        → slip_size lib e.routing.dynamic_routing_slip ≤ fuel
        → current_size lib e.routing.route ≤ fuel
        → (last : ℕ) × (envelope_from_json lib source fuel (envelope_to_json lib e) call
            ≡ ok (record e { multipart = emptied e.multipart }, last))
    unfolding envelope_from_json envelope_to_json field list_eq
    envelope_from_json-to_json e fuel call always
          (keeps_slip, (keeps_route, ((kept, ordered), keeps_message))) enough enough' =
        let fields = envelope_fields lib e in
        let ((drawn, call1), draws, _) = random_uuid_like_lem source call always in
        let ((drawn_long, call2), draws', _) = next_long-IsInt64 source call1 always in
        let (call3, reads) = read_multipart source fields e.multipart call2 always refl in
        let (last, reads') = read_message source fields e.message call3 always refl keeps_message in
        (
          last,
          rw
              (
                optional_string lib fields (codes "id") (some e.routing.id) refl,
                draws,
                draws',
                read_slip drawn_long fuel fields e.routing.dynamic_routing_slip call2 refl
                    keeps_slip enough,
                read_route fuel e call2 keeps_route enough',
                or_default-field lib (read_strings lib) fields (codes "markers")
                    (of_strings lib e.routing.markers) [] e.routing.markers refl
                    (read_strings-of lib e.routing.markers),
                or_default-field lib (did_from_json lib) fields (codes "did")
                    (did_to_json lib e.did) (default_did lib) e.did refl
                    (did_from_json-to_json lib e.did kept ordered),
                optional_string lib fields (codes "client") e.client refl,
                read_bool lib fields (codes "reply_to_client") e.reply_to_client refl,
                optional_string lib fields (codes "client_reply_action") e.client_reply_action refl,
                optional_string lib fields (codes "url") e.url refl,
                reads,
                optional-field lib (read_action lib) fields (codes "action")
                    (λ a. of_string (action_to_string a)) e.action refl read_action-of_string,
                optional_string lib fields (codes "command_path") e.command_path refl,
                or_default-field lib ok fields (codes "headers") e.headers (of_object []) e.headers
                    refl refl,
                reads',
                value-field lib get_int fields (codes "sensitivity") (of_int e.sensitivity) (pos 1)
                    e.sensitivity refl (get_int-of e.sensitivity),
                read_bool lib fields (codes "delayed") e.delayed refl,
                read_int lib fields (codes "min_delay") e.min_delay refl,
                read_int lib fields (codes "max_delay") e.max_delay refl,
                read_bool lib fields (codes "copy") e.copy refl,
                read_int lib fields (codes "max_copies") e.max_copies refl,
                read_int lib fields (codes "min_copies") e.min_copies refl,
                or_default-field lib (read_level lib) fields (codes "service_level")
                    (of_string (level_to_string e.service_level)) ServiceLevel.at_least_once
                    e.service_level refl (read_level-of_string e.service_level),
              )
              refl,
        )
