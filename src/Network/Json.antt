-- ===== src/Network/Json.antt =====
-- NetworkPeer::ToJson and FromJson, and what of a peer they keep.
use ra_common_cpp.Base.{true, [], ◌∷◌, ◌≡◌, refl, some, codes, list_eq, Result, ok, ◌>>=◌}
use ra_common_cpp.Std.Json.{JsonLibrary, IsOrdered, names}
use ra_common_cpp.Std.Json.Arrays.{of_strings, read_strings, read_strings-of}
use ra_common_cpp.Std.Json.Fields.{
  Fields, field, written, written_list, present, optional, or_default, optional-field,
  optional_string, or_default-field, or_default_list,
}
use ra_common_cpp.Identity.{Did}
use ra_common_cpp.Identity.Json.{did_to_json, did_from_json, default_did}
use ra_common_cpp.Identity.Json.RoundTrip.{did_from_json-to_json}
use ra_common_cpp.Network.{Network, NetworkPeer, network_to_string, network_from_string}
use ra_common_cpp.Network.Peers.{network_from_string-to_string}

module _ {Json : Type 0} (lib : JsonLibrary Json) where
  open lib use {
    of_int, of_string, of_object, get_int, get_string, is_empty, get_int-of, get_string-of,
  }

  abbrev peer_fields : NetworkPeer Json → Fields Json
  peer_fields p =
      (codes "id", written of_string p.id)
      ∷ (codes "port", written of_int p.port)
      ∷ (codes "network", some (of_string (network_to_string p.network_value)))
      ∷ (codes "did", some (did_to_json lib p.did))
      ∷ (codes "services", written_list (of_strings lib) p.services)
      ∷ []

  unfoldable pub peer_to_json : NetworkPeer Json → Json
  peer_to_json p = of_object (present (peer_fields p))

  unfoldable pub read_network : Json → Result Network
  read_network j = do text ← get_string j; ok (network_from_string text)

  unfoldable pub peer_from_json : Json → Result (NetworkPeer Json)
  peer_from_json j = do
    network' ← or_default lib read_network j (codes "network") Network.http
    did' ← or_default lib (did_from_json lib) j (codes "did") (default_did lib)
    id' ← optional lib get_string j (codes "id")
    port' ← optional lib get_int j (codes "port")
    services' ← or_default lib (read_strings lib) j (codes "services") []
    ok (record {
      network_value = network';
      did = did';
      id = id';
      port = port';
      services = services';
    })

  -- The identities that the JSON text can hold: a value kept as attributes that has no content is {},
  -- and the map of signed attributes is in its order.
  abbrev pub IsDid : Did Json → Type 0
  IsDid d =
      (is_empty d.public_key.attributes ≡ true → d.public_key.attributes ≡ of_object [])
      × IsOrdered (names d.public_key.signed_attributes)

  read_network-of_string : (x : Network) → read_network (of_string (network_to_string x)) ≡ ok x
  unfolding read_network
  read_network-of_string x =
      rw (get_string-of (network_to_string x), network_from_string-to_string x) refl

  -- FromJson reads from the text of a peer the same peer, if empty attributes of its identity are
  -- {} and its signed attributes are in order.
  pub peer_from_json-to_json :
      (p : NetworkPeer Json) → IsDid p.did → peer_from_json (peer_to_json p) ≡ ok p
  unfolding peer_from_json peer_to_json field list_eq
  peer_from_json-to_json p (kept, ordered) =
      let fields = peer_fields p in
      rw
        (
          or_default-field lib read_network fields (codes "network")
              (of_string (network_to_string p.network_value)) Network.http p.network_value refl
              (read_network-of_string p.network_value),
          or_default-field lib (did_from_json lib) fields (codes "did") (did_to_json lib p.did)
              (default_did lib) p.did refl (did_from_json-to_json lib p.did kept ordered),
          optional_string lib fields (codes "id") p.id refl,
          optional-field lib get_int fields (codes "port") of_int p.port refl get_int-of,
          or_default_list lib fields (codes "services") (read_strings lib) (of_strings lib)
              p.services refl (read_strings-of lib p.services),
        )
        refl
