-- ===== src/Route/Json/External.antt =====
-- What ToJson writes of an external route is what its FromJson reads, with no call of NextLong.
use ra_common_cpp.Base.{
  ℕ, Bool, false, ◌≡◌, refl, ◌∙◌, Option, none, some, Bytes, codes, list_eq, ok,
}
use ra_common_cpp.Std.Numbers.{ℤ, pos, signed_to_string}
use ra_common_cpp.Std.Numbers.Decimal.{IsInt64, stoll-signed_to_string}
use ra_common_cpp.Std.Entropy.{Source}
use ra_common_cpp.Std.Json.{JsonLibrary}
use ra_common_cpp.Std.Json.Fields.{
  Fields, field, present, find_member-present, optional_string, or_else, written, optional, value,
  value-field, or_default-field,
}
use ra_common_cpp.Network.{NetworkPeer}
use ra_common_cpp.Network.Json.{IsDid, peer_to_json, peer_from_json, peer_from_json-to_json}
use ra_common_cpp.Route.{RouteMeta, SimpleExternalRoute, RelayedExternalRoute}
use ra_common_cpp.Route.Json.{
  meta_fields, meta_to_json, meta_from_json, read_id, external_fields, external_to_json,
  relayed_fields, relayed_to_json,
}
use ra_common_cpp.Route.Json.Read.{meta_or_new, external_from_json, base_or_new, relayed_from_json}

module _ {Json : Type 0} (lib : JsonLibrary Json) where
  open lib use {
    of_bool, of_int, of_string, of_array, of_object, get_bool, get_int, get_string, get_bool-of,
    get_int-of, get_string-of, elements-of,
  }

  pub read_bool :
      (fields : Fields Json) (name : Bytes) (b : Bool)
      → field name fields ≡ some (of_bool b)
      → value lib get_bool (of_object (present fields)) name false ≡ ok b
  read_bool fields name b there =
      value-field lib get_bool fields name (of_bool b) false b there (get_bool-of b)

  pub read_int :
      (fields : Fields Json) (name : Bytes) (n : ℤ)
      → field name fields ≡ some (of_int n)
      → value lib get_int (of_object (present fields)) name (pos 0) ≡ ok n
  read_int fields name n there =
      value-field lib get_int fields name (of_int n) (pos 0) n there (get_int-of n)

  read_id-of_string : (z : ℤ) → IsInt64 z → read_id lib (of_string (signed_to_string z)) ≡ ok z
  unfolding read_id
  read_id-of_string z small =
      rw (get_string-of (signed_to_string z)) (stoll-signed_to_string z small)

  meta_from_json-to_json :
      (m : RouteMeta) → IsInt64 m.route_id → meta_from_json lib (meta_to_json lib m) ≡ ok m
  unfolding meta_from_json meta_to_json field list_eq
  meta_from_json-to_json m small =
      let fields = meta_fields lib m in
      rw
        (
          optional_string lib fields (codes "service") m.service refl,
          optional_string lib fields (codes "operation") m.operation refl,
          read_bool fields (codes "routed") m.routed refl,
          or_default-field lib (read_id lib) fields (codes "route_id")
              (of_string (signed_to_string m.route_id)) (pos 0) m.route_id refl
              (read_id-of_string m.route_id small),
        )
        refl

  abbrev pub IsPeer : Option (NetworkPeer Json) → Type 0
  IsPeer none = Unit
  IsPeer (some p) = IsDid lib p.did

  abbrev pub IsExternal : SimpleExternalRoute Json → Type 0
  IsExternal r = IsInt64 r.meta.route_id × (IsPeer r.origination × IsPeer r.destination)

  read_peer :
      (fields : Fields Json) (name : Bytes) (p : Option (NetworkPeer Json))
      → field name fields ≡ or_else (written (peer_to_json lib) p) none
      → IsPeer p
      → optional lib (peer_from_json lib) (of_object (present fields)) name ≡ ok p
  unfolding optional
  read_peer fields name none there keeps =
      rw (find_member-present lib fields name ∙ there, optional) refl
  read_peer fields name (some p) there keeps =
      rw (find_member-present lib fields name ∙ there, optional, peer_from_json-to_json lib p keeps)
        refl

  module _ (source : Source) where
    pub read_meta :
        (fields : Fields Json) (m : RouteMeta) (i : ℕ)
        → field (codes "meta") fields ≡ some (meta_to_json lib m)
        → IsInt64 m.route_id
        → meta_or_new lib source (of_object (present fields)) i ≡ ok (m, i)
    unfolding meta_or_new
    read_meta fields m i there small =
        rw
          (
            find_member-present lib fields (codes "meta") ∙ there,
            meta_or_new,
            meta_from_json-to_json m small,
          )
          refl

    pub external_from_json-to_json :
        (r : SimpleExternalRoute Json) (i : ℕ)
        → IsExternal r
        → external_from_json lib source (external_to_json lib r) i ≡ ok (r, i)
    unfolding external_from_json external_to_json field list_eq
    external_from_json-to_json r i (small, (keeps, keeps')) =
        let fields = external_fields lib r in
        rw
          (
            read_meta fields r.meta i refl small,
            read_peer fields (codes "origination") r.origination refl keeps,
            read_peer fields (codes "destination") r.destination refl keeps',
            read_bool fields (codes "send_content_only") r.send_content_only refl,
            read_int fields (codes "status_code") r.status_code refl,
          )
          refl

    read_base :
        (r : RelayedExternalRoute Json) (i : ℕ)
        → IsExternal r.base
        → base_or_new lib source (relayed_to_json lib r) i ≡ ok (r.base, i)
    unfolding base_or_new relayed_to_json field list_eq
    read_base r i keeps =
        rw (find_member-present lib (relayed_fields lib r) (codes "base"), base_or_new)
          (external_from_json-to_json r.base i keeps)

    pub relayed_from_json-to_json :
        (r : RelayedExternalRoute Json) (i : ℕ)
        → IsExternal r.base
        → IsPeer r.from_peer
        → IsPeer r.to_peer
        → relayed_from_json lib source (relayed_to_json lib r) i ≡ ok (r, i)
    unfolding relayed_from_json relayed_to_json field list_eq
    relayed_from_json-to_json r i keeps from to =
        let fields = relayed_fields lib r in
        rw
          (
            read_base r i keeps,
            read_peer fields (codes "from_peer") r.from_peer refl from,
            read_peer fields (codes "to_peer") r.to_peer refl to,
            read_bool fields (codes "delayed") r.delayed refl,
            read_int fields (codes "min_delay") r.min_delay refl,
            read_int fields (codes "max_delay") r.max_delay refl,
            read_bool fields (codes "copy") r.copy refl,
            read_int fields (codes "min_copies") r.min_copies refl,
            read_int fields (codes "max_copies") r.max_copies refl,
            read_int fields (codes "sensitivity") r.sensitivity refl,
          )
          refl
