-- ===== src/Network/Make.antt =====
-- The constructor of class NetworkPeer and WithCredentials.
use ra_common_cpp.Base.{[], ◌≡◌, refl, Option, none, Bytes, ok}
use ra_common_cpp.Std.Json.{JsonLibrary}
use ra_common_cpp.Identity.{Did}
use ra_common_cpp.Identity.Json.{default_key, default_did}
use ra_common_cpp.Identity.Make.{with_username}
use ra_common_cpp.Network.{Network, NetworkPeer}
use ra_common_cpp.Network.Json.{peer_to_json, peer_from_json, peer_from_json-to_json}

unfoldable pub new_peer : {Json : Type 0} → Network → Did Json → NetworkPeer Json
new_peer network did = record {
  network_value = network;
  did = did;
  id = none;
  port = none;
  services = [];
}

module _ {Json : Type 0} (lib : JsonLibrary Json) where
  unfoldable pub with_credentials : Network → Bytes → Option Bytes → NetworkPeer Json
  unfolding new_peer with_username
  with_credentials network username passphrase =
      new_peer network (record (with_username lib username) { passphrase = passphrase })

  -- A peer that is made with credentials is read back from its text, the passphrase included.
  pub peer_from_json-with_credentials :
      (network : Network) (username : Bytes) (passphrase : Option Bytes)
      → peer_from_json lib (peer_to_json lib (with_credentials network username passphrase))
        ≡ ok (with_credentials network username passphrase)
  unfolding with_credentials default_did default_key with_username new_peer
  peer_from_json-with_credentials network username passphrase =
      peer_from_json-to_json lib (with_credentials network username passphrase) ((λ e. refl), tt)
