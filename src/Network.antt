-- ===== src/Network.antt =====
-- include/ra_common/network.hpp: networks and peers.
pub mod Json
pub mod Make
pub mod Peers
use ra_common_cpp.Base.{
  Bool, true, false, not, List, [], ◌∷◌, ◌++◌, Option, none, some, Bytes, codes, list_eq,
  if◌then◌else◌,
}
use ra_common_cpp.Std.Numbers.{ℤ}
use ra_common_cpp.Identity.{Did, option_eq}

pub data Network : Type 0 where
  card nfc http tor i2p wi_fi bluetooth satellite fs_radio li_fi : Network

unfoldable pub network_to_string : Network → Bytes
network_to_string Network.card = codes "Card"
network_to_string Network.nfc = codes "Nfc"
network_to_string Network.http = codes "Http"
network_to_string Network.tor = codes "Tor"
network_to_string Network.i2p = codes "I2p"
network_to_string Network.wi_fi = codes "WiFi"
network_to_string Network.bluetooth = codes "Bluetooth"
network_to_string Network.satellite = codes "Satellite"
network_to_string Network.fs_radio = codes "FsRadio"
network_to_string Network.li_fi = codes "LiFi"

unfoldable pub network_from_string : Bytes → Network
network_from_string s =
    if list_eq s (codes "Card")
    then Network.card
    else if list_eq s (codes "Nfc")
    then Network.nfc
    else if list_eq s (codes "Tor")
    then Network.tor
    else if list_eq s (codes "I2p")
    then Network.i2p
    else if list_eq s (codes "WiFi")
    then Network.wi_fi
    else if list_eq s (codes "Bluetooth")
    then Network.bluetooth
    else if list_eq s (codes "Satellite")
    then Network.satellite
    else if list_eq s (codes "FsRadio")
    then Network.fs_radio
    else if list_eq s (codes "LiFi")
    then Network.li_fi
    else Network.http

pub record NetworkPeer (Json : Type 0) : Type 0 where
  pub network_value : Network
  pub did : Did Json
  pub id : Option Bytes
  pub port : Option ℤ
  pub services : List Bytes

-- The lambda `key` of NetworkPeer::Equals.
unfoldable pub key : {Json : Type 0} → NetworkPeer Json → Option Bytes
key p = elim p.did.public_key.address_value [
  | none ↦ none
  | some address ↦ elim p.did.public_key.fingerprint_value [
    | none ↦ none
    | some fingerprint ↦ some (address ++ b' ' ∷ fingerprint)
  ]
]

unfoldable pub peer_equals : {Json : Type 0} → NetworkPeer Json → NetworkPeer Json → Bool
unfolding key option_eq
peer_equals p other = elim (key p) [ none ↦ false | some a ↦ option_eq (some a) (key other) ]
