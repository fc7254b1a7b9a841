-- ===== src/Webhook/Networks.antt =====
-- pkg/webhook/validating/network.go: the admission of networks. A request holds the object that the
-- decoder makes of it, or `none` where it fails.
pub mod Laws
mod Tests
pub mod Overlay
use hybridnet.Base.{
  ℕ, Bool, true, false, not, ◌&&◌, ◌||◌, List, [], ◌∷◌, Option, none, some, String, ℤ, pos, negsuc,
  length, str_eq, ltb, ◌==◌, if◌then◌else◌,
}
use hybridnet.Net.{NetIp, AddressLib}
use hybridnet.Api.Types.{
  BgpPeer, NetworkConfig, NetworkObject, SubnetObject, get_network_type, get_network_mode,
  network_type_underlay, network_type_overlay, network_mode_bgp, network_mode_vlan,
  network_mode_vxlan,
}
use hybridnet.Webhook.Cluster.{
  Got, got, not_found, failed, Cluster, Response, allowed, bad_request, internal_error, panicked,
  denied,
}

pub data Denial : Type 0 where
  no_node_selector second_overlay overlay_node_selector overlay_no_net_id unknown_type : Denial
  bgp_not_underlay bgp_no_net_id bgp_not_one_peer bgp_bad_peer_address bgp_peer_no_asn : Denial
  vlan_not_underlay vxlan_not_overlay unknown_mode : Denial
  type_changed mode_changed net_id_changed : Denial
  still_has_subnet : String → Denial
  still_has_remote_clusters : Denial

unfoldable pub has_overlay : List NetworkObject → Bool
has_overlay [] = false
has_overlay (n ∷ ns) = str_eq (get_network_type (some n)) network_type_overlay || has_overlay ns

unfoldable pub no_selector : NetworkObject → Bool
no_selector n = length n.node_selector == 0

unfoldable pub has_no_net_id : NetworkObject → Bool
has_no_net_id n = elim n.net_id [ none ↦ true | some _ ↦ false ]

is_zero : ℤ → Bool
is_zero (pos n) = n == 0
is_zero (negsuc n) = false

-- Whether two optional numbers are equal (`reflect.DeepEqual`).
unfoldable pub same_net_id : Option ℤ → Option ℤ → Bool
same_net_id none none = true
same_net_id (some (pos a)) (some (pos b)) = a == b
same_net_id (some (negsuc a)) (some (negsuc b)) = a == b
same_net_id _ _ = false

module _ (lib : AddressLib) where
  open lib use {parse_ip}

  -- The loop over the peers of a new network.
  check_peers : List BgpPeer → Response Denial
  unfolding is_zero
  check_peers [] = allowed
  check_peers (p ∷ ps) =
      let rest = check_peers ps in
      elim (parse_ip p.address) [
        | none ↦ denied bgp_bad_peer_address
        | some _ ↦ if is_zero p.asn then denied bgp_peer_no_asn else rest
      ]

  check_bgp_config : Option NetworkConfig → Response Denial
  unfolding check_peers
  check_bgp_config none = denied bgp_not_one_peer
  check_bgp_config (some c) =
      if not (length c.bgp_peers == 1) then denied bgp_not_one_peer else check_peers c.bgp_peers

  -- The switch on the mode of a new network.
  check_mode : NetworkObject → Response Denial
  unfolding check_bgp_config has_no_net_id
  check_mode n =
      let type = get_network_type (some n) in
      let mode = get_network_mode (some n) in
      if str_eq mode network_mode_bgp
      then (if not (str_eq type network_type_underlay)
          then denied bgp_not_underlay
          else if has_no_net_id n
          then denied bgp_no_net_id
          else check_bgp_config n.config)
      else if str_eq mode network_mode_vlan
      then (if not (str_eq type network_type_underlay) then denied vlan_not_underlay else allowed)
      else if str_eq mode network_mode_vxlan
      then (if not (str_eq type network_type_overlay) then denied vxlan_not_overlay else allowed)
      else denied unknown_mode

  pub check_new_overlay : NetworkObject → Got (List NetworkObject) → Response Denial
  unfolding check_mode has_overlay no_selector has_no_net_id
  check_new_overlay n not_found = internal_error
  check_new_overlay n (failed e) = internal_error
  check_new_overlay n (got networks) =
      if has_overlay networks
      then denied second_overlay
      else if not (no_selector n)
      then denied overlay_node_selector
      else if has_no_net_id n
      then denied overlay_no_net_id
      else check_mode n

  -- `NetworkCreateValidation`
  pub network_create_validation : Cluster → Option NetworkObject → Response Denial
  unfolding check_new_overlay check_mode no_selector
  network_create_validation k none = bad_request
  network_create_validation k (some n) =
      let type = get_network_type (some n) in
      if str_eq type network_type_underlay
      then (if no_selector n then denied no_node_selector else check_mode n)
      else if str_eq type network_type_overlay
      then check_new_overlay n k.networks
      else denied unknown_type

  -- The loop over the peers of a changed network.
  check_addresses : List BgpPeer → Response Denial
  check_addresses [] = allowed
  check_addresses (p ∷ ps) =
      let rest = check_addresses ps in
      elim (parse_ip p.address) [ none ↦ denied bgp_bad_peer_address | some _ ↦ rest ]

  -- A network without a config is a panic here.
  check_changed_bgp : Option NetworkConfig → Response Denial
  unfolding check_addresses
  check_changed_bgp none = panicked
  check_changed_bgp (some c) =
      if not (length c.bgp_peers == 1) then denied bgp_not_one_peer else check_addresses c.bgp_peers

  check_changed_mode : NetworkObject → Response Denial
  unfolding check_changed_bgp
  check_changed_mode n =
      let mode = get_network_mode (some n) in
      if str_eq mode network_mode_bgp
      then check_changed_bgp n.config
      else if str_eq mode network_mode_vlan
      then allowed
      else if str_eq mode network_mode_vxlan
      then allowed
      else denied unknown_mode

  then_net_id : NetworkObject → NetworkObject → Response Denial → Response Denial
  unfolding same_net_id
  then_net_id old new allowed =
      if not (same_net_id old.net_id new.net_id) then denied net_id_changed else allowed
  then_net_id old new r = r

  check_update : NetworkObject → NetworkObject → Response Denial
  unfolding check_changed_mode then_net_id
  check_update old new =
      if not (str_eq old.mode new.mode)
      then denied mode_changed
      else then_net_id old new (check_changed_mode new)

  -- `NetworkUpdateValidation`, on the old and the new object.
  pub network_update_validation : Option NetworkObject → Option NetworkObject → Response Denial
  unfolding check_update no_selector
  network_update_validation old none = bad_request
  network_update_validation none (some new) = bad_request
  network_update_validation (some old) (some new) =
      let type = get_network_type (some new) in
      if not (str_eq (get_network_type (some old)) type)
      then denied type_changed
      else if str_eq type network_type_underlay
      then (if no_selector new then denied no_node_selector else check_update old new)
      else if str_eq type network_type_overlay
      then (if not (no_selector new) then denied overlay_node_selector else check_update old new)
      else denied unknown_type

-- The loop over all subnets.
child_subnet : String → List SubnetObject → Option String
child_subnet network [] = none
child_subnet network (s ∷ ss) =
    let rest = child_subnet network ss in if str_eq s.network network then some s.name else rest

check_remote_clusters : Got (List String) → Response Denial
check_remote_clusters (got []) = allowed
check_remote_clusters (got (_ ∷ _)) = denied still_has_remote_clusters
check_remote_clusters not_found = internal_error
check_remote_clusters (failed e) = internal_error

check_deletion : Cluster → NetworkObject → Got (List SubnetObject) → Response Denial
unfolding child_subnet check_remote_clusters
check_deletion k n (got subnets) = elim (child_subnet n.name subnets) [
  | some s ↦ denied (still_has_subnet s)
  | none ↦
      if str_eq n.type network_type_overlay && k.multi_cluster
      then check_remote_clusters k.remote_clusters
      else allowed
]
check_deletion k n not_found = internal_error
check_deletion k n (failed e) = internal_error

-- `NetworkDeleteValidation`, on the name of the request.
pub network_delete_validation : Cluster → String → Response Denial
unfolding check_deletion
network_delete_validation k name = elim (k.network name) [
  | got n ↦ check_deletion k n k.subnets
  | not_found ↦ bad_request
  | failed e ↦ bad_request
]
