-- ===== src/Webhook/Subnets.antt =====
-- pkg/webhook/validating/subnet.go: the admission of subnets. A request holds the object that the
-- decoder makes of it, or `none` where it fails.
pub mod Fits
pub mod Laws
mod Tests
use hybridnet.Base.{
  ℕ, ◌^◌, Bool, true, false, not, ◌&&◌, ◌||◌, List, [], ◌∷◌, Option, none, some, String, ℤ, pos,
  negsuc, ltb_ℤ, length, str_eq, is_empty, ◌==◌, if◌then◌else◌,
}
use hybridnet.Base.Outcome.{ok, err, fault}
use hybridnet.Net.{NetIp, AddressLib}
use hybridnet.Ipam.Types.{Subnet}
use hybridnet.Ipam.Types
use hybridnet.Ipam.Subnet.{overlap}
use hybridnet.Ipam.Validate.{canonicalize}
use hybridnet.Api.Types.{
  ParseCidr, AddressRange, SubnetConfig, NetworkObject, SubnetObject, get_network_type,
  get_network_mode, is_ipv6_subnet, network_type_underlay, network_type_overlay, network_mode_bgp,
  network_mode_vlan, network_mode_vxlan,
}
use hybridnet.Api.Range.{RangeError, validate_address_range, calculate_capacity, signed64}
use hybridnet.Api.Transform.{transfer_subnet_for_ipam}
use hybridnet.Api.Intersect.{intersect}
use hybridnet.Utils.{deep_equal_string_slice}
use hybridnet.Webhook.Networks.{same_net_id}
use hybridnet.Webhook.Cluster.{
  Got, got, not_found, failed, RemoteSubnet, Cluster, Response, allowed, bad_request,
  internal_error, panicked, denied,
}

pub data Denial : Type 0 where
  no_parent_network parent_not_found no_net_id inconsistent_net_id : Denial
  auto_nat_on_underlay vlan_no_gateway bgp_net_id overlay_net_id : Denial
  bad_range : RangeError → Denial
  ipv6_not_enabled too_many_ips : Denial
  cannot_canonicalize : Types.Error → Denial
  overlaps_subnet overlaps_remote_subnet : String → Denial
  parent_changed net_id_changed start_changed end_changed gateway_changed cidr_changed : Denial
  excluded_changed : Denial
  still_has_ips : Denial

abbrev pub max_subnet_capacity : ℕ
max_subnet_capacity = 2 ^ 16

pub same_int : ℤ → ℤ → Bool
same_int (pos a) (pos b) = a == b
same_int (negsuc a) (negsuc b) = a == b
same_int _ _ = false

-- `subnet.Spec.Config != nil && subnet.Spec.Config.AutoNatOutgoing != nil`
sets_auto_nat : Option SubnetConfig → Bool
sets_auto_nat none = false
sets_auto_nat (some c) = elim c.auto_nat_outgoing [ none ↦ false | some _ ↦ true ]

-- The test of the net IDs of a VLAN subnet and its network.
vlan_net_id : Option ℤ → Option ℤ → Option Denial
unfolding same_int
vlan_net_id none none = some no_net_id
vlan_net_id none (some n) = none
vlan_net_id (some s) none = none
vlan_net_id (some s) (some n) = if same_int s n then none else some inconsistent_net_id

-- The switch on the mode of the parent network; the result is the first denial.
unfoldable pub check_net_id : NetworkObject → SubnetObject → Option Denial
unfolding vlan_net_id sets_auto_nat
check_net_id n s =
    let mode = get_network_mode (some n) in
    if str_eq mode network_mode_vlan
    then elim (vlan_net_id s.net_id n.net_id) [
      | some d ↦ some d
      | none ↦
          if sets_auto_nat s.config
          then some auto_nat_on_underlay
          else if is_empty s.range.gateway
          then some vlan_no_gateway
          else none
    ]
    else if str_eq mode network_mode_bgp
    then elim s.net_id [
      | some _ ↦ some bgp_net_id
      | none ↦ if sets_auto_nat s.config then some auto_nat_on_underlay else none
    ]
    else if str_eq mode network_mode_vxlan
    then elim s.net_id [ some _ ↦ some overlay_net_id | none ↦ none ]
    else none

-- What `Canonicalize` makes of the subnet of an object.
pub data Canonical : Type 0 where
  canonicalized : Subnet → Canonical
  rejected : Types.Error → Canonical
  crashed : Canonical

module _ (lib : AddressLib) (parse_cidr : ParseCidr) where
  -- `TransferSubnetForIPAM` and `Canonicalize`. A nil CIDR is read once the names have been seen.
  unfoldable pub canonical : SubnetObject → Canonical
  canonical o = elim (transfer_subnet_for_ipam lib parse_cidr o) [
    | some t ↦ elim (canonicalize lib t) [
      | ok u _ ↦ canonicalized u
      | err u e ↦ rejected e
      | fault x ↦ crashed
    ]
    | none ↦
        if is_empty o.name
        then rejected Types.empty_name
        else if is_empty o.network
        then rejected Types.empty_parent_network
        else crashed
  ]

  -- The loop over the existing subnets; `none` is a panic.
  unfoldable pub overlapping : Subnet → List SubnetObject → Option (Option String)
  unfolding canonical
  overlapping t [] = some none
  overlapping t (o ∷ os) =
      let rest = overlapping t os in
      elim (canonical o) [
        | canonicalized u ↦ if overlap lib u t then some (some u.name) else rest
        | rejected e ↦ rest
        | crashed ↦ none
      ]

  -- The loop over the subnets of remote clusters; `none` is a panic, or a loop that does not end.
  unfoldable pub intersecting : AddressRange → List RemoteSubnet → Option (Option String)
  intersecting r [] = some none
  intersecting r (q ∷ qs) =
      let rest = intersecting r qs in
      elim (intersect lib parse_cidr r q.range) [
        | none ↦ none
        | some true ↦ some (some q.name)
        | some false ↦ rest
      ]

  check_remote : SubnetObject → Got (List RemoteSubnet) → Response Denial
  unfolding intersecting
  check_remote s (got qs) = elim (intersecting s.range qs) [
    | none ↦ panicked
    | some (some name) ↦ denied (overlaps_remote_subnet name)
    | some none ↦ allowed
  ]
  check_remote s not_found = internal_error
  check_remote s (failed e) = internal_error

  check_existing : Cluster → SubnetObject → Subnet → Got (List SubnetObject) → Response Denial
  unfolding check_remote overlapping
  check_existing k s t (got os) = elim (overlapping t os) [
    | none ↦ panicked
    | some (some name) ↦ denied (overlaps_subnet name)
    | some none ↦ if k.multi_cluster then check_remote s k.remote_subnets else allowed
  ]
  check_existing k s t not_found = internal_error
  check_existing k s t (failed e) = internal_error

  check_overlap : Cluster → SubnetObject → Response Denial
  unfolding check_existing canonical
  check_overlap k s = elim (canonical s) [
    | canonicalized t ↦ check_existing k s t k.subnets
    | rejected e ↦ denied (cannot_canonicalize e)
    | crashed ↦ panicked
  ]

  check_capacity : Cluster → SubnetObject → Response Denial
  unfolding check_overlap
  check_capacity k s = elim (calculate_capacity lib parse_cidr s.range) [
    | none ↦ panicked
    | some w ↦
        if ltb_ℤ (pos max_subnet_capacity) (signed64 w)
        then denied too_many_ips
        else check_overlap k s
  ]

  check_new : Cluster → NetworkObject → SubnetObject → Response Denial
  unfolding check_capacity check_net_id
  check_new k n s = elim (check_net_id n s) [
    | some d ↦ denied d
    | none ↦ elim (validate_address_range lib parse_cidr s.range) [
      | some e ↦ denied (bad_range e)
      | none ↦
          if not k.dual_stack && is_ipv6_subnet parse_cidr (some s)
          then denied ipv6_not_enabled
          else check_capacity k s
    ]
  ]

  -- `SubnetCreateValidation`
  pub subnet_create_validation : Cluster → Option SubnetObject → Response Denial
  unfolding check_new
  subnet_create_validation k none = bad_request
  subnet_create_validation k (some s) =
      if is_empty s.network then denied no_parent_network else elim (k.network s.network) [
        | not_found ↦ denied parent_not_found
        | failed e ↦ internal_error
        | got n ↦ check_new k n s
      ]

  -- The tests of a changed range, in the code's order.
  check_unchanged : AddressRange → AddressRange → Response Denial
  unfolding deep_equal_string_slice
  check_unchanged old new =
      if not (str_eq old.start new.start)
      then denied start_changed
      else if not (str_eq old.end new.end)
      then denied end_changed
      else if not (str_eq old.gateway new.gateway)
      then denied gateway_changed
      else if not (str_eq old.cidr new.cidr)
      then denied cidr_changed
      else if not (deep_equal_string_slice old.exclude_ips new.exclude_ips)
      then denied excluded_changed
      else allowed

  check_changed_range : SubnetObject → SubnetObject → Response Denial
  unfolding check_unchanged
  check_changed_range old new = elim (validate_address_range lib parse_cidr new.range) [
    | some e ↦ denied (bad_range e)
    | none ↦ check_unchanged old.range new.range
  ]

  check_changed : NetworkObject → SubnetObject → SubnetObject → Response Denial
  unfolding check_changed_range sets_auto_nat
  check_changed n old new =
      let type = get_network_type (some n) in
      if str_eq type network_type_underlay
      then (if not (same_net_id old.net_id new.net_id)
          then denied net_id_changed
          else if sets_auto_nat new.config
          then denied auto_nat_on_underlay
          else check_changed_range old new)
      else if str_eq type network_type_overlay
      then elim new.net_id [ some _ ↦ denied overlay_net_id | none ↦ check_changed_range old new ]
      else check_changed_range old new

  -- `SubnetUpdateValidation`, on the old and the new object.
  pub subnet_update_validation :
      Cluster → Option SubnetObject → Option SubnetObject → Response Denial
  unfolding check_changed
  subnet_update_validation k old none = bad_request
  subnet_update_validation k none (some new) = bad_request
  subnet_update_validation k (some old) (some new) =
      if not (str_eq old.network new.network)
      then denied parent_changed
      else elim (k.network new.network) [
        | got n ↦ check_changed n old new
        | not_found ↦ internal_error
        | failed e ↦ internal_error
      ]

-- The addresses of the subnet that are still there.
check_deletion : Got (List String) → Response Denial
check_deletion (got []) = allowed
check_deletion (got (ip ∷ ips)) = denied still_has_ips
check_deletion not_found = internal_error
check_deletion (failed e) = internal_error

-- `SubnetDeleteValidation`, on the name of the request.
pub subnet_delete_validation : Cluster → String → Response Denial
unfolding check_deletion
subnet_delete_validation k name = elim (k.subnet name) [
  | got s ↦ check_deletion (k.ip_instances s.name)
  | not_found ↦ bad_request
  | failed e ↦ bad_request
]
