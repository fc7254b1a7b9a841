-- ===== src/Api/Types.antt =====
-- pkg/apis/networking/v1/{types,subnet_types,network_types}.go: the objects, as far as the manager
-- reads them; and of utils.go the defaults of their fields. An int32 is an integer.
use hybridnet.Base.{
  Bool, true, false, List, Option, none, some, String, ℤ, pos, ltb_ℤ, str_eq, is_empty,
  if◌then◌else◌,
}
use hybridnet.Base.Dict.{Dict}
use hybridnet.Net.{NetIp, Cidr, to4}

abbrev pub network_type_underlay : String
network_type_underlay = "Underlay"

abbrev pub network_type_overlay : String
network_type_overlay = "Overlay"

abbrev pub network_mode_bgp : String
network_mode_bgp = "BGP"

abbrev pub network_mode_vlan : String
network_mode_vlan = "VLAN"

abbrev pub network_mode_vxlan : String
network_mode_vxlan = "VXLAN"

abbrev pub version_ipv4 : String
version_ipv4 = "4"

abbrev pub version_ipv6 : String
version_ipv6 = "6"

pub record Count : Type 0 where
  pub total : ℤ
  pub used : ℤ
  pub available : ℤ

pub record AddressRange : Type 0 where
  pub version : String
  pub start : String
  pub end : String
  pub cidr : String
  pub gateway : String
  pub reserved_ips : List String
  pub exclude_ips : List String

pub record SubnetConfig : Type 0 where
  pub gateway_type : String
  pub gateway_node : String
  pub auto_nat_outgoing : Option Bool
  pub private : Option Bool
  pub allow_subnets : List String

-- `Subnet`
pub record SubnetObject : Type 0 where
  pub name : String
  pub range : AddressRange
  pub net_id : Option ℤ
  pub network : String
  pub config : Option SubnetConfig
  pub count : Count
  pub last_allocated_ip : String

pub record BgpPeer : Type 0 where
  pub asn : ℤ
  pub address : String
  pub graceful_restart_seconds : ℤ
  pub password : String

pub record NetworkConfig : Type 0 where
  pub bgp_peers : List BgpPeer

pub record NetworkStatus : Type 0 where
  pub last_allocated_subnet : String
  pub last_allocated_ipv6_subnet : String
  pub subnet_list : List String
  pub node_list : List String
  pub statistics : Option Count
  pub ipv6_statistics : Option Count
  pub dual_stack_statistics : Option Count

-- `Network`
pub record NetworkObject : Type 0 where
  pub name : String
  pub node_selector : Dict String
  pub net_id : Option ℤ
  pub type : String
  pub mode : String
  pub config : Option NetworkConfig
  pub status : NetworkStatus

-- `net.ParseCIDR`: the address as written, and the network of the prefix.
abbrev pub ParseCidr : Type 0
ParseCidr = String → Option (NetIp × Cidr)

-- `ip.To4() == nil`
unfoldable pub is_not_v4 : NetIp → Bool
is_not_v4 none = true
is_not_v4 (some a) = elim (to4 a) [ none ↦ true | some _ ↦ false ]

private_of : Option SubnetConfig → Bool
private_of none = false
private_of (some c) = elim c.private [ none ↦ false | some b ↦ b ]

unfoldable pub is_private_subnet : Option SubnetObject → Bool
unfolding private_of
is_private_subnet none = false
is_private_subnet (some s) = private_of s.config

unfoldable pub is_ipv6_subnet : ParseCidr → Option SubnetObject → Bool
unfolding is_not_v4
is_ipv6_subnet parse_cidr none = false
is_ipv6_subnet parse_cidr (some s) =
    if str_eq s.range.version version_ipv6
    then true
    else elim (parse_cidr s.range.cidr) [ none ↦ false | some (_, cidr) ↦ is_not_v4 cidr.ip ]

unfoldable pub get_network_type : Option NetworkObject → String
get_network_type none = network_type_underlay
get_network_type (some n) = if is_empty n.type then network_type_underlay else n.type

-- An empty mode has a default for each known type.
unfoldable pub get_network_mode : Option NetworkObject → String
unfolding get_network_type
get_network_mode none = network_mode_vlan
get_network_mode (some n) =
    let type = get_network_type (some n) in
    if str_eq type network_type_underlay
    then (if is_empty n.mode then network_mode_vlan else n.mode)
    else if str_eq type network_type_overlay
    then (if is_empty n.mode then network_mode_vxlan else n.mode)
    else n.mode

pub is_subnet_auto_nat_outgoing : Option SubnetConfig → Bool
is_subnet_auto_nat_outgoing none = true
is_subnet_auto_nat_outgoing (some c) = elim c.auto_nat_outgoing [ none ↦ true | some b ↦ b ]

-- `IsAvailable`
unfoldable pub is_count_available : Option Count → Bool
is_count_available none = false
is_count_available (some c) = ltb_ℤ (pos 0) c.available
