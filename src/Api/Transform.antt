-- ===== src/Api/Transform.antt =====
-- pkg/utils/transform/ipam.go and pkg/utils/slice.go: the objects of the API as the address manager
-- takes them. The IPNet of a CIDR that does not parse is nil, and so is the result here `none`.
use hybridnet.Base.{
  ℕ, List, [], ◌∷◌, Option, none, some, String, ℤ, to_u32, contains, if◌then◌else◌,
}
use hybridnet.Net.{AddressLib}
use hybridnet.Ipam.Types.{Subnet, Network, NetworkType}
use hybridnet.Ipam.Subnet.{new_subnet}
use hybridnet.Ipam.Network.{new_network}
use hybridnet.Ipam.Family.{parse_network_type_from_string}
use hybridnet.Api.Types.{
  SubnetObject, NetworkObject, ParseCidr, is_private_subnet, is_ipv6_subnet, get_network_type,
}

-- `StringSliceToMap`: the keys of the map, each once.
unfoldable pub string_slice_to_map : List String → List String
string_slice_to_map [] = []
string_slice_to_map (k ∷ ks) =
    let rest = string_slice_to_map ks in if contains k rest then rest else k ∷ rest

pub int32p_to_uint32p : Option ℤ → Option ℕ
int32p_to_uint32p none = none
int32p_to_uint32p (some n) = some (to_u32 n)

unfoldable pub transfer_subnet_for_ipam : AddressLib → ParseCidr → SubnetObject → Option Subnet
unfolding int32p_to_uint32p string_slice_to_map
transfer_subnet_for_ipam lib parse_cidr o = elim (parse_cidr o.range.cidr) [
  | none ↦ none
  | some (_, cidr) ↦ some (
      new_subnet o.name o.network (int32p_to_uint32p o.net_id) (lib.parse_ip o.range.start)
        (lib.parse_ip o.range.end) (lib.parse_ip o.range.gateway) cidr
        (string_slice_to_map o.range.reserved_ips) (string_slice_to_map o.range.exclude_ips)
        (lib.parse_ip o.last_allocated_ip) (is_private_subnet (some o))
        (is_ipv6_subnet parse_cidr (some o)))
]

-- The type of the network goes through ParseNetworkTypeFromString, which may read the environment.
pub transfer_network_for_ipam :
    (String → String) → NetworkObject → Option NetworkType → Network × Option NetworkType
unfolding int32p_to_uint32p
transfer_network_for_ipam getenv o from_env =
    let (type, kept) = parse_network_type_from_string getenv (get_network_type (some o)) from_env in
    (new_network o.name (int32p_to_uint32p o.net_id) o.status.last_allocated_subnet type, kept)
