-- ===== src/Ipam/Types.antt =====
-- pkg/ipam/types/types.go: the data that the address manager keeps, and the errors it returns.
use hybridnet.Base.{ℕ, Bool, List, Option, String, ℤ}
use hybridnet.Net.{NetIp, Cidr}

-- A Go map with string keys.
abbrev pub Map : Type 0 → Type 0
Map V = List (String × V)

-- The two statuses `IPStatusUsing` and `IPStatusReserved` are texts in the code.
abbrev pub status_using : String
status_using = "Using"

abbrev pub status_reserved : String
status_reserved = "Reserved"

-- `IP`
pub record IpInfo : Type 0 where
  pub address : Cidr
  pub gateway : NetIp
  pub net_id : Option ℕ
  pub subnet : String
  pub network : String
  pub pod_name : String
  pub pod_namespace : String
  pub status : String

abbrev pub IpSet : Type 0
IpSet = Map IpInfo

pub record IpSlice : Type 0 where
  pub ips : List String
  pub ip_count : ℕ
  pub ip_index : ℤ

pub record Usage : Type 0 where
  pub total : ℕ
  pub used : ℕ
  pub available : ℕ
  pub last_allocation : String

pub record Subnet : Type 0 where
  pub name : String
  pub parent_network : String
  pub net_id : Option ℕ
  pub start : NetIp
  pub end : NetIp
  pub cidr : Cidr
  pub gateway : NetIp
  pub reserved_list : List String
  pub black_list : List String
  pub last_allocated_ip : NetIp
  pub is_private : Bool
  pub ipv6 : Bool
  pub available_ips : IpSlice
  pub using_ips : IpSet
  pub reserved_ip_count : ℕ

pub record SubnetSlice : Type 0 where
  pub subnets : List Subnet
  pub subnet_index_map : Map ℕ
  pub subnet_index : ℕ
  pub subnet_count : ℕ

-- `NetworkType`
abbrev pub NetworkType : Type 0
NetworkType = String

pub record Network : Type 0 where
  pub name : String
  pub net_id : Option ℕ
  pub last_allocated_subnet : String
  pub type : NetworkType
  pub subnets : SubnetSlice

abbrev pub NetworkSet : Type 0
NetworkSet = Map Network

-- The errors of the package, by the place that makes them. `getter` is one that a getter returned.
pub data Error : Type 0 where
  no_available_subnet not_found_subnet not_found_assigned_ip not_available_assigned_ip : Error
  not_found_network : Error
  empty_name empty_parent_network invalid_cidr cidr_too_small version_mismatch : Error
  host_bits_set gateway_outside start_outside end_outside : Error
  is_ipv6_family is_ipv4_family mismatched_net_id : Error
  unsupported_family bad_subnets bad_ips no_available_ip : Error
  fail_network fail_subnet fail_assign : Error → Error
  getter : String → Error
