-- ===== src/Ipam/Network.antt =====
-- pkg/ipam/types/network.go: `Network` and `NetworkSet`.
pub mod Records
pub mod Ready
pub mod Families
use hybridnet.Base.{
  ℕ, Bool, true, false, not, ◌&&◌, List, [], ◌∷◌, Option, none, some, String, get_elem?, set, ◌==◌,
  if◌then◌else◌, is_empty, str_eq, add_u32,
}
use hybridnet.Base.Dict
use hybridnet.Base.Outcome.{M, panic, ok, err, fault, ◌>>=◌, ◌>>◌, return, throw, crash, asks, zoom}
use hybridnet.Net.{AddressLib}
use hybridnet.Ipam.Types.{
  IpSet, Subnet, SubnetSlice, Network, NetworkSet, NetworkType, Error, not_found_network,
  is_ipv6_family, is_ipv4_family, mismatched_net_id,
}
use hybridnet.Ipam.Subnet
use hybridnet.Ipam.SubnetSlice

pub new_network : String → Option ℕ → String → NetworkType → Network
new_network name net_id last_allocated_subnet type = record {
  name = name;
  net_id = net_id;
  last_allocated_subnet = last_allocated_subnet;
  type = type;
  subnets = SubnetSlice.new_subnet_slice;
}

-- A method of the network's `Subnets`.
abbrev pub at_slice : {A : Type 0} → M SubnetSlice Error A → M Network Error A
at_slice = zoom (λ n. some n.subnets) (λ s n. record n { subnets = s })

-- A method of the subnet that a `*Subnet` of this network points to.
abbrev pub at_subnet : {A : Type 0} → ℕ → M Subnet Error A → M Network Error A
at_subnet i =
    zoom (λ n. get_elem? n.subnets.subnets i)
      (λ t n. record n { subnets = record n.subnets { subnets = set n.subnets.subnets i t } })

unfoldable pub get_subnet : String → M Network Error ℕ
get_subnet name =
    if is_empty name
    then at_slice SubnetSlice.get_available_subnet
    else at_slice (SubnetSlice.get_subnet name)

unfoldable pub get_ipv4_subnet : String → M Network Error ℕ
unfolding Subnet.is_ipv6
get_ipv4_subnet name = if is_empty name then at_slice SubnetSlice.get_available_ipv4_subnet else do
  i ← at_slice (SubnetSlice.get_subnet name)
  v6 ← at_subnet i (asks Subnet.is_ipv6)
  if v6 then throw is_ipv6_family else return i

pub get_ipv6_subnet : String → M Network Error ℕ
unfolding Subnet.is_ipv6
get_ipv6_subnet name = if is_empty name then at_slice SubnetSlice.get_available_ipv6_subnet else do
  i ← at_slice (SubnetSlice.get_subnet name)
  v6 ← at_subnet i (asks Subnet.is_ipv6)
  if v6 then return i else throw is_ipv4_family

-- The pair that the caller has named, checked in the code's order.
named_pair : String → String → M Network Error (ℕ × ℕ)
unfolding Subnet.is_ipv6 Subnet.unify_net_id
named_pair v4_name v6_name = do
  v4 ← at_slice (SubnetSlice.get_subnet v4_name)
  v4_is_ipv6 ← at_subnet v4 (asks Subnet.is_ipv6)
  if v4_is_ipv6 then throw is_ipv6_family else return tt
  v6 ← at_slice (SubnetSlice.get_subnet v6_name)
  v6_is_ipv6 ← at_subnet v6 (asks Subnet.is_ipv6)
  if v6_is_ipv6 then return tt else throw is_ipv4_family
  v4_id ← at_subnet v4 (asks (λ t. Subnet.unify_net_id t.net_id))
  v6_id ← at_subnet v6 (asks (λ t. Subnet.unify_net_id t.net_id))
  if v4_id == v6_id then return (v4, v6) else throw mismatched_net_id

pub get_paired_dual_stack_subnets : String → String → M Network Error (ℕ × ℕ)
unfolding named_pair
get_paired_dual_stack_subnets v4_name v6_name =
    if not (is_empty v4_name) && not (is_empty v6_name)
    then named_pair v4_name v6_name
    else at_slice SubnetSlice.get_available_paired_dual_stack_subnets

module _ (lib : AddressLib) where
  pub add_subnet : Subnet → IpSet → M Network Error (Unit {0})
  add_subnet subnet ips n =
      at_slice
        (SubnetSlice.add_subnet lib subnet n.net_id ips
          (str_eq subnet.name n.last_allocated_subnet))
        n

  pub get_subnet_by_ip : String → String → M Network Error ℕ
  get_subnet_by_ip name ip =
      if is_empty name
      then at_slice (SubnetSlice.get_subnet_by_ip lib ip)
      else at_slice (SubnetSlice.get_subnet name)

-- `NetworkSet`
abbrev pub new_network_set : NetworkSet
new_network_set = []

abbrev pub refresh_network : String → Network → NetworkSet → NetworkSet
refresh_network name network n = Dict.insert name network n

abbrev pub remove_network : String → NetworkSet → NetworkSet
remove_network name n = Dict.delete name n

-- A method of the network of that name; without one, `missing` is the error.
abbrev pub at_network : {A : Type 0} → Error → String → M Network Error A → M NetworkSet Error A
at_network missing name m s = elim (Dict.lookup name s) [
  | none ↦ err s missing
  | some n ↦ elim (m n) [
    | ok n' a ↦ ok (Dict.insert name n' s) a
    | err n' e ↦ err (Dict.insert name n' s) e
    | fault x ↦ fault x
  ]
]

pub get_networks_by_type : NetworkType → NetworkSet → List String
get_networks_by_type type [] = []
get_networks_by_type type ((name, n) ∷ rest) =
    let names = get_networks_by_type type rest in if str_eq n.type type then name ∷ names else names

pub match_network_type : String → NetworkType → NetworkSet → Bool
match_network_type name type [] = false
match_network_type name type ((other, n) ∷ rest) =
    let found = match_network_type name type rest in
    if str_eq other name then str_eq n.type type else found
