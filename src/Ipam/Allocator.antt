-- ===== src/Ipam/Allocator.antt =====
-- pkg/ipam/allocator/allocator.go: `Allocator`. Its state is the network set; each method runs under
-- the allocator's lock, and so is one step. The getters (allocator/types.go) are the caller's.
pub mod Safety
pub mod Returns
pub mod Histories
pub mod Pool
pub mod Moves
pub mod Calls
pub mod Refines
pub mod Finds
pub mod Reuse
use hybridnet.Base.{Bool, List, [], ◌∷◌, Option, none, some, String, is_empty}
use hybridnet.Base.Outcome.{
  M, panic, ok, err, fault, ◌>>=◌, ◌>>◌, return, throw, crash, asks, modify, wrap_err,
}
use hybridnet.Net.{AddressLib}
use hybridnet.Ipam.Types.{
  Map, IpInfo, IpSet, Usage, Subnet, Network, NetworkSet, Error, not_found_network, fail_network,
  fail_subnet, fail_assign, no_available_ip, getter,
}
use hybridnet.Ipam.Subnet
use hybridnet.Ipam.Network
use hybridnet.Ipam.Network.{at_network, at_subnet}
use hybridnet.Ipam.Report

-- What a getter returns: a value, or an error of the store behind it.
pub data Got (A : Type 0) : Type 0 where
  got : A → Got A
  failed : String → Got A

pub record Getters : Type 0 where
  pub network_getter : String → Got (Option Network)
  pub subnet_getter : String → Got (List Subnet)
  pub ip_set_getter : String → Got IpSet

pub lift : {S A : Type 0} → Got A → M S Error A
lift (got a) = return a
lift (failed e) = throw (getter e)

-- The result of a report; `none` is its panic.
abbrev pub report : {S A : Type 0} → Option A → M S Error A
report none = crash panic
report (some a) = return a

module _ (lib : AddressLib) (g : Getters) where
  open g use {network_getter, subnet_getter, ip_set_getter}

  -- The loop over the subnets of a network under refresh.
  add_subnets : List Subnet → M Network Error (Unit {0})
  add_subnets [] = return tt
  add_subnets (t ∷ ts) = do
    ips ← lift (ip_set_getter t.name)
    Network.add_subnet lib t ips
    add_subnets ts

  -- The network is built apart, and stored when all has gone well.
  store_network : String → Network → M NetworkSet Error (Unit {0})
  unfolding add_subnets
  store_network name n set =
      elim ((do subnets ← lift (subnet_getter name); add_subnets subnets) n) [
        | ok n' _ ↦ ok (Network.refresh_network name n' set) tt
        | err _ e ↦ err set e
        | fault x ↦ fault x
      ]

  pub refresh_network : String → M NetworkSet Error (Unit {0})
  unfolding store_network lift
  refresh_network name set = elim (network_getter name) [
    | failed e ↦ err set (getter e)
    | got none ↦ ok (Network.remove_network name set) tt
    | got (some n) ↦ store_network name n set
  ]

  pub refresh : List String → M NetworkSet Error (Unit {0})
  refresh [] = return tt
  refresh (name ∷ names) = do refresh_network name; refresh names

  -- `NewAllocator`: the new allocator, if the first refresh succeeds.
  pub new_allocator : List String → M NetworkSet Error (Unit {0})
  new_allocator names _ = refresh names Network.new_network_set

-- `fail to get network`
abbrev pub missing_network : Error
missing_network = fail_network not_found_network

-- The address that `AllocateNext` found; nil is the error.
abbrev pub found : {S : Type 0} → Option IpInfo → M S Error IpInfo
found none = throw no_available_ip
found (some ip) = return ip

module _ (lib : AddressLib) where
  pub allocate : String → String → String → String → M NetworkSet Error IpInfo
  allocate network subnet pod_name pod_namespace = at_network missing_network network (do
    i ← wrap_err fail_subnet (Network.get_subnet subnet)
    ip ← at_subnet i (Subnet.allocate_next lib pod_name pod_namespace)
    found ip)

  pub assign :
      String → String → String → String → String → Bool → M NetworkSet Error (Option IpInfo)
  assign network subnet pod_name pod_namespace ip forced = at_network missing_network network (do
    i ← wrap_err fail_subnet (Network.get_subnet_by_ip lib subnet ip)
    wrap_err fail_assign (at_subnet i (Subnet.assign lib pod_name pod_namespace ip forced)))

pub release : String → String → String → M NetworkSet Error (Unit {0})
release network subnet ip = at_network missing_network network (do
  i ← wrap_err fail_subnet (Network.get_subnet subnet)
  at_subnet i (modify (Subnet.release ip)))

pub usage : String → M NetworkSet Error (Usage × Map Usage)
usage network = at_network missing_network network (do u ← asks Report.network_usage; report u)

pub subnet_usage : String → String → M NetworkSet Error Usage
subnet_usage network subnet = at_network missing_network network (do
  i ← wrap_err fail_subnet (Network.get_subnet subnet)
  at_subnet i (do u ← asks Subnet.usage; report u))

pub get_networks_by_type : String → NetworkSet → List String
get_networks_by_type = Network.get_networks_by_type

pub match_network_type : String → String → NetworkSet → Bool
match_network_type = Network.match_network_type
