-- ===== src/Ipam/DualStack.antt =====
-- pkg/ipam/allocator/dualstack_allocator.go: `DualStackAllocator`. Its state is the network set, as
-- that of `Allocator`, and `Refresh` is the same code.
pub mod Recovery
pub mod Supply
pub mod Debts
pub mod Payments
pub mod Restores
use hybridnet.Base.{
  ℕ, Bool, ◌||◌, List, [], ◌∷◌, Option, none, some, String, is_empty, length, ◌==◌, if◌then◌else◌,
}
use hybridnet.Base.Outcome.{M, panic, ◌>>=◌, ◌>>◌, return, throw, crash, asks, modify, wrap_err}
use hybridnet.Net.{AddressLib}
use hybridnet.Ipam.Types.{
  IpInfo, Usage, Network, NetworkSet, Error, not_found_network, fail_subnet, fail_assign,
  no_available_ip, unsupported_family, bad_subnets, bad_ips,
}
use hybridnet.Ipam.Subnet
use hybridnet.Ipam.Network
use hybridnet.Ipam.Network.{at_network, at_subnet}
use hybridnet.Ipam.Report
use hybridnet.Ipam.Report.{DualUsage}
use hybridnet.Ipam.Family.{IpFamilyMode, ipv4_only, ipv6_only, dual_stack, other}
use hybridnet.Ipam.Allocator
use hybridnet.Ipam.Allocator.{Getters, found, missing_network, report}

-- At most one subnet may be named in a single-family mode; none is "".
one_subnet : List String → M Network Error String
one_subnet [] = return ""
one_subnet (name ∷ []) = return name
one_subnet (_ ∷ _ ∷ _) = throw bad_subnets

two_subnets : List String → M Network Error (String × String)
two_subnets [] = return ("", "")
two_subnets (v4 ∷ v6 ∷ []) = return (v4, v6)
two_subnets (_ ∷ []) = throw bad_subnets
two_subnets (_ ∷ _ ∷ _ ∷ _) = throw bad_subnets

-- Just one address must be named, and not by "".
one_ip : List String → M Network Error String
one_ip (ip ∷ []) = if is_empty ip then throw bad_ips else return ip
one_ip [] = throw bad_ips
one_ip (_ ∷ _ ∷ _) = throw bad_ips

two_ips : List String → M Network Error (String × String)
two_ips (v4 ∷ v6 ∷ []) = if is_empty v4 || is_empty v6 then throw bad_ips else return (v4, v6)
two_ips [] = throw bad_ips
two_ips (_ ∷ []) = throw bad_ips
two_ips (_ ∷ _ ∷ _ ∷ _) = throw bad_ips

module _ (lib : AddressLib) where
  open lib use {ip_string}

  allocate_ipv4_only : List String → String → String → M Network Error (List IpInfo)
  unfolding one_subnet
  allocate_ipv4_only subnets pod_name pod_namespace = do
    name ← one_subnet subnets
    i ← wrap_err fail_subnet (Network.get_ipv4_subnet name)
    candidate ← at_subnet i (Subnet.allocate_next lib pod_name pod_namespace)
    ip ← found candidate
    return (ip ∷ [])

  allocate_ipv6_only : List String → String → String → M Network Error (List IpInfo)
  unfolding one_subnet
  allocate_ipv6_only subnets pod_name pod_namespace = do
    name ← one_subnet subnets
    i ← wrap_err fail_subnet (Network.get_ipv6_subnet name)
    candidate ← at_subnet i (Subnet.allocate_next lib pod_name pod_namespace)
    ip ← found candidate
    return (ip ∷ [])

  -- Without an IPv6 address the IPv4 address is recycled.
  pair_or_recycle : ℕ → IpInfo → Option IpInfo → M Network Error (List IpInfo)
  pair_or_recycle v4 v4_ip none = do
    at_subnet v4 (modify (Subnet.release (ip_string v4_ip.address.ip)))
    throw no_available_ip
  pair_or_recycle v4 v4_ip (some v6_ip) = return (v4_ip ∷ v6_ip ∷ [])

  allocate_pair : String → String → ℕ × ℕ → M Network Error (List IpInfo)
  unfolding pair_or_recycle
  allocate_pair pod_name pod_namespace (v4, v6) = do
    v4_candidate ← at_subnet v4 (Subnet.allocate_next lib pod_name pod_namespace)
    v4_ip ← found v4_candidate
    v6_candidate ← at_subnet v6 (Subnet.allocate_next lib pod_name pod_namespace)
    pair_or_recycle v4 v4_ip v6_candidate

  allocate_dual_stack : List String → String → String → M Network Error (List IpInfo)
  unfolding two_subnets allocate_pair
  allocate_dual_stack subnets pod_name pod_namespace = do
    names ← two_subnets subnets
    pair ← wrap_err fail_subnet (Network.get_paired_dual_stack_subnets names.0 names.1)
    allocate_pair pod_name pod_namespace pair

  unfoldable pub allocate :
      IpFamilyMode → String → List String → String → String → M NetworkSet Error (List IpInfo)
  unfolding allocate_ipv4_only allocate_ipv6_only allocate_dual_stack
  allocate ipv4_only network subnets pod_name pod_namespace =
      at_network not_found_network network (allocate_ipv4_only subnets pod_name pod_namespace)
  allocate ipv6_only network subnets pod_name pod_namespace =
      at_network not_found_network network (allocate_ipv6_only subnets pod_name pod_namespace)
  allocate dual_stack network subnets pod_name pod_namespace =
      at_network not_found_network network (allocate_dual_stack subnets pod_name pod_namespace)
  allocate (other _) network subnets pod_name pod_namespace = throw unsupported_family

  -- `assignIPv4Only` and `assignIPv6Only` are one code, but for the words of their errors.
  assign_single :
      List String → List String → String → String → Bool → M Network Error (List (Option IpInfo))
  unfolding one_subnet one_ip
  assign_single subnets ips pod_name pod_namespace forced = do
    name ← one_subnet subnets
    ip ← one_ip ips
    i ← wrap_err fail_subnet (Network.get_subnet_by_ip lib name ip)
    assigned ←
        wrap_err fail_assign (at_subnet i (Subnet.assign lib pod_name pod_namespace ip forced))
    return (assigned ∷ [])

  assign_ipv4_only :
      List String → List String → String → String → Bool → M Network Error (List (Option IpInfo))
  unfolding assign_single
  assign_ipv4_only = assign_single

  assign_ipv6_only :
      List String → List String → String → String → Bool → M Network Error (List (Option IpInfo))
  unfolding assign_single
  assign_ipv6_only = assign_single

  assign_dual_stack :
      List String → List String → String → String → Bool → M Network Error (List (Option IpInfo))
  unfolding two_subnets two_ips
  assign_dual_stack subnets ips pod_name pod_namespace forced = do
    names ← two_subnets subnets
    pair ← two_ips ips
    v4 ← wrap_err fail_subnet (Network.get_subnet_by_ip lib names.0 pair.0)
    v6 ← wrap_err fail_subnet (Network.get_subnet_by_ip lib names.1 pair.1)
    v4_ip ←
        wrap_err fail_assign (at_subnet v4 (Subnet.assign lib pod_name pod_namespace pair.0 forced))
    v6_ip ←
        wrap_err fail_assign (at_subnet v6 (Subnet.assign lib pod_name pod_namespace pair.1 forced))
    return (v4_ip ∷ v6_ip ∷ [])

  pub assign :
      IpFamilyMode
      → String
      → List String
      → List String
      → String
      → String
      → Bool
      → M NetworkSet Error (List (Option IpInfo))
  unfolding assign_ipv4_only assign_ipv6_only assign_dual_stack
  assign ipv4_only network subnets ips pod_name pod_namespace forced =
      at_network not_found_network network
        (assign_ipv4_only subnets ips pod_name pod_namespace forced)
  assign ipv6_only network subnets ips pod_name pod_namespace forced =
      at_network not_found_network network
        (assign_ipv6_only subnets ips pod_name pod_namespace forced)
  assign dual_stack network subnets ips pod_name pod_namespace forced =
      at_network not_found_network network
        (assign_dual_stack subnets ips pod_name pod_namespace forced)
  assign (other _) network subnets ips pod_name pod_namespace forced = throw unsupported_family

-- Just one subnet and one address.
unfoldable pub release_ip : List String → List String → M Network Error (Unit {0})
release_ip (name ∷ []) (ip ∷ []) = do
  i ← wrap_err fail_subnet (Network.get_subnet name)
  at_subnet i (modify (Subnet.release ip))
release_ip (name ∷ []) _ = throw bad_ips
release_ip _ _ = throw bad_subnets

-- The loop of `releaseIPs`, over two slices of one length.
unfoldable pub release_all : List String → List String → M Network Error (Unit {0})
release_all [] ips = return tt
release_all (name ∷ names) [] = crash panic
release_all (name ∷ names) (ip ∷ ips) = do
  i ← wrap_err fail_subnet (Network.get_subnet name)
  at_subnet i (modify (Subnet.release ip))
  release_all names ips

unfoldable pub release_ips : List String → List String → M Network Error (Unit {0})
unfolding release_all
release_ips names ips =
    if length names == length ips then release_all names ips else throw bad_subnets

unfoldable pub release :
    IpFamilyMode → String → List String → List String → M NetworkSet Error (Unit {0})
unfolding release_ip release_ips
release ipv4_only network subnets ips = at_network missing_network network (release_ip subnets ips)
release ipv6_only network subnets ips = at_network missing_network network (release_ip subnets ips)
release dual_stack network subnets ips =
    at_network missing_network network (release_ips subnets ips)
release (other _) network subnets ips = throw unsupported_family

pub usage : String → M NetworkSet Error DualUsage
usage network =
    at_network missing_network network
      (do u ← asks (λ n. Report.dual_stack_usage n.subnets); report u)

pub subnet_usage : String → String → M NetworkSet Error Usage
subnet_usage network subnet = at_network missing_network network (do
  i ← wrap_err fail_subnet (Network.get_subnet subnet)
  at_subnet i (do u ← asks Subnet.usage; report u))

-- These are the code of `Allocator`, line by line.
pub refresh_network : AddressLib → Getters → String → M NetworkSet Error (Unit {0})
refresh_network = Allocator.refresh_network

pub refresh : AddressLib → Getters → List String → M NetworkSet Error (Unit {0})
refresh = Allocator.refresh

pub new_dual_stack_allocator : AddressLib → Getters → List String → M NetworkSet Error (Unit {0})
new_dual_stack_allocator = Allocator.new_allocator

pub get_networks_by_type : String → NetworkSet → List String
get_networks_by_type = Allocator.get_networks_by_type

pub match_network_type : String → String → NetworkSet → Bool
match_network_type = Allocator.match_network_type
