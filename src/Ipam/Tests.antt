-- ===== src/Ipam/Tests.antt =====
-- Concrete data, tests and instances of the theorems of pkg/ipam.
use hybridnet.Base.{
  ◌⊎◌, inr, true, List, contains, is_empty, subst, zero, suc, ℕ, ◌<◌, ◌≡◌, refl, [], ◌∷◌, some,
  String, get_elem?, arith,
}
use hybridnet.Base.Dict.{lookup}
use hybridnet.Base.Outcome.Ends.{Ends}
use hybridnet.Ipam.Types.{IpInfo, Subnet, SubnetSlice, Network, NetworkSet}
use hybridnet.Ipam.Subnet.Tests.{toy, small, small-IsSynced}
use hybridnet.Ipam.SubnetSlice
use hybridnet.Ipam.Allocator
use hybridnet.Ipam.Subnet.Invariant.{IsSynced}
use hybridnet.Ipam.SubnetSlice.Available.{IsCounted, SearchAs, get_available_subnet-SearchAs}
use hybridnet.Ipam.Network.Ready.{IsReady, AllReady, Changed}
use hybridnet.Ipam.Allocator.Safety.{GaveOut, allocate-Ends}
use hybridnet.Base.Outcome.{Fault, ok, fault, left_by}
use hybridnet.Base.{◌≢◌}
use hybridnet.Ipam.Allocator.Returns.{TookBack, release-Ends}
use hybridnet.Ipam.DualStack
use hybridnet.Ipam.DualStack.Recovery.{TookAll, release-Recovers}
use hybridnet.Ipam.DualStack.Supply.{GaveAll, allocate-Supplies}
use hybridnet.Ipam.Family.{ipv4_only}
use hybridnet.Ipam.Allocator.Calls.{Call, allocate_call, release_call, pool, serve_all, Explains}
use hybridnet.Ipam.Allocator.Refines.{serve_all-Explains}
use hybridnet.Ipam.Allocator.Reuse.{allocate-release}
use hybridnet.Ipam.Allocator.Finds.{HasFree, allocate-Finds}
use mathlib.Core.List.{map}
use hybridnet.Ipam.Allocator.Histories.{unchanged, allocated, Served-safe}

abbrev slice : SubnetSlice
slice = record {
  subnets = small ∷ [];
  subnet_index_map = ("s1", 0) ∷ [];
  subnet_index = 0;
  subnet_count = 1;
}

slice-IsCounted : IsCounted slice
slice-IsCounted = record { counted = refl; cursor = λ h. h }

get_available_subnet-SearchAs_example : SearchAs slice 0 (SubnetSlice.get_available_subnet slice)
get_available_subnet-SearchAs_example = get_available_subnet-SearchAs slice slice-IsCounted

abbrev pub net : Network
net = record {
  name = "n1";
  net_id = some 7;
  last_allocated_subnet = "";
  type = "Underlay";
  subnets = slice;
}

net_indexed : (name : String) (i : ℕ) → lookup name slice.subnet_index_map ≡ some i → i < 1
unfolding lookup
net_indexed name i e = ground (arith, e)

net-IsSynced : (i : ℕ) (t : Subnet) → get_elem? slice.subnets i ≡ some t → IsSynced t
net-IsSynced zero t e = let q : small ≡ t = cc in subst IsSynced q small-IsSynced
net-IsSynced (suc i) t e = cc

net-IsReady : IsReady net
net-IsReady = record { counted = slice-IsCounted; indexed = net_indexed; synced = net-IsSynced }

abbrev pub nets : NetworkSet
nets = ("n1", net) ∷ []

pub nets-AllReady : AllReady nets
unfolding lookup
nets-AllReady name n e = let q : net ≡ n = ground (arith, e) in subst IsReady q net-IsReady

allocate-Ends_example :
    Ends AllReady
      (λ s c. AllReady s × Changed (GaveOut toy "pod" "ns") "n1" nets s c)
      (Allocator.allocate toy "n1" "" "pod" "ns" nets)
allocate-Ends_example = allocate-Ends toy "pod" "ns" "n1" "" nets nets-AllReady

release-Ends_example :
    Ends AllReady
      (λ s x. AllReady s × Changed (TookBack "10.0.0.2") "n1" nets s x)
      (Allocator.release "n1" "s1" "10.0.0.2" nets)
release-Ends_example = release-Ends "10.0.0.2" "n1" "s1" nets nets-AllReady

abbrev served : NetworkSet
served = left_by nets (Allocator.allocate toy "n1" "" "pod" "ns" nets)

Served-safe_example :
    AllReady served
    × ((network subnet pod_name pod_namespace : String) (x : Fault)
        → Allocator.allocate toy network subnet pod_name pod_namespace served ≢ fault x)
    × ((network subnet ip : String) (x : Fault)
        → Allocator.release network subnet ip served ≢ fault x)
Served-safe_example =
    Served-safe toy nets nets-AllReady served (allocated "n1" "" "pod" "ns" nets unchanged)

release-Recovers_example :
    Ends AllReady
      (λ s x. AllReady s × Changed (λ n m x. TookAll ("10.0.0.2" ∷ []) n m) "n1" nets s x)
      (DualStack.release ipv4_only "n1" ("s1" ∷ []) ("10.0.0.2" ∷ []) nets)
release-Recovers_example =
    release-Recovers ipv4_only "n1" ("s1" ∷ []) ("10.0.0.2" ∷ []) nets nets-AllReady

allocate-Supplies_example :
    Ends AllReady
      (λ s cs. AllReady s × Changed (λ n m cs. GaveAll toy "pod" "ns" cs n m) "n1" nets s cs)
      (DualStack.allocate toy ipv4_only "n1" [] "pod" "ns" nets)
allocate-Supplies_example = allocate-Supplies toy "pod" "ns" ipv4_only "n1" [] nets nets-AllReady

-- Two pods, and the address of the first is given back.
abbrev calls : List Call
calls =
    allocate_call "n1" "" "pod" "ns"
    ∷ allocate_call "n1" "s1" "pod2" "ns"
    ∷ release_call "n1" "s1" "10.0.0.2"
    ∷ []

serve_all-Explains_example :
    let (log, t) = serve_all toy calls nets in
    (map (λ x. x.0) log ≡ calls) × Explains (pool nets) log (pool t)
serve_all-Explains_example = serve_all-Explains toy calls nets nets-AllReady

nets_n1 : lookup "n1" nets ≡ some net
unfolding lookup
nets_n1 = refl

net_s1 : lookup "s1" slice.subnet_index_map ≡ some 0
unfolding lookup
net_s1 = refl

small-HasFree : HasFree net 0 small
unfolding contains
small-HasFree = record { there = refl; ip = "10.0.0.2"; available = refl; unused = refl }

allocate-Finds_example :
    (s' : NetworkSet) × (c : IpInfo) × (j : ℕ) × (u : Subnet) × (Allocator.allocate toy "n1" ""
        "pod" "ns" nets
      ≡ ok s' c)
    × (get_elem? slice.subnets j ≡ some u)
    × (c.subnet ≡ u.name)
    × ((j ≡ 0) ⊎ (is_empty "" ≡ true))
allocate-Finds_example =
    allocate-Finds toy "pod" "ns" nets nets-AllReady "n1" net nets_n1 0 small small-HasFree ""
      (inr (refl, refl))

allocate-release_example :
    (s' : NetworkSet) × (s'' : NetworkSet) × (c : IpInfo) × (Allocator.release "n1" "s1" "10.0.0.2"
        nets
      ≡ ok s' tt)
    × (Allocator.allocate toy "n1" "s1" "pod" "ns" s' ≡ ok s'' c)
    × (c.subnet ≡ "s1")
unfolding contains
allocate-release_example =
    allocate-release nets nets-AllReady "n1" net nets_n1 "s1" 0 small refl net_s1 refl "10.0.0.2"
      toy "pod" "ns" refl
