-- ===== src/Pods/Allocate.antt =====
-- pkg/controllers/networking/pod_controller.go: `allocate`, `assign`, `multiAssign` and `release`, which
-- join the address manager and the store. Events and metrics are left out.
use hybridnet.Base.{Bool, List, [], ◌∷◌, Option, none, some, String, is_empty, if◌then◌else◌}
use hybridnet.Base.Outcome.{panic, ◌>>=◌, return, crash, on_error, for_each}
use hybridnet.Net.{AddressLib}
use hybridnet.Ipam.Types.{IpInfo}
use hybridnet.Ipam.Family.{IpFamilyMode}
use hybridnet.Ipam.Allocator
use hybridnet.Ipam.DualStack
use hybridnet.Utils.{pick_first_non_empty_string}
use hybridnet.Store.Types.{Pod, value_of}
use hybridnet.Store.Worker
use hybridnet.Store.Worker.Dual
use hybridnet.Pods.Text.{split}
use hybridnet.Pods.World.{Setup, Task, on_networks, on_cluster, read_family}

abbrev pub annotation_ip_family : String
annotation_ip_family = "networking.alibaba.com/ip-family"

abbrev pub annotation_specified_subnet : String
annotation_specified_subnet = "networking.alibaba.com/specified-subnet"

-- `squashIPSliceToIPs` and `squashIPSliceToSubnets`
unfoldable pub squash_ip_slice_to_ips : AddressLib → List IpInfo → List String
squash_ip_slice_to_ips lib [] = []
squash_ip_slice_to_ips lib (ip ∷ ips) = lib.ip_string ip.address.ip ∷ squash_ip_slice_to_ips lib ips

unfoldable pub squash_ip_slice_to_subnets : List IpInfo → List String
squash_ip_slice_to_subnets [] = []
squash_ip_slice_to_subnets (ip ∷ ips) = ip.subnet ∷ squash_ip_slice_to_subnets ips

-- The addresses that `Assign` gave; the store reads through a nil.
unfoldable pub assigned_ips : {S : Type 0} → List (Option IpInfo) → Task S (List IpInfo)
assigned_ips [] = return []
assigned_ips (none ∷ ips) = crash panic
assigned_ips (some ip ∷ ips) = do rest ← assigned_ips ips; return (ip ∷ rest)

unfoldable pub specified_subnet : Pod → String
specified_subnet pod = pick_first_non_empty_string (
    value_of annotation_specified_subnet pod.annotations
    ∷ value_of annotation_specified_subnet pod.labels
    ∷ [])

-- The names of the subnets of a pod; none of an empty text.
unfoldable pub subnet_names : Pod → List String
unfolding specified_subnet split
subnet_names pod = if is_empty (specified_subnet pod) then [] else split "/" (specified_subnet pod)

module _ {S : Type 0} (k : Setup S) where
  -- The deferred calls of Release.
  unfoldable pub release_ips : IpFamilyMode → String → List IpInfo → Task S (Unit {0})
  unfolding squash_ip_slice_to_ips squash_ip_slice_to_subnets
  release_ips mode network ips = on_networks (
      DualStack.release mode network (squash_ip_slice_to_subnets ips)
        (squash_ip_slice_to_ips k.lib ips))

  unfoldable pub release_ip : IpInfo → Task S (Unit {0})
  release_ip ip =
      on_networks (Allocator.release ip.network ip.subnet (k.lib.ip_string ip.address.ip))

  unfoldable pub couple_ips : Pod → List IpInfo → Task S (Unit {0})
  couple_ips pod ips =
      on_cluster (Dual.couple k.client k.lib k.texts k.stateful_workload_kinds pod ips k.mac)

  unfoldable pub couple_ip : Pod → IpInfo → Task S (Unit {0})
  couple_ip pod ip =
      on_cluster (Worker.couple k.client k.lib k.texts k.stateful_workload_kinds pod ip k.mac)

  -- `allocate` with the dual stack, once the mode is known.
  unfoldable pub allocate_ips : Pod → String → IpFamilyMode → Task S (Unit {0})
  unfolding subnet_names release_ips couple_ips
  allocate_ips pod network mode = do
    ips ←
        on_networks
          (DualStack.allocate k.lib mode network (subnet_names pod) pod.name pod.namespace)
    on_error (release_ips mode network ips) (couple_ips pod ips)

  unfoldable pub allocate_ip : Pod → String → Task S (Unit {0})
  unfolding specified_subnet release_ip couple_ip
  allocate_ip pod network = do
    ip ←
        on_networks (Allocator.allocate k.lib network (specified_subnet pod) pod.name pod.namespace)
    on_error (release_ip ip) (couple_ip pod ip)

  unfoldable pub allocate : Pod → String → Task S (Unit {0})
  unfolding allocate_ips allocate_ip read_family
  allocate pod network =
      if k.dual_stack_enabled
      then (do
        mode ← read_family k (value_of annotation_ip_family pod.annotations)
        allocate_ips pod network mode)
      else allocate_ip pod network

  unfoldable pub assign : Pod → String → String → Bool → Task S (Unit {0})
  unfolding release_ip
  assign pod network ip_candidate forced = do
    assigned ←
        on_networks (Allocator.assign k.lib network "" pod.name pod.namespace ip_candidate forced)
    elim assigned [
      | none ↦ crash panic
      | some ip ↦ on_error (release_ip ip) (
          on_cluster
            (Worker.re_couple k.client k.lib k.texts k.stateful_workload_kinds pod ip k.mac))
    ]

  unfoldable pub multi_assign : Pod → String → IpFamilyMode → List String → Bool → Task S (Unit {0})
  unfolding release_ips assigned_ips
  multi_assign pod network mode ip_candidates forced = do
    assigned ←
        on_networks
          (DualStack.assign k.lib mode network [] ip_candidates pod.name pod.namespace forced)
    ips ← assigned_ips assigned
    on_error (release_ips mode network ips)
        (on_cluster (Dual.re_couple k.client k.lib k.texts k.stateful_workload_kinds pod ips k.mac))

  -- `release`, of the instances of a pod; the stores of both stacks recycle alike.
  unfoldable pub release : Pod → List IpInfo → Task S (Unit {0})
  unfolding for_each
  release pod ips =
      for_each (λ ip. on_cluster (Worker.ip_recycle k.client k.lib pod.namespace ip)) ips
