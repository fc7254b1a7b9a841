-- ===== src/Pods/Stateful.antt =====
-- pkg/controllers/networking/pod_controller.go: `statefulAllocate`, and of pkg/controllers/utils/client.go
-- the reads of the instances of a pod; of pkg/utils/transform/ipam.go, `TransferIPInstancesForIPAM`.
use hybridnet.Base.{
  Bool, true, false, not, ◌&&◌, ◌||◌, List, [], ◌∷◌, ◌++◌, Option, none, some, String, str_eq,
  is_empty, map, get_elem?, contains, if◌then◌else◌,
}
use hybridnet.Base.Outcome.{M, panic, ◌>>=◌, ◌>>◌, return, throw, crash}
use hybridnet.Net.{AddressLib}
use hybridnet.Ipam.Types.{IpInfo}
use hybridnet.Api.Types.{ParseCidr}
use hybridnet.Api.Transform.{int32p_to_uint32p}
use hybridnet.Store.Types.{Pod, IpInstance, value_of, finalizer_ip_allocated}
use hybridnet.Store.Names.{to_ip_format, to_ip_format_with_family}
use hybridnet.Store.Client.{ApiError}
use hybridnet.Pods.Text.{split, get_index_from_name, normalized_ip, parse_bool_or_default}
use hybridnet.Pods.World.{no_ip_in_pool, Setup, Task, on_cluster, read_family}
use hybridnet.Pods.Allocate.{allocate, assign, multi_assign, release, annotation_ip_family}

abbrev pub annotation_ip_pool : String
annotation_ip_pool = "networking.alibaba.com/ip-pool"

abbrev pub annotation_ip_retain : String
annotation_ip_retain = "networking.alibaba.com/ip-retain"

-- The instances of a namespace whose status names the pod, but those being deleted.
unfoldable pub allocated_of : String → List IpInstance → List IpInstance
allocated_of pod_name [] = []
allocated_of pod_name (t ∷ ts) =
    let rest = allocated_of pod_name ts in
    if str_eq t.status.pod_name pod_name && not t.deleted then t ∷ rest else rest

-- `TransferIPInstanceForIPAM`; `none` is the panic of `StringToIPNet` on an address that does not parse.
transfer_ip_instance_for_ipam : AddressLib → ParseCidr → IpInstance → Option IpInfo
transfer_ip_instance_for_ipam lib parse_cidr t = elim (parse_cidr t.address.ip) [
  | none ↦ none
  | some (ip, cidr) ↦ some (record {
    address = record { ip = ip; mask = cidr.mask };
    gateway = lib.parse_ip t.address.gateway;
    net_id = int32p_to_uint32p t.address.net_id;
    subnet = t.subnet;
    network = t.network;
    pod_name = t.status.pod_name;
    pod_namespace = t.status.pod_namespace;
    status = t.status.phase;
  })
]

transfer_ip_instances_for_ipam :
    {S : Type 0} → AddressLib → ParseCidr → List IpInstance → Task S (List IpInfo)
unfolding transfer_ip_instance_for_ipam
transfer_ip_instances_for_ipam lib parse_cidr [] = return []
transfer_ip_instances_for_ipam lib parse_cidr (t ∷ ts) = do
  rest ← transfer_ip_instances_for_ipam lib parse_cidr ts
  elim (transfer_ip_instance_for_ipam lib parse_cidr t) [
    | none ↦ crash panic
    | some ip ↦ return (ip ∷ rest)
  ]

-- The IPv4 addresses of instances, and the IPv6 ones.
of_family : AddressLib → Bool → List IpInstance → List String
of_family lib ipv6 [] = []
of_family lib ipv6 (t ∷ ts) =
    let rest = of_family lib ipv6 ts in
    let (ip, is_ipv6) = to_ip_format_with_family lib t.name in
    if is_ipv6 && ipv6 || not is_ipv6 && not ipv6 then ip ∷ rest else rest

first_ip : AddressLib → List IpInstance → String
first_ip lib [] = ""
first_ip lib (t ∷ _) = to_ip_format lib t.name

module _ {S : Type 0} (k : Setup S) where
  open k use {lib}

  list_allocated_ip_instances_of_pod : Pod → M S ApiError (List IpInstance)
  unfolding allocated_of
  list_allocated_ip_instances_of_pod pod = do
    items ← k.client.list_all pod.namespace
    return (allocated_of pod.name items)

  get_ip_of_pod : Pod → M S ApiError String
  unfolding allocated_of first_ip
  get_ip_of_pod pod = do
    items ← k.client.list_all pod.namespace
    return (first_ip lib (allocated_of pod.name items))

  list_ips_of_pod : Pod → M S ApiError (List String)
  unfolding allocated_of of_family
  list_ips_of_pod pod = do
    items ← k.client.list_all pod.namespace
    (let mine = allocated_of pod.name items in
        return (of_family lib false mine ++ of_family lib true mine))

  unfoldable pub add_finalizer : Pod → Task S (Unit {0})
  add_finalizer pod =
      if contains finalizer_ip_allocated pod.finalizers
      then return tt
      else on_cluster (k.reads.patch_finalizers pod (pod.finalizers ++ finalizer_ip_allocated ∷ []))

  -- The recycling of what the pod has, and a new allocation.
  reallocate : ParseCidr → Pod → String → Task S (Unit {0})
  unfolding list_allocated_ip_instances_of_pod transfer_ip_instances_for_ipam release allocate
  reallocate parse_cidr pod network = do
    items ← on_cluster (list_allocated_ip_instances_of_pod pod)
    ips ← transfer_ip_instances_for_ipam lib parse_cidr items
    release k pod ips
    allocate k pod network

  -- The candidates of a pod in its pool, by its index; `none` past the end.
  pool_entry : Pod → Option String
  unfolding split get_index_from_name
  pool_entry pod =
      get_elem? (split "," (value_of annotation_ip_pool pod.annotations))
        (get_index_from_name pod.name)

  pool_candidate : Pod → String
  unfolding pool_entry normalized_ip
  pool_candidate pod = elim (pool_entry pod) [ none ↦ "" | some ip ↦ normalized_ip lib ip ]

  -- The two branches of the gate behind the finalizer.
  assign_many : ParseCidr → Pod → String → Task S (Unit {0})
  unfolding pool_entry reallocate list_ips_of_pod allocate multi_assign split normalized_ip
      read_family
  assign_many parse_cidr pod network = do
    mode ← read_family k (value_of annotation_ip_family pod.annotations)
    (if not (is_empty (value_of annotation_ip_pool pod.annotations))
        then elim (pool_entry pod) [
          | none ↦ throw no_ip_in_pool
          | some entry ↦
              multi_assign k pod network mode (map (normalized_ip lib) (split "/" entry)) true
        ]
        else if not (
            parse_bool_or_default (value_of annotation_ip_retain pod.annotations)
              k.default_ip_retain)
        then reallocate parse_cidr pod network
        else (do
          candidates ← on_cluster (list_ips_of_pod pod)
          elim candidates [
            | [] ↦ allocate k pod network
            | ip ∷ ips ↦ multi_assign k pod network mode (ip ∷ ips) true
          ]))

  assign_one : ParseCidr → Pod → String → Task S (Unit {0})
  unfolding pool_candidate reallocate get_ip_of_pod allocate assign
  assign_one parse_cidr pod network =
      if not (is_empty (value_of annotation_ip_pool pod.annotations))
      then (if is_empty (pool_candidate pod)
          then throw no_ip_in_pool
          else assign k pod network (pool_candidate pod) true)
      else if not (
          parse_bool_or_default (value_of annotation_ip_retain pod.annotations) k.default_ip_retain)
      then reallocate parse_cidr pod network
      else (do
        candidate ← on_cluster (get_ip_of_pod pod)
        (if is_empty candidate
            then allocate k pod network
            else assign k pod network candidate true))

  unfoldable pub stateful_allocate : ParseCidr → Pod → String → Task S (Unit {0})
  unfolding add_finalizer assign_many assign_one
  stateful_allocate parse_cidr pod network = do
    add_finalizer pod
    (if k.dual_stack_enabled
        then assign_many parse_cidr pod network
        else assign_one parse_cidr pod network)
