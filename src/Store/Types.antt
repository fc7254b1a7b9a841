-- ===== src/Store/Types.antt =====
-- The objects that pkg/ipam/store and pkg/controllers/networking read and write, as far as they do: the
-- pod of k8s.io/api, `IPInstance` of pkg/apis/networking/v1/{types,ipinstance_types}.go, and the keys
-- of pkg/constants/constants.go; pkg/ipam/strategy, which reads the owner of a pod.
use hybridnet.Base.{Bool, false, List, Option, none, some, String, ℤ, contains, if◌then◌else◌}
use hybridnet.Base.Dict
use hybridnet.Base.Dict.{Dict}

abbrev pub annotation_ip : String
annotation_ip = "networking.alibaba.com/ip"

abbrev pub finalizer_ip_allocated : String
finalizer_ip_allocated = "networking.alibaba.com/ip-allocated"

abbrev pub label_subnet : String
label_subnet = "networking.alibaba.com/subnet"

abbrev pub label_network : String
label_network = "networking.alibaba.com/network"

abbrev pub label_node : String
label_node = "networking.alibaba.com/node"

abbrev pub label_pod : String
label_pod = "networking.alibaba.com/pod"

abbrev pub phase_using : String
phase_using = "Using"

abbrev pub phase_reserved : String
phase_reserved = "Reserved"

-- `metav1.OwnerReference`
pub record OwnerReference : Type 0 where
  pub api_version : String
  pub kind : String
  pub name : String
  pub uid : String
  pub block_owner_deletion : Bool
  pub controller : Bool

-- `corev1.Pod`; `controller_of` is what metav1.GetControllerOf gives for it.
pub record Pod : Type 0 where
  pub name : String
  pub namespace : String
  pub uid : String
  pub node_name : String
  pub annotations : Dict String
  pub labels : Dict String
  pub finalizers : List String
  pub controller_of : Option OwnerReference
  pub deleted : Bool
  pub phase : String
  pub reason : String
  pub containers : List String
  pub container_statuses : List String

-- `Address`
pub record Address : Type 0 where
  pub version : String
  pub ip : String
  pub gateway : String
  pub net_id : Option ℤ
  pub mac : String

-- `IPInstanceStatus`, without the sandbox, which the node writes.
pub record InstanceStatus : Type 0 where
  pub node_name : String
  pub phase : String
  pub pod_name : String
  pub pod_namespace : String

-- `IPInstance`; `deleted` says that it has a deletion timestamp.
pub record IpInstance : Type 0 where
  pub name : String
  pub namespace : String
  pub finalizers : List String
  pub labels : Dict String
  pub owner_references : List OwnerReference
  pub network : String
  pub subnet : String
  pub address : Address
  pub status : InstanceStatus
  pub deleted : Bool

-- A missing key of a Go map of texts reads as "".
abbrev pub value_of : String → Dict String → String
value_of key entries = elim (Dict.lookup key entries) [ none ↦ "" | some v ↦ v ]

-- `OwnByStatefulWorkload`: `kinds` is the set that the first call has made of the flag's value.
unfoldable pub own_by_stateful_workload : List String → Pod → Bool
own_by_stateful_workload kinds pod = elim pod.controller_of [
  | none ↦ false
  | some owner ↦ contains owner.kind kinds
]

unfoldable pub get_known_own_reference : List String → Pod → Option OwnerReference
unfolding own_by_stateful_workload
get_known_own_reference kinds pod =
    if own_by_stateful_workload kinds pod then pod.controller_of else none
