-- ===== src/Pods/World.antt =====
-- The state of pkg/controllers/networking/pod_controller.go: the networks of the address manager
-- (`IPAMManager`), the cluster behind the store and the client, and what the texts that are read once
-- from the environment were. The manager has one allocator, as the feature gate says
-- (pkg/controllers/networking/ipam.go), so there is one network set.
use hybridnet.Base.{Bool, List, Option, String}
use hybridnet.Base.Dict.{Dict}
use hybridnet.Base.Outcome.{M, ok, err, fault}
use hybridnet.Net.{AddressLib}
use hybridnet.Api.Types.{NetworkObject}
use hybridnet.Ipam.Types.{NetworkSet, NetworkType, Error}
use hybridnet.Ipam.Family.{
  IpFamilyMode, parse_ip_family_from_string, parse_network_type_from_string,
}
use hybridnet.Store.Types.{Pod}
use hybridnet.Store.Client.{Client, TextLib, ApiError, Done}

pub record World (S : Type 0) : Type 0 where
  pub networks : NetworkSet
  pub cluster : S
  pub family_env : Option IpFamilyMode
  pub type_env : Option NetworkType

-- The errors of a reconciliation, by the place that makes them.
pub data PodError : Type 0 where
  of_manager : Error → PodError
  of_cluster : ApiError → PodError
  no_ip_in_pool no_network mismatched_network : PodError
  unknown_network_type : String → PodError

-- What the controller asks of the cluster besides the store: the pod, the networks (all, and those that
-- the index knows for a node), and the labels of a node; and the patch of the finalizers of a pod.
pub record Reads (S : Type 0) : Type 0 where
  pub get_pod : String → String → M S ApiError Pod
  pub networks_of_node : String → M S ApiError (List NetworkObject)
  pub all_networks : M S ApiError (List NetworkObject)
  pub node_labels : String → M S ApiError (Dict String)
  pub patch_finalizers : Pod → List String → Done S

-- What does not change while the controller runs: the gate of the dual stack, the environment, the
-- flags, the libraries, and the client. `mac` is what mac.GenerateMAC makes in the call.
pub record Setup (S : Type 0) : Type 0 where
  pub dual_stack_enabled : Bool
  pub getenv : String → String
  pub stateful_workload_kinds : List String
  pub default_ip_retain : Bool
  pub lib : AddressLib
  pub texts : TextLib
  pub mac : String
  pub selector_matches : Dict String → Dict String → Bool
  pub client : Client S
  pub reads : Reads S

abbrev pub Task : Type 0 → Type 0 → Type 0
Task S A = M (World S) PodError A

module _ {S : Type 0} where
  -- A call of the manager, of the cluster, and of a reader of the environment.
  abbrev pub on_networks : {A : Type 0} → M NetworkSet Error A → Task S A
  on_networks m w = elim (m w.networks) [
    | ok t a ↦ ok (record w { networks = t }) a
    | err t e ↦ err (record w { networks = t }) (of_manager e)
    | fault x ↦ fault x
  ]

  abbrev pub on_cluster : {A : Type 0} → M S ApiError A → Task S A
  on_cluster m w = elim (m w.cluster) [
    | ok t a ↦ ok (record w { cluster = t }) a
    | err t e ↦ err (record w { cluster = t }) (of_cluster e)
    | fault x ↦ fault x
  ]

  module _ (k : Setup S) where
    abbrev pub family_of : String → World S → IpFamilyMode × Option IpFamilyMode
    family_of text w = parse_ip_family_from_string k.dual_stack_enabled k.getenv text w.family_env

    unfoldable pub read_family : String → Task S IpFamilyMode
    read_family text w =
        let (mode, kept) = family_of text w in ok (record w { family_env = kept }) mode

    unfoldable pub read_network_type : String → Task S NetworkType
    read_network_type text w =
        let (type, kept) = parse_network_type_from_string k.getenv text w.type_env in
        ok (record w { type_env = kept }) type
