-- ===== src/Store/Client.antt =====
-- What pkg/ipam/store calls of controller-runtime's client: its reads and writes of the cluster, as
-- methods on a state of the server that the model does not fix. A patch is a body that the source
-- writes; the call stands for the loop of `retry.RetryOnConflict` around it.
use hybridnet.Base.{List, Option, String}
use hybridnet.Base.Outcome.{M}
use hybridnet.Net.{Cidr}
use hybridnet.Ipam.Types.{IpInfo, Usage}
use hybridnet.Store.Types.{IpInstance, InstanceStatus}

-- An error of the server; `errors.IsNotFound` tells the first from the others.
pub data ApiError : Type 0 where
  not_found : ApiError
  refused : String → ApiError

-- The status fields of a network or of a subnet that a patch writes.
pub data UsagePatch : Type 0 where
  network_lists : (node_list subnet_list : String) → UsagePatch
  usage_of : Usage → UsagePatch
  usages_of : Usage → Usage → Usage → UsagePatch

abbrev pub Done : Type 0 → Type 0
Done S = M S ApiError (Unit {0})

-- An instance is named by its namespace and its name, and so is a pod.
pub record Client (S : Type 0) : Type 0 where
  pub create : IpInstance → Done S
  pub delete : String → String → Done S
  pub get : String → String → M S ApiError IpInstance
  -- `List` in a namespace: by the label of a pod, and without a selector.
  pub list_of_pod : String → String → M S ApiError (List IpInstance)
  pub list_all : String → M S ApiError (List IpInstance)
  -- `{"status": ...}`, `{"metadata":{"labels": ...}}` and `{"metadata":{"finalizers":null}}`
  pub patch_status : String → String → InstanceStatus → Done S
  pub patch_labels : String → String → (node_name pod_name : String) → Done S
  pub patch_unbound : String → String → Done S
  -- The annotation of a pod, or null.
  pub patch_annotation : String → String → Option String → Done S
  pub patch_network : String → UsagePatch → Done S
  pub patch_subnet : String → UsagePatch → Done S

-- The text forms that the code takes from elsewhere: `json.Marshal` of addresses, and the text of a
-- `net.IPNet`.
pub record TextLib : Type 0 where
  pub marshal : IpInfo → String
  pub marshal_ips : List IpInfo → String
  pub cidr_string : Cidr → String
