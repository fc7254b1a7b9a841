-- ===== src/Webhook/Cluster.antt =====
-- What the validating webhook reads of the cluster, and what it answers.
use hybridnet.Base.{Bool, List, String}
use hybridnet.Api.Types.{SubnetObject, NetworkObject, AddressRange}

-- The answer of a read of one object, or of a list.
pub data Got (A : Type 0) : Type 0 where
  got : A → Got A
  not_found : Got A
  failed : String → Got A

pub record RemoteSubnet : Type 0 where
  pub name : String
  pub range : AddressRange

-- The client of the webhook's handler, and the feature gates.
pub record Cluster : Type 0 where
  pub network : String → Got NetworkObject
  pub networks : Got (List NetworkObject)
  pub subnet : String → Got SubnetObject
  pub subnets : Got (List SubnetObject)
  pub ip_instances : String → Got (List String)
  pub remote_subnets : Got (List RemoteSubnet)
  pub remote_clusters : Got (List String)
  pub dual_stack : Bool
  pub multi_cluster : Bool

-- `admission.Response`, by the place that makes it; `bad_request` and `internal_error` are its
-- erroneous ones, and `panicked` is a panic of the handler.
pub data Response (D : Type 0) : Type 0 where
  allowed bad_request internal_error panicked : Response D
  denied : D → Response D
