-- ===== src/Store/Worker.antt =====
-- pkg/ipam/store/store.go: `Worker`. A method takes the MAC address that mac.GenerateMAC makes in it, and
-- the kinds of stateful workloads.
pub mod Dual
use hybridnet.Base.{
  ℕ, ◌-◌, ◌^◌, Bool, true, false, List, [], ◌∷◌, Option, none, some, String, ℤ, pos, neg_ℕ, ltb,
  is_empty, if◌then◌else◌,
}
use hybridnet.Base.Outcome.{
  M, panic, ◌>>=◌, ◌>>◌, return, crash, ok, err, fault, on_error, for_each,
}
use hybridnet.Net.{AddressLib}
use hybridnet.Api.Types.{version_ipv4, version_ipv6}
use hybridnet.Ipam.Types.{IpInfo, Usage}
use hybridnet.Store.Types.{
  Pod, OwnerReference, Address, InstanceStatus, IpInstance, annotation_ip, finalizer_ip_allocated,
  label_subnet, label_network, label_node, label_pod, phase_using, phase_reserved, value_of,
  get_known_own_reference,
}
use hybridnet.Store.Names.{is_ipv6, to_dns_label_format}
use hybridnet.Store.Client.{
  Client, TextLib, ApiError, not_found, refused, Done, network_lists, usage_of,
}

-- `newControllerRef`, of a pod.
unfoldable pub new_controller_ref : Pod → OwnerReference
new_controller_ref pod = record {
  api_version = "v1";
  kind = "Pod";
  name = pod.name;
  uid = pod.uid;
  block_owner_deletion = false;
  controller = true;
}

unfoldable pub owner_of : List String → Pod → OwnerReference
unfolding new_controller_ref get_known_own_reference
owner_of kinds pod = elim (get_known_own_reference kinds pod) [
  | none ↦ new_controller_ref pod
  | some owner ↦ owner
]

-- `extractIPVersion`
unfoldable pub extract_ip_version : IpInfo → String
unfolding is_ipv6
extract_ip_version ip = if is_ipv6 ip then version_ipv6 else version_ipv4

-- The conversion of a uint32 to an int32.
unfoldable pub to_int32 : ℕ → ℤ
to_int32 n = if ltb n (2 ^ 31) then pos n else neg_ℕ (2 ^ 32 - n)

-- The status that an instance of a pod is given.
abbrev pub status_of : String → String → String → String → InstanceStatus
status_of node_name pod_name pod_namespace phase = record {
  node_name = node_name;
  phase = phase;
  pod_name = pod_name;
  pod_namespace = pod_namespace;
}

module _ (lib : AddressLib) (texts : TextLib) (kinds : List String) where
  -- The object that `createIPWithMAC` builds, with the number of its network.
  unfoldable pub instance_of : Pod → IpInfo → String → ℕ → IpInstance
  unfolding owner_of extract_ip_version to_int32 to_dns_label_format
  instance_of pod ip mac net_id = record {
    name = to_dns_label_format lib ip;
    namespace = pod.namespace;
    finalizers = finalizer_ip_allocated ∷ [];
    labels =
        (label_subnet, ip.subnet)
        ∷ (label_network, ip.network)
        ∷ (label_node, pod.node_name)
        ∷ (label_pod, pod.name)
        ∷ [];
    owner_references = owner_of kinds pod ∷ [];
    network = ip.network;
    subnet = ip.subnet;
    address = record {
      version = extract_ip_version ip;
      ip = texts.cidr_string ip.address;
      gateway = elim ip.gateway [ none ↦ "" | some a ↦ lib.ip_string (some a) ];
      net_id = some (to_int32 net_id);
      mac = mac;
    };
    status = status_of "" "" "" "";
    deleted = false;
  }

module _ {S : Type 0} (c : Client S) where
  unfoldable pub update_ip_status : IpInstance → String → String → String → String → Done S
  update_ip_status t node_name pod_name pod_namespace phase =
      c.patch_status t.namespace t.name (status_of node_name pod_name pod_namespace phase)

  unfoldable pub delete_ip : String → String → Done S
  delete_ip namespace name = c.delete namespace name

  -- `patchIPtoPod`, with the text of the annotation, and `releaseIPFromPod`.
  unfoldable pub patch_text_to_pod : Pod → String → Done S
  patch_text_to_pod pod text = c.patch_annotation pod.namespace pod.name (some text)

  unfoldable pub release_ip_from_pod : Pod → Done S
  release_ip_from_pod pod = c.patch_annotation pod.namespace pod.name none

  unfoldable pub patch_ip_labels : IpInstance → String → String → Done S
  patch_ip_labels t pod_name node_name = c.patch_labels t.namespace t.name node_name pod_name

  -- `DeCouple`
  unfoldable pub de_couple : Pod → Done S
  unfolding delete_ip release_ip_from_pod for_each
  de_couple pod = if is_empty (value_of annotation_ip pod.annotations) then return tt else (do
    items ← c.list_of_pod pod.name pod.namespace
    for_each (λ t. delete_ip pod.namespace t.name) items
    release_ip_from_pod pod)

  unfoldable pub ip_reserve : Pod → Done S
  unfolding update_ip_status release_ip_from_pod for_each
  ip_reserve pod = if is_empty (value_of annotation_ip pod.annotations) then return tt else (do
    items ← c.list_of_pod pod.name pod.namespace
    for_each (λ t. update_ip_status t "" pod.name pod.namespace phase_reserved) items
    release_ip_from_pod pod)

  pub ip_un_bind : String → String → Done S
  ip_un_bind namespace ip = c.patch_unbound namespace ip

  pub sync_network_status : String → String → String → Done S
  sync_network_status name node_list subnet_list =
      c.patch_network name (network_lists node_list subnet_list)

  pub sync_network_usage : String → Usage → Done S
  sync_network_usage name usage = c.patch_network name (usage_of usage)

  pub sync_subnet_usage : String → Usage → Done S
  sync_subnet_usage name usage = c.patch_subnet name (usage_of usage)

  module _ (lib : AddressLib) where
    unfoldable pub get_ip : String → IpInfo → M S ApiError IpInstance
    get_ip namespace ip = c.get namespace (to_dns_label_format lib ip)

    unfoldable pub ip_recycle : String → IpInfo → Done S
    unfolding delete_ip
    ip_recycle namespace ip = delete_ip namespace (to_dns_label_format lib ip)

    module _ (texts : TextLib) (kinds : List String) where
      -- An address without the number of its network is a nil that is read.
      unfoldable pub create_ip_with_mac : Pod → IpInfo → String → M S ApiError IpInstance
      create_ip_with_mac pod ip mac = elim ip.net_id [
        | none ↦ crash panic
        | some net_id ↦ (do
          c.create (instance_of lib texts kinds pod ip mac net_id)
          return (instance_of lib texts kinds pod ip mac net_id))
      ]

      unfoldable pub couple : Pod → IpInfo → String → Done S
      unfolding create_ip_with_mac update_ip_status delete_ip patch_text_to_pod release_ip_from_pod
      couple pod ip mac = do
        t ← create_ip_with_mac pod ip mac
        on_error (delete_ip t.namespace t.name) (do
          update_ip_status t pod.node_name pod.name pod.namespace phase_using
          on_error (release_ip_from_pod pod) (patch_text_to_pod pod (texts.marshal ip)))

      -- The branch of `ReCouple` for an instance that is there.
      unfoldable pub take_over : Pod → IpInfo → IpInstance → Done S
      unfolding update_ip_status patch_text_to_pod patch_ip_labels
      take_over pod ip t = do
        patch_ip_labels t pod.name pod.node_name
        update_ip_status t pod.node_name pod.name pod.namespace phase_using
        patch_text_to_pod pod (texts.marshal ip)

      unfoldable pub re_couple : Pod → IpInfo → String → Done S
      unfolding get_ip couple take_over
      re_couple pod ip mac s = elim (get_ip pod.namespace ip s) [
        | ok u t ↦ take_over pod ip t u
        | err u not_found ↦ couple pod ip mac u
        | err u (refused e) ↦ err u (refused e)
        | fault x ↦ fault x
      ]
