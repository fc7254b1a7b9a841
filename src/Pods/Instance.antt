-- ===== src/Pods/Instance.antt =====
-- pkg/controllers/networking/ipinstance_controller.go: an instance that is being deleted gives its
-- address back to the manager, and then loses its finalizer. Of pkg/apis/networking/v1/utils.go,
-- `IsIPv6IPInstance`.
use hybridnet.Base.{Bool, true, false, none, some, [], ◌∷◌, String, str_eq, if◌then◌else◌}
use hybridnet.Base.Outcome.{ok, err, fault, ◌>>◌}
use hybridnet.Api.Types.{ParseCidr, version_ipv6, is_not_v4}
use hybridnet.Ipam.Allocator
use hybridnet.Ipam.DualStack
use hybridnet.Store.Types.{IpInstance}
use hybridnet.Store.Names.{to_ip_format, to_ip_family_mode}
use hybridnet.Store.Client.{not_found, refused}
use hybridnet.Store.Worker
use hybridnet.Pods.World.{of_cluster, Setup, Task, on_networks, on_cluster}

is_ipv6_ip_instance : ParseCidr → IpInstance → Bool
unfolding is_not_v4
is_ipv6_ip_instance parse_cidr t =
    if str_eq t.address.version version_ipv6
    then true
    else elim (parse_cidr t.address.ip) [ none ↦ false | some (ip, _) ↦ is_not_v4 ip ]

module _ {S : Type 0} (k : Setup S) (parse_cidr : ParseCidr) where
  -- `releaseIP`
  unfoldable pub release_instance : IpInstance → Task S (Unit {0})
  unfolding is_ipv6_ip_instance
  release_instance t =
      if k.dual_stack_enabled
      then on_networks (
          DualStack.release (to_ip_family_mode (is_ipv6_ip_instance parse_cidr t)) t.network
            (t.subnet ∷ []) (to_ip_format k.lib t.name ∷ []))
        >> on_cluster (Worker.ip_un_bind k.client t.namespace t.name)
      else on_networks (Allocator.release t.network t.subnet (to_ip_format k.lib t.name))
        >> on_cluster (Worker.ip_un_bind k.client t.namespace t.name)

  -- `Reconcile`: an instance that is gone needs nothing.
  pub reconcile_instance : String → String → Task S (Unit {0})
  unfolding release_instance
  reconcile_instance namespace name w = elim (k.client.get namespace name w.cluster) [
    | ok s t ↦
        if t.deleted
        then release_instance t (record w { cluster = s })
        else ok (record w { cluster = s }) tt
    | err s not_found ↦ ok (record w { cluster = s }) tt
    | err s (refused e) ↦ err (record w { cluster = s }) (of_cluster (refused e))
    | fault x ↦ fault x
  ]
