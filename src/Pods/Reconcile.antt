-- ===== src/Pods/Reconcile.antt =====
-- pkg/controllers/networking/pod_controller.go: `Reconcile`, `decouple`, `reserve` and the finalizer.
use hybridnet.Base.{◌||◌, List, [], ◌∷◌, String, str_eq, contains, if◌then◌else◌}
use hybridnet.Base.Dict
use hybridnet.Base.Outcome.{ok, err, fault, ◌>>=◌, ◌>>◌, return}
use hybridnet.Api.Types.{ParseCidr}
use hybridnet.Store.Types.{Pod, annotation_ip, finalizer_ip_allocated, own_by_stateful_workload}
use hybridnet.Store.Client.{not_found, refused}
use hybridnet.Store.Worker
use hybridnet.Pods.Text.{pod_is_evicted, pod_is_completed}
use hybridnet.Pods.World.{of_cluster, Setup, Task, on_cluster}
use hybridnet.Pods.Network.{select_network}
use hybridnet.Pods.Allocate.{allocate}
use hybridnet.Pods.Stateful.{stateful_allocate}

-- `controllerutil.RemoveFinalizer`
without : String → List String → List String
without key [] = []
without key (x ∷ xs) = let rest = without key xs in if str_eq x key then rest else x ∷ rest

module _ {S : Type 0} (k : Setup S) (parse_cidr : ParseCidr) where
  -- The stores of both stacks decouple and reserve alike.
  unfoldable pub decouple : Pod → Task S (Unit {0})
  decouple pod = on_cluster (Worker.de_couple k.client pod)

  unfoldable pub reserve : Pod → Task S (Unit {0})
  reserve pod = on_cluster (Worker.ip_reserve k.client pod)

  unfoldable pub remove_finalizer : Pod → Task S (Unit {0})
  unfolding without
  remove_finalizer pod =
      if contains finalizer_ip_allocated pod.finalizers
      then on_cluster (k.reads.patch_finalizers pod (without finalizer_ip_allocated pod.finalizers))
      else return tt

  -- What is done with a pod that needs addresses.
  unfoldable pub provide : Pod → Task S (Unit {0})
  unfolding select_network
  provide pod = do
    network ← select_network k pod
    (if own_by_stateful_workload k.stateful_workload_kinds pod
        then stateful_allocate k parse_cidr pod network
        else allocate k pod network)

  unfoldable pub handle : Pod → Task S (Unit {0})
  unfolding reserve remove_finalizer decouple provide
  handle pod =
      if pod.deleted
      then (if own_by_stateful_workload k.stateful_workload_kinds pod
          then (do reserve pod; remove_finalizer pod)
          else return tt)
      else if pod_is_evicted pod || pod_is_completed pod
      then decouple pod
      else if Dict.has annotation_ip pod.annotations
      then return tt
      else provide pod

  -- `Reconcile`: a pod that is gone needs nothing.
  unfoldable pub reconcile : String → String → Task S (Unit {0})
  unfolding handle
  reconcile namespace name w = elim (k.reads.get_pod namespace name w.cluster) [
    | ok s pod ↦ handle pod (record w { cluster = s })
    | err s not_found ↦ ok (record w { cluster = s }) tt
    | err s (refused e) ↦ err (record w { cluster = s }) (of_cluster (refused e))
    | fault x ↦ fault x
  ]
