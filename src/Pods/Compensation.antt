-- ===== src/Pods/Compensation.antt =====
-- `allocate` of pkg/controllers/networking/pod_controller.go with the dual stack: the address manager and
-- the store together.
use hybridnet.Base.{◌≡◌, refl, sym, ap, subst, List, [], ◌∷◌, String}
use hybridnet.Base.Outcome.{Outcome, ok, err, fault, on_error}
use hybridnet.Base.Outcome.Ends.{Ends, on_error-Ends}
use hybridnet.Net.{AddressLib}
use hybridnet.Ipam.Types.{IpInfo, NetworkSet, Error}
use hybridnet.Ipam.Family.{IpFamilyMode}
use hybridnet.Ipam.Network.Ready.{AllReady}
use hybridnet.Ipam.DualStack
use hybridnet.Ipam.DualStack.Payments.{subnets_of, texts_of}
use hybridnet.Ipam.Network.Records.{AllFit, SameRecords}
use hybridnet.Ipam.DualStack.Restores.{release-allocate, allocate-Numbered}
use hybridnet.Store.Types.{Pod}
use hybridnet.Store.Client.{ApiError}
use hybridnet.Store.Cluster.{View, Honest, DeletesAnswered}
use hybridnet.Store.Worker.Dual.{couple}
use hybridnet.Store.Coupling.{Undone, Coupled}
use hybridnet.Store.Couple.{built, couple-Ends}
use hybridnet.Pods.World.{World, PodError, of_cluster, of_manager, Setup, on_networks}
use hybridnet.Pods.Allocate.{
  squash_ip_slice_to_ips, squash_ip_slice_to_subnets, subnet_names, release_ips, couple_ips,
  allocate_ips,
}

squash-subnets_of : (cs : List IpInfo) → squash_ip_slice_to_subnets cs ≡ subnets_of cs
unfolding squash_ip_slice_to_subnets
squash-subnets_of [] = refl
squash-subnets_of (c ∷ cs) = ap (λ xs. c.subnet ∷ xs) (squash-subnets_of cs)

squash-texts_of :
    (lib : AddressLib) (cs : List IpInfo) → squash_ip_slice_to_ips lib cs ≡ texts_of lib cs
unfolding squash_ip_slice_to_ips
squash-texts_of lib [] = refl
squash-texts_of lib (c ∷ cs) = ap (λ xs. lib.ip_string c.address.ip ∷ xs) (squash-texts_of lib cs)

module _ {S : Type 0} (v : View S) (k : Setup S) (pod : Pod) where
  -- A failed coupling: every subnet records what it recorded before, and the cluster is as before, but
  -- for new instances that are being deleted and the note of the pod, which may be gone.
  pub record Refunded (w w' : World S) : Type 0 where
    pub records : SameRecords w.networks w'.networks
    pub cluster : Undone v w.cluster pod w'.cluster

  -- A coupling: the networks are as the manager left them, and the pod uses the addresses.
  pub record Provided (w : World S) (t : NetworkSet) (ips : List IpInfo) (w' : World S)
      : Type 0 where
    pub networks : w'.networks ≡ t
    pub cluster :
        Coupled v w.cluster pod
          (built k.lib k.texts k.stateful_workload_kinds pod k.mac ips)
          (k.texts.marshal_ips ips)
          w'.cluster

  module _ (honest : Honest v k.client) (answered : DeletesAnswered v k.client)
      (mode : IpFamilyMode) (network : String) (w : World S) (all : AllReady w.networks)
      (fit : AllFit k.lib w.networks) (t : NetworkSet) (ips : List IpInfo)
      (given : DualStack.allocate k.lib mode network
          (subnet_names pod)
          pod.name
          pod.namespace
          w.networks
        ≡ ok t ips) where
    -- The world between a failed coupling and the release.
    record Owed (w' : World S) : Type 0 where
      networks : w'.networks ≡ t
      cluster : Undone v w.cluster pod w'.cluster

    coupled :
        Ends Owed (λ w' _. Provided w t ips w') (couple_ips k pod ips (record w { networks = t }))
    unfolding couple_ips
    coupled = of (couple k.client k.lib k.texts k.stateful_workload_kinds pod ips k.mac w.cluster) (
        couple-Ends v k.client honest answered k.lib k.texts k.stateful_workload_kinds pod k.mac ips
          w.cluster
          (allocate-Numbered k.lib pod.name pod.namespace network w.networks all fit
            (subnet_names pod) mode t ips given))
      where
        of :
            (o : Outcome S ApiError (Unit {0}))
            → Ends
                (Undone v w.cluster pod)
                (λ u _.
                  Coupled v w.cluster pod
                    (built k.lib k.texts k.stateful_workload_kinds pod k.mac ips)
                    (k.texts.marshal_ips ips)
                    u)
                o
            → Ends Owed
                (λ w' _. Provided w t ips w')
                (elim o [
                  | ok u a ↦ ok (record (record w { networks = t }) { cluster = u }) a
                  | err u e ↦
                      err (record (record w { networks = t }) { cluster = u }) (of_cluster e)
                  | fault x ↦ fault x
                ])
        of (ok u a) h = record { networks = refl; cluster = h }
        of (err u e) h = record { networks = refl; cluster = h }
        of (fault x) h = h

    refunded :
        (w' : World S)
        → Owed w'
        → Ends (Refunded w) (λ u _. Refunded w u) (release_ips k mode network ips w')
    unfolding release_ips
    refunded w' h =
        let (u, run, same) =
          release-allocate k.lib pod.name pod.namespace network w.networks all fit
            (subnet_names pod) mode t ips given in
        let run' : DualStack.release mode network (squash_ip_slice_to_subnets ips)
              (squash_ip_slice_to_ips k.lib ips) w'.networks
            ≡ ok u tt =
          rw (squash-subnets_of ips, squash-texts_of k.lib ips, h.networks) run in
        rw (release_ips, on_networks, run') (record { records = same; cluster = h.cluster })

    -- The call behind an answer of the manager.
    after_manager : Outcome NetworkSet Error (List IpInfo) → Outcome (World S) PodError (Unit {0})
    after_manager o =
        let answer : Outcome (World S) PodError (List IpInfo) = elim o [
          | ok t' a ↦ ok (record w { networks = t' }) a
          | err t' e ↦ err (record w { networks = t' }) (of_manager e)
          | fault x ↦ fault x
        ] in
        elim answer [
          | ok w' a ↦ on_error (release_ips k mode network a) (couple_ips k pod a) w'
          | err w' e ↦ err w' e
          | fault x ↦ fault x
        ]

    -- When the manager gives addresses, over networks that are ready and fit and a server that is as
    -- documented and answers the deletes of instances that are there, the allocation of a pod either
    -- succeeds, and the pod uses the addresses in the cluster, or fails, and then every subnet records
    -- what it recorded before, and the cluster is as before, but for new instances that are being
    -- deleted and the note of the pod, which may be gone.
    pub allocate_ips-Ends :
        Ends (Refunded w) (λ w' _. Provided w t ips w') (allocate_ips k pod network mode w)
    unfolding allocate_ips after_manager
    allocate_ips-Ends =
        subst (λ o. Ends (Refunded w) (λ w' _. Provided w t ips w') (after_manager o)) (sym given)
          (on_error-Ends Owed (Refunded w) (λ w' _. Provided w t ips w')
            (release_ips k mode network ips) (couple_ips k pod ips) (record w { networks = t })
            coupled refunded)
