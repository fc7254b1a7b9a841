-- ===== src/Store/Worker/Dual.antt =====
-- pkg/ipam/store/dualstack_store.go: `DualStackWorker`. The methods that it passes on are those of `Worker`.
use hybridnet.Base.{List, [], ◌∷◌, ◌++◌, String}
use hybridnet.Base.Outcome.{M, ◌>>=◌, ◌>>◌, return, ok, err, fault, on_error, for_each}
use hybridnet.Net.{AddressLib}
use hybridnet.Ipam.Types.{IpInfo, Usage}
use hybridnet.Store.Types.{Pod, IpInstance, phase_using}
use hybridnet.Store.Client.{Client, TextLib, ApiError, not_found, refused, Done, usages_of}
use hybridnet.Store.Worker

module _ {S : Type 0} (c : Client S) where
  -- The loops over the instances.
  unfoldable pub delete_each : List IpInstance → Done S
  unfolding Worker.delete_ip
  delete_each [] s = ok s tt
  delete_each (t ∷ ts) s = elim (Worker.delete_ip c t.namespace t.name s) [
    | ok u _ ↦ delete_each ts u
    | err u _ ↦ delete_each ts u
    | fault x ↦ fault x
  ]

  unfoldable pub use_each : Pod → List IpInstance → Done S
  unfolding Worker.update_ip_status for_each
  use_each pod =
      for_each (λ t. Worker.update_ip_status c t pod.node_name pod.name pod.namespace phase_using)

  unfoldable pub label_each : Pod → List IpInstance → Done S
  unfolding Worker.patch_ip_labels for_each
  label_each pod = for_each (λ t. Worker.patch_ip_labels c t pod.name pod.node_name)

  pub de_couple : Pod → Done S
  de_couple = Worker.de_couple c

  pub ip_reserve : Pod → Done S
  ip_reserve = Worker.ip_reserve c

  pub ip_un_bind : String → String → Done S
  ip_un_bind = Worker.ip_un_bind c

  pub sync_network_usage : String → Usage → Usage → Usage → Done S
  sync_network_usage name v4 v6 both = c.patch_network name (usages_of v4 v6 both)

  pub sync_subnet_usage : String → Usage → Done S
  sync_subnet_usage = Worker.sync_subnet_usage c

  pub sync_network_status : String → String → String → Done S
  sync_network_status = Worker.sync_network_status c

  module _ (lib : AddressLib) where
    pub ip_recycle : String → IpInfo → Done S
    ip_recycle = Worker.ip_recycle c lib

    -- What a loop over the addresses of `ReCouple` gathers: the instances that are there, the addresses
    -- without one, and the MAC address of the last instance.
    pub record Gathered : Type 0 where
      pub instances : List IpInstance
      pub missing : List IpInfo
      pub mac : String

    unfoldable pub gather : String → List IpInfo → Gathered → M S ApiError Gathered
    unfolding Worker.get_ip
    gather namespace [] g s = ok s g
    gather namespace (ip ∷ ips) g s = elim (Worker.get_ip c lib namespace ip s) [
      | ok u t ↦
          gather namespace ips
            (record { instances = g.instances ++ t ∷ []; missing = g.missing; mac = t.address.mac })
            u
      | err u not_found ↦ gather namespace ips (record g { missing = g.missing ++ ip ∷ [] }) u
      | err u (refused e) ↦ err u (refused e)
      | fault x ↦ fault x
    ]

    module _ (texts : TextLib) (kinds : List String) where
      unfoldable pub create_each :
          Pod → String → List IpInfo → List IpInstance → M S ApiError (List IpInstance)
      unfolding Worker.create_ip_with_mac
      create_each pod mac [] made = return made
      create_each pod mac (ip ∷ ips) made = do
        t ← Worker.create_ip_with_mac c lib texts kinds pod ip mac
        create_each pod mac ips (made ++ t ∷ [])

      -- The calls of `Couple` once every instance is made.
      unfoldable pub bind_pod : Pod → List IpInfo → List IpInstance → Done S
      unfolding use_each Worker.patch_text_to_pod Worker.release_ip_from_pod
      bind_pod pod ips made = do
        use_each pod made
        on_error (Worker.release_ip_from_pod c pod)
            (Worker.patch_text_to_pod c pod (texts.marshal_ips ips))

      -- The deferred deletes of `Couple` see the instances made before the error.
      unfoldable pub couple_from :
          Pod → List IpInfo → String → List IpInfo → List IpInstance → Done S
      unfolding delete_each bind_pod Worker.create_ip_with_mac
      couple_from pod ips mac [] made = on_error (delete_each made) (bind_pod pod ips made)
      couple_from pod ips mac (ip ∷ todo) made = do
        t ← on_error (delete_each made) (Worker.create_ip_with_mac c lib texts kinds pod ip mac)
        couple_from pod ips mac todo (made ++ t ∷ [])

      unfoldable pub couple : Pod → List IpInfo → String → Done S
      unfolding couple_from
      couple pod ips mac = couple_from pod ips mac ips []

      unfoldable pub re_couple : Pod → List IpInfo → String → Done S
      unfolding gather create_each use_each label_each Worker.patch_text_to_pod
      re_couple pod ips mac = do
        g ← gather pod.namespace ips (record { instances = []; missing = []; mac = mac })
        instances ← create_each pod g.mac g.missing g.instances
        label_each pod instances
        use_each pod instances
        Worker.patch_text_to_pod c pod (texts.marshal_ips ips)
