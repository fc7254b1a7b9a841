-- ===== src/Webhook/Networks/Tests.antt =====
-- Runs of the admission of networks.
use hybridnet.Base.{◌≤◌, ◌≡◌, refl, false, [], ◌∷◌, some, pos, arith}
use hybridnet.Ipam.Subnet.Tests.{toy}
use hybridnet.Api.Types.{
  NetworkObject, get_network_type, get_network_mode, network_type_underlay, network_mode_bgp,
}
use hybridnet.Api.Tests.{two_nodes}
use hybridnet.Webhook.Cluster.{Cluster, got, not_found, allowed, panicked}
use hybridnet.Webhook.Networks.{
  network_create_validation, network_update_validation, has_overlay, no_selector,
}
use hybridnet.Webhook.Networks.Laws.{
  Admitted, network_create_validation-Admitted, without_config, network_update_validation-panicked,
}
use hybridnet.Webhook.Networks.Overlay.{overlays, created, Steps, none_yet, next, Steps-overlays}

abbrev overlay : NetworkObject
overlay = record two_nodes { name = "n2"; node_selector = []; type = "Overlay" }

abbrev bgp : NetworkObject
bgp = record two_nodes {
  name = "n3";
  mode = "BGP";
  config = some (record {
    bgp_peers =
        record {
          asn = pos 65000;
          address = "10.0.0.1";
          graceful_restart_seconds = pos 0;
          password = "";
        }
        ∷ [];
  });
}

abbrev cluster : Cluster
cluster = record {
  network = λ name. not_found;
  networks = got (two_nodes ∷ []);
  subnet = λ name. not_found;
  subnets = got [];
  ip_instances = λ name. got [];
  remote_subnets = got [];
  remote_clusters = got [];
  dual_stack = false;
  multi_cluster = false;
}

overlay_run : network_create_validation toy cluster (some overlay) ≡ allowed
unfolding network_create_validation get_network_type get_network_mode has_overlay
overlay_run = refl

bgp_run : network_create_validation toy cluster (some bgp) ≡ allowed
unfolding network_create_validation get_network_type get_network_mode
bgp_run = refl

network_create_validation-Admitted_example : Admitted toy cluster bgp
network_create_validation-Admitted_example =
    network_create_validation-Admitted toy cluster bgp bgp_run

steps : Steps toy (two_nodes ∷ []) (overlay ∷ two_nodes ∷ [])
steps =
    next cluster (two_nodes ∷ []) (overlay ∷ two_nodes ∷ []) none_yet
      (created (two_nodes ∷ []) overlay refl overlay_run)

few : overlays (two_nodes ∷ []) ≤ 1
unfolding get_network_type
few = omega arith

Steps-overlays_example : overlays (overlay ∷ two_nodes ∷ []) ≤ 1
Steps-overlays_example = Steps-overlays toy (two_nodes ∷ []) (overlay ∷ two_nodes ∷ []) steps few

bgp_type : get_network_type (some bgp) ≡ network_type_underlay
unfolding get_network_type
bgp_type = refl

bgp_mode : get_network_mode (some bgp) ≡ network_mode_bgp
unfolding get_network_mode
bgp_mode = refl

bgp_selector : no_selector bgp ≡ false
unfolding no_selector
bgp_selector = refl

network_update_validation-panicked_example :
    network_update_validation toy (some bgp) (some (without_config bgp)) ≡ panicked
network_update_validation-panicked_example =
    network_update_validation-panicked toy bgp bgp_type bgp_selector bgp_mode
