-- ===== src/Pods/Network.antt =====
-- pkg/controllers/networking/pod_controller.go: `selectNetwork` and `matchNetworkTypeInManager`, and of
-- pkg/controllers/utils/client.go the searches that they call.
use hybridnet.Base.{
  Bool, true, false, not, ◌&&◌, List, [], ◌∷◌, Option, none, some, String, str_eq, is_empty,
  if◌then◌else◌,
}
use hybridnet.Base.Dict.{Dict}
use hybridnet.Base.Outcome.{M, ok, err, ◌>>=◌, return, throw}
use hybridnet.Api.Types.{NetworkObject, network_type_overlay}
use hybridnet.Ipam.Types.{NetworkType}
use hybridnet.Ipam.Family.{underlay, overlay}
use hybridnet.Ipam.Allocator
use hybridnet.Ipam.DualStack
use hybridnet.Utils.{pick_first_non_empty_string}
use hybridnet.Store.Types.{Pod, value_of}
use hybridnet.Store.Client.{ApiError}
use hybridnet.Pods.World.{
  World, no_network, mismatched_network, unknown_network_type, Setup, Task, on_cluster,
  read_network_type,
}

abbrev pub overlay_node_name : String
overlay_node_name = "c3e6699d28e7"

abbrev pub annotation_specified_network : String
annotation_specified_network = "networking.alibaba.com/specified-network"

abbrev pub annotation_network_type : String
annotation_network_type = "networking.alibaba.com/network-type"

no_selector : Dict String → Bool
no_selector [] = true
no_selector (_ ∷ _) = false

-- The name of the first underlay network that selects the labels, and of the first overlay network.
first_underlay : (Dict String → Bool) → List NetworkObject → String
unfolding no_selector
first_underlay selects [] = ""
first_underlay selects (n ∷ ns) =
    let rest = first_underlay selects ns in
    if not (str_eq n.type network_type_overlay)
      && not (no_selector n.node_selector)
      && selects n.node_selector
    then n.name
    else rest

first_overlay : List NetworkObject → String
first_overlay [] = ""
first_overlay (n ∷ ns) =
    let rest = first_overlay ns in if str_eq n.type network_type_overlay then n.name else rest

-- The choice between the networks of the index and a search, whose errors are one.
first_name : List NetworkObject → Option String
first_name [] = none
first_name (n ∷ _) = some n.name

module _ {S : Type 0} (k : Setup S) where
  find_underlay_network_for_node : Dict String → M S ApiError String
  unfolding first_underlay
  find_underlay_network_for_node labels = do
    networks ← k.reads.all_networks
    return (first_underlay (λ selector. k.selector_matches selector labels) networks)

  find_underlay_network_for_node_name : String → M S ApiError String
  unfolding find_underlay_network_for_node
  find_underlay_network_for_node_name node_name = do
    labels ← k.reads.node_labels node_name
    find_underlay_network_for_node labels

  find_overlay_network : M S ApiError String
  unfolding first_overlay
  find_overlay_network = do networks ← k.reads.all_networks; return (first_overlay networks)

  -- `matchNetworkTypeInManager`
  match_network_type_in_manager : String → NetworkType → World S → Bool
  match_network_type_in_manager name type w =
      if k.dual_stack_enabled
      then DualStack.match_network_type name type w.networks
      else Allocator.match_network_type name type w.networks

  -- The tests of a network that a search has found.
  checked : NetworkType → String → Task S String
  unfolding match_network_type_in_manager
  checked type name w =
      if is_empty name
      then err w no_network
      else if not (match_network_type_in_manager name type w)
      then err w mismatched_network
      else ok w name

  -- A case of the `switch`: the networks that the index has for a node, and else those of a search.
  select_of : NetworkType → String → M S ApiError String → Task S String
  unfolding checked first_name
  select_of type node search = do
    networks ← on_cluster (k.reads.networks_of_node node)
    elim (first_name networks) [
      | some name ↦ return name
      | none ↦ (do name ← on_cluster search; checked type name)
    ]

  select_by_type : Pod → NetworkType → Task S String
  unfolding select_of find_underlay_network_for_node_name find_overlay_network
  select_by_type pod type =
      if str_eq type underlay
      then select_of underlay pod.node_name (find_underlay_network_for_node_name pod.node_name)
      else if str_eq type overlay
      then select_of overlay overlay_node_name find_overlay_network
      else throw (unknown_network_type type)

  -- `selectNetwork`
  unfoldable pub select_network : Pod → Task S String
  unfolding select_by_type read_network_type
  select_network pod =
      let specified = pick_first_non_empty_string (
        value_of annotation_specified_network pod.annotations
        ∷ value_of annotation_specified_network pod.labels
        ∷ []) in
      if not (is_empty specified) then return specified else (do
        type ← read_network_type k (
            pick_first_non_empty_string (
              value_of annotation_network_type pod.annotations
              ∷ value_of annotation_network_type pod.labels
              ∷ []))
        select_by_type pod type)
