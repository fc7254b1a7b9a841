-- ===== src/Api/Quota.antt =====
-- pkg/controllers/networking/quota_controller.go: the quota labels of the nodes of a network. The
-- patches are what the model keeps of the Kubernetes API.
use mathlib.Core.List.{◌++◌, map, append_assoc}
use hybridnet.Base.{
  ◌∙◌, sym, ◌≡◌, refl, ap, Bool, true, false, List, [], ◌∷◌, Option, none, some, String, str_eq,
  if◌then◌else◌,
}
use hybridnet.Base.Dict.{Dict}
use hybridnet.Api.Types.{
  Count, NetworkStatus, NetworkObject, get_network_type, network_type_underlay, is_count_available,
}

abbrev pub quota_of : Option Count → String
quota_of c = if is_count_available c then "nonempty" else "empty"

-- The map `quotaLabels`.
pub quota_labels : Bool → NetworkStatus → Dict String
quota_labels true s =
    ("networking.alibaba.com/ipv4-address-quota", quota_of s.statistics)
    ∷ ("networking.alibaba.com/ipv6-address-quota", quota_of s.ipv6_statistics)
    ∷ ("networking.alibaba.com/dualstack-address-quota", quota_of s.dual_stack_statistics)
    ∷ []
quota_labels false s = ("networking.alibaba.com/address-quota", quota_of s.statistics) ∷ []

-- The patch of the labels of one node.
pub record Patch : Type 0 where
  pub node : String
  pub labels : Dict String

-- `patchNodeLabels`; `none` is a call that sends nothing.
pub patch_node_labels : Dict String → String → Option Patch
patch_node_labels [] node_name = none
patch_node_labels (l ∷ ls) node_name = some (record { node = node_name; labels = l ∷ ls })

-- The loop of `Reconcile` that collects the closures. All its rounds share the variable `nodeName` (go 1.16),
-- which each of them writes; a closure reads it when it runs, and so is a function of what it holds then.
pub collect_patch_funcs :
    Dict String
    → List String
    → String
    → List (String → Option Patch)
    → String × List (String → Option Patch)
unfolding patch_node_labels
collect_patch_funcs labels [] node_name patch_funcs = (node_name, patch_funcs)
collect_patch_funcs labels (next ∷ names) node_name patch_funcs =
    collect_patch_funcs labels names next (patch_funcs ++ patch_node_labels labels ∷ [])

-- `AggregateGoroutines`: the closures run after the loop, on the variable as the loop left it.
pub run_patch_funcs : String × List (String → Option Patch) → List (Option Patch)
run_patch_funcs (node_name, patch_funcs) = map (λ f. f node_name) patch_funcs

-- The patches that `Reconcile` sends for a network that it has found; they run in parallel.
pub quota_patches : Bool → NetworkObject → List (Option Patch)
unfolding quota_labels collect_patch_funcs run_patch_funcs
quota_patches dual_stack n =
    if str_eq (get_network_type (some n)) network_type_underlay
    then run_patch_funcs
        (collect_patch_funcs (quota_labels dual_stack n.status) n.status.node_list "" [])
    else []

-- A list with one element for each name.
abbrev each : {A : Type 0} → A → List String → List A
each a = map (λ _. a)

each_append :
    {A : Type 0} (a : A) (xs ys : List String) → each a (xs ++ ys) ≡ each a xs ++ each a ys
each_append a [] ys = refl
each_append a (x ∷ xs) ys = ap (◌∷◌ a) (each_append a xs ys)

map-each : {A B : Type 0} (f : A → B) (a : A) (xs : List String) → map f (each a xs) ≡ each (f a) xs
map-each f a [] = refl
map-each f a (x ∷ xs) = ap (◌∷◌ (f a)) (map-each f a xs)

collect_patch_funcs_lem :
    (labels : Dict String) (seen names : List String) (last node_name : String)
    → collect_patch_funcs labels
        (names ++ last ∷ [])
        node_name
        (each (patch_node_labels labels) seen)
      ≡ (last, each (patch_node_labels labels) (seen ++ (names ++ last ∷ [])))
unfolding collect_patch_funcs
collect_patch_funcs_lem labels seen [] last node_name =
    ap (λ x. (last, x)) (sym (each_append (patch_node_labels labels) seen (last ∷ [])))
collect_patch_funcs_lem labels seen (next ∷ names) last node_name =
    ap (collect_patch_funcs labels (names ++ last ∷ []) next)
      (sym (each_append (patch_node_labels labels) seen (next ∷ [])))
    ∙ collect_patch_funcs_lem labels (seen ++ next ∷ []) names last next
    ∙ ap (λ x. (last, each (patch_node_labels labels) x))
        (append_assoc seen (next ∷ []) (names ++ last ∷ []))

patch_node_labels_lem :
    (dual_stack : Bool) (s : NetworkStatus) (node_name : String)
    → patch_node_labels (quota_labels dual_stack s) node_name
      ≡ some (record { node = node_name; labels = quota_labels dual_stack s })
unfolding patch_node_labels quota_labels
patch_node_labels_lem true s node_name = refl
patch_node_labels_lem false s node_name = refl

rounds_lem :
    (labels : Dict String) (names : List String) (last : String)
    → run_patch_funcs (collect_patch_funcs labels (names ++ last ∷ []) "" [])
      ≡ map (λ _. patch_node_labels labels last) (names ++ last ∷ [])
unfolding run_patch_funcs
rounds_lem labels names last =
    ap run_patch_funcs (collect_patch_funcs_lem labels [] names last "")
    ∙ map-each (λ f. f last) (patch_node_labels labels) (names ++ last ∷ [])

-- For an underlay network with nodes, Reconcile sends one patch of the quota labels for each of them, and
-- every patch goes to the last node of the list.
pub quota_patches_lem :
    (dual_stack : Bool) (n : NetworkObject) (names : List String) (last : String)
    → get_network_type (some n) ≡ network_type_underlay
    → n.status.node_list ≡ names ++ last ∷ []
    → quota_patches dual_stack n
      ≡ map
          (λ _. some (record { node = last; labels = quota_labels dual_stack n.status }))
          n.status.node_list
unfolding quota_patches
quota_patches_lem dual_stack n names last e nodes =
    let labels = quota_labels dual_stack n.status in
    rw e (
      ap (λ xs. run_patch_funcs (collect_patch_funcs labels xs "" [])) nodes
      ∙ rounds_lem labels names last
      ∙ ap (λ p. map (λ _. p) (names ++ last ∷ [])) (patch_node_labels_lem dual_stack n.status last)
      ∙ ap (map (λ _. some (record { node = last; labels = labels }))) (sym nodes))
