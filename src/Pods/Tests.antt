-- ===== src/Pods/Tests.antt =====
-- A small world for pkg/controllers/networking/pod_controller.go, tests, and the theorems applied to it.

use hybridnet.Base.{
  ℕ, zero, suc, ◌≡◌, refl, subst, inl, inr, true, false, [], ◌∷◌, Option, none, some, String,
  contains, str_eq, eq_iff, is_empty, Bool-cases, arith,
}
use hybridnet.Base.Dict.{lookup}
use hybridnet.Base.Outcome.{ok, err, left_by}
use hybridnet.Base.Outcome.Ends.{Ends}
use hybridnet.Net.{short}
use hybridnet.Ipam.Types.{IpInfo, NetworkSet, status_using}
use hybridnet.Ipam.Subnet.Tests.{toy, small, ten}
use hybridnet.Ipam.Tests.{net, nets, nets-AllReady}
use hybridnet.Ipam.Family.{ipv4_only}
use hybridnet.Utils.{pick_first_non_empty_string}
use hybridnet.Ipam.IpSlice
use hybridnet.Ipam.DualStack
use hybridnet.Ipam.Network
use hybridnet.Ipam.Subnet
use hybridnet.Ipam.SubnetSlice
use hybridnet.Ipam.Network.Records.{Profile, IsFit, profile, profile_at}
use hybridnet.Ipam.Network.Records.{AllFit}
use hybridnet.Store.Types.{Pod}
use hybridnet.Store.Client.{not_found}
use hybridnet.Store.Tests.{
  Server, server, server_view, server-Honest, server-Answers, texts, web, empty_server,
}
use hybridnet.Pods.Text.{get_index_from_name, split}
use hybridnet.Pods.World.{World, Setup}
use hybridnet.Pods.Allocate.{subnet_names, annotation_specified_subnet, allocate_ips}
use hybridnet.Pods.Compensation.{Refunded, Provided, allocate_ips-Ends}

-- A server that is closed to notes, so that a coupling fails at its last call.
abbrev setup : Setup Server
setup = record {
  dual_stack_enabled = true;
  getenv = λ _. "";
  stateful_workload_kinds = "StatefulSet" ∷ [];
  default_ip_retain = true;
  lib = toy;
  texts = texts;
  mac = "02:12:34:00:00:01";
  selector_matches = λ _ _. true;
  client = server true;
  reads = record {
    get_pod = λ _ _ s. err s not_found;
    networks_of_node = λ _ s. ok s [];
    all_networks = λ s. ok s [];
    node_labels = λ _ s. ok s [];
    patch_finalizers = λ _ _ s. ok s tt;
  };
}

abbrev world : World Server
world = record { networks = nets; cluster = empty_server; family_env = none; type_env = none }

abbrev taken : IpInfo
taken = record {
  address = record { ip = ten 1; mask = some (record { size = 4; ones = 29 }) };
  gateway = none;
  net_id = some 7;
  subnet = "s1";
  network = "n1";
  pod_name = "web-0";
  pod_namespace = "shop";
  status = status_using;
}

-- A pod that names its subnet.
abbrev pod : Pod
pod = record web { annotations = (annotation_specified_subnet, "s1") ∷ [] }

abbrev nets_after : NetworkSet
nets_after = left_by nets (DualStack.allocate toy ipv4_only "n1" ("s1" ∷ []) "web-0" "shop" nets)

taken_run :
    DualStack.allocate toy ipv4_only "n1" (subnet_names pod) "web-0" "shop" nets
    ≡ ok nets_after (taken ∷ [])
unfolding subnet_names DualStack.allocate Network.get_ipv4_subnet SubnetSlice.get_subnet
    Subnet.allocate_next lookup pick_first_non_empty_string IpSlice.next contains
taken_run = refl

-- The network has one subnet.
only_small : (i : ℕ) (p : Profile) → profile_at net i ≡ some p → (0 ≡ i) × (profile small ≡ p)
only_small zero p e = (refl, of e)
  where
    of : Path (Option Profile) (some (profile small)) (some p) → profile small ≡ p
    of e = cc
only_small (suc i) p e = cc

-- The available texts of the subnet.
small_written :
    (text : String)
    → contains text ("10.0.0.1" ∷ "10.0.0.2" ∷ []) ≡ true
    → (contains text ("10.0.0.3" ∷ []) ≡ false) × (toy.ip_string (toy.parse_ip text) ≡ text)
unfolding contains short
small_written text h = elim (Bool-cases (str_eq "10.0.0.1" text)) [
  | inl e ↦
      subst (λ x. (contains x ("10.0.0.3" ∷ []) ≡ false) × (toy.ip_string (toy.parse_ip x) ≡ x))
        ((eq_iff "10.0.0.1" text).0 e) (refl, refl)
  | inr e ↦
      subst (λ x. (contains x ("10.0.0.3" ∷ []) ≡ false) × (toy.ip_string (toy.parse_ip x) ≡ x))
        ((eq_iff "10.0.0.2" text).0 (ground (arith, h, e))) (refl, refl)
]

net-IsFit : IsFit toy net
unfolding lookup
net-IsFit = record {
  named = λ i p e.
      let (at, q) = only_small i p e in
      subst (λ j. (is_empty p.name ≡ false) × (lookup p.name net.subnets.subnet_index_map ≡ some j))
        at
        (subst
          (λ r. (is_empty r.name ≡ false) × (lookup r.name net.subnets.subnet_index_map ≡ some 0)) q
          (refl, refl));
  numbered = λ i p e. subst (λ r. (x : ℕ) × (r.net_id ≡ some x)) (only_small i p e).1 (7, refl);
  written = λ i p text e.
      subst
        (λ r.
          contains text r.available ≡ true
          → (contains text r.reserved ≡ false) × (toy.ip_string (toy.parse_ip text) ≡ text))
        (only_small i p e).1 (small_written text);
}

nets-AllFit : AllFit toy nets
unfolding lookup
nets-AllFit name n e = let q : net ≡ n = ground (arith, e) in subst (IsFit toy) q net-IsFit

allocate_ips-Ends_example :
    Ends
      (Refunded server_view setup pod world)
      (λ w _. Provided server_view setup pod world nets_after (taken ∷ []) w)
      (allocate_ips setup pod "n1" ipv4_only world)
allocate_ips-Ends_example =
    allocate_ips-Ends server_view setup pod (server-Honest true) (server-Answers true) ipv4_only
      "n1" world nets-AllReady nets-AllFit nets_after (taken ∷ []) taken_run

index_of_pod : get_index_from_name "web-12" ≡ 12
unfolding get_index_from_name
index_of_pod = refl

index_of_other : get_index_from_name "web-x" ≡ 2147483647
unfolding get_index_from_name
index_of_other = refl

pool : split "," "10.0.0.1,10.0.0.2" ≡ "10.0.0.1" ∷ "10.0.0.2" ∷ []
unfolding split
pool = refl
