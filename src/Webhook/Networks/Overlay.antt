-- ===== src/Webhook/Networks/Overlay.antt =====
-- The overlay network that pkg/webhook/validating/network.go keeps single.
use hybridnet.Base.{
  ℕ, ◌+◌, ◌≤◌, ◌≡◌, refl, sym, ap, subst, inl, inr, false, List, [], ◌∷◌, ◌++◌, some, String,
  str_eq, eq_iff, Bool-cases, arith, if◌then◌else◌,
}
use hybridnet.Net.{AddressLib}
use hybridnet.Api.Types.{NetworkObject, get_network_type, network_type_overlay}
use hybridnet.Webhook.Cluster.{got, Cluster, allowed}
use hybridnet.Webhook.Networks.Laws.{create_overlay, new_overlay_lem}
use hybridnet.Webhook.Networks.{has_overlay, network_create_validation, network_update_validation}

-- The number of overlay networks.
abbrev pub overlays : List NetworkObject → ℕ
overlays [] = 0
overlays (n ∷ ns) =
    (if str_eq (get_network_type (some n)) network_type_overlay then 1 else 0) + overlays ns

has_overlay-overlays : (ns : List NetworkObject) → has_overlay ns ≡ false → overlays ns ≡ 0
unfolding has_overlay
has_overlay-overlays [] h = refl
has_overlay-overlays (n ∷ ns) h = ground (arith, has_overlay-overlays ns, h)

overlays-append : (ms ns : List NetworkObject) → overlays (ms ++ ns) ≡ overlays ms + overlays ns
overlays-append [] ns = omega arith
overlays-append (m ∷ ms) ns = omega (arith, overlays-append ms ns)

-- The networks of the cluster under the requests that the webhook lets in. It reads the networks that
-- are there.
pub data Step (lib : AddressLib) (k : Cluster)
    : List NetworkObject → List NetworkObject → Type 0 where
  created :
      (ns : List NetworkObject) (n : NetworkObject)
      → k.networks ≡ got ns
      → network_create_validation lib k (some n) ≡ allowed
      → Step lib k ns (n ∷ ns)
  updated :
      (ms ns : List NetworkObject) (old new : NetworkObject)
      → network_update_validation lib (some old) (some new) ≡ allowed
      → Step lib k (ms ++ old ∷ ns) (ms ++ new ∷ ns)
  deleted : (ms ns : List NetworkObject) (n : NetworkObject) → Step lib k (ms ++ n ∷ ns) (ms ++ ns)

updated_type :
    (lib : AddressLib) (old new : NetworkObject)
    → network_update_validation lib (some old) (some new) ≡ allowed
    → get_network_type (some old) ≡ get_network_type (some new)
unfolding network_update_validation
updated_type lib old new h =
    ground (arith, h, eq_iff (get_network_type (some old)) (get_network_type (some new)))

created_lem :
    (lib : AddressLib) (k : Cluster) (ns : List NetworkObject) (n : NetworkObject)
    → k.networks ≡ got ns
    → network_create_validation lib k (some n) ≡ allowed
    → overlays ns ≤ 1
    → overlays (n ∷ ns) ≤ 1
created_lem lib k ns n same h few =
    let overlay = eq_iff (get_network_type (some n)) network_type_overlay in
    elim (Bool-cases (str_eq (get_network_type (some n)) network_type_overlay)) [
      | inr e ↦ rw (e, if◌then◌else◌) (omega arith)
      | inl e ↦
          let (ms, q, none_there, _, _) =
            new_overlay_lem lib n k.networks (create_overlay lib k n (overlay.0 e) h) in
          let p : ns ≡ ms = cc in
          let z : overlays ns ≡ 0 =
            has_overlay-overlays ns (subst (λ l. has_overlay l ≡ false) (sym p) none_there) in
          rw (e, if◌then◌else◌) (omega (arith, z))
    ]

updated_lem :
    (ms ns : List NetworkObject) (old new : NetworkObject)
    → get_network_type (some old) ≡ get_network_type (some new)
    → overlays (ms ++ old ∷ ns) ≡ overlays (ms ++ new ∷ ns)
updated_lem ms ns old new e =
    let one : String → ℕ = λ t. if str_eq t network_type_overlay then 1 else 0 in
    omega (arith, overlays-append ms (old ∷ ns), overlays-append ms (new ∷ ns), ap one e)

Step-overlays :
    (lib : AddressLib) (k : Cluster) (ns ms : List NetworkObject)
    → Step lib k ns ms
    → overlays ns ≤ 1
    → overlays ms ≤ 1
Step-overlays lib k ns ms (created l n same h) few = created_lem lib k ns n same h few
Step-overlays lib k ns ms (updated l m old new h) few =
    omega (arith, updated_lem l m old new (updated_type lib old new h))
Step-overlays lib k ns ms (deleted l m n) few =
    omega (arith, overlays-append l (n ∷ m), overlays-append l m)

-- Any number of such steps, each with the cluster as it is then.
pub data Steps (lib : AddressLib) (ns : List NetworkObject) : List NetworkObject → Type 0 where
  none_yet : Steps lib ns ns
  next :
      (k : Cluster) (ms ls : List NetworkObject)
      → Steps lib ns ms
      → Step lib k ms ls
      → Steps lib ns ls

-- If the cluster has at most one overlay network, it has at most one after any requests that the
-- webhook lets in, when each creation is checked against the networks that are there.
pub Steps-overlays :
    (lib : AddressLib) (ns ms : List NetworkObject)
    → Steps lib ns ms
    → overlays ns ≤ 1
    → overlays ms ≤ 1
Steps-overlays lib ns ms none_yet few = few
Steps-overlays lib ns ms (next k ls _ h s) few =
    Step-overlays lib k ls ms s (Steps-overlays lib ns ls h few)
