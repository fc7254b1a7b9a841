-- ===== src/Webhook/Networks/Laws.antt =====
-- What pkg/webhook/validating/network.go lets in.
use hybridnet.Base.{
  ◌≡◌, ◌≢◌, ◌⊎◌, refl, ◌↔◌, inl, inr, true, false, List, [], ◌∷◌, Option, none, some, String, pos,
  str_eq, eq_iff, Bool-cases, Option-cases, length, arith,
}
use hybridnet.Net.{Ip, AddressLib}
use hybridnet.Api.Types.{
  BgpPeer, NetworkConfig, NetworkObject, get_network_type, get_network_mode, network_type_underlay,
  network_type_overlay, network_mode_bgp, network_mode_vlan, network_mode_vxlan,
}
use hybridnet.Webhook.Cluster.{Got, got, not_found, failed, Cluster, allowed, panicked}
use hybridnet.Webhook.Networks.{
  has_overlay, no_selector, has_no_net_id, is_zero, check_peers, check_bgp_config, check_mode,
  check_new_overlay, network_create_validation, network_update_validation, check_update,
  then_net_id, check_changed_mode, check_changed_bgp,
}

abbrev pub IsOverlay : NetworkObject → Type 0
IsOverlay n = get_network_type (some n) ≡ network_type_overlay

pub create_overlay :
    (lib : AddressLib) (k : Cluster) (n : NetworkObject)
    → IsOverlay n
    → network_create_validation lib k (some n) ≡ allowed
    → check_new_overlay lib n k.networks ≡ allowed
unfolding network_create_validation
create_overlay lib k n o h =
    let not_underlay : str_eq (get_network_type (some n)) network_type_underlay ≡ false =
      rw o refl in
    let is_overlay : str_eq (get_network_type (some n)) network_type_overlay ≡ true = rw o refl in
    ground (arith, not_underlay, is_overlay, h)

pub new_overlay_lem :
    (lib : AddressLib) (n : NetworkObject) (g : Got (List NetworkObject))
    → check_new_overlay lib n g ≡ allowed
    → (ns : List NetworkObject) × (g ≡ got ns)
      × (has_overlay ns ≡ false)
      × (no_selector n ≡ true)
      × (has_no_net_id n ≡ false)
unfolding check_new_overlay
new_overlay_lem lib n (got ns) h =
    (ns, refl, ground (arith, h), ground (arith, h), ground (arith, h))
new_overlay_lem lib n not_found h = absurd (ground (arith, h))
new_overlay_lem lib n (failed e) h = absurd (ground (arith, h))

-- Each peer of a BGP network has an address and an AS number.
abbrev pub GoodPeers : AddressLib → List BgpPeer → Type 0
GoodPeers lib [] = Unit {0}
GoodPeers lib (p ∷ ps) =
    ((a : Ip) × (lib.parse_ip p.address ≡ some a)) × (p.asn ≢ pos 0) × GoodPeers lib ps

check_peers_lem :
    (lib : AddressLib) (ps : List BgpPeer) → check_peers lib ps ≡ allowed → GoodPeers lib ps
unfolding check_peers is_zero
check_peers_lem lib [] h = tt
check_peers_lem lib (p ∷ ps) h = elim (Option-cases (lib.parse_ip p.address)) [
  | inl e ↦ absurd (ground (arith, e, h))
  | inr (a, e) ↦
      ((a, e), λ z. ground (arith, e, z, h), check_peers_lem lib ps (ground (arith, e, h)))
]

-- What the mode of a network asks of it.
pub record FitsMode (lib : AddressLib) (n : NetworkObject) : Type 0 where
  pub known :
      (get_network_mode (some n) ≡ network_mode_bgp)
      ⊎ (get_network_mode (some n) ≡ network_mode_vlan)
      ⊎ (get_network_mode (some n) ≡ network_mode_vxlan)
  pub vxlan : get_network_mode (some n) ≡ network_mode_vxlan ↔ IsOverlay n
  pub bgp :
      get_network_mode (some n) ≡ network_mode_bgp
      → (n.net_id ≢ none)
        × ((c : NetworkConfig) × (n.config ≡ some c)
            × (length c.bgp_peers ≡ 1)
            × GoodPeers lib c.bgp_peers)

check_mode_bgp :
    (lib : AddressLib) (n : NetworkObject)
    → check_mode lib n ≡ allowed
    → get_network_mode (some n) ≡ network_mode_bgp
    → (get_network_type (some n) ≡ network_type_underlay)
      × (n.net_id ≢ none)
      × (check_bgp_config lib n.config ≡ allowed)
unfolding check_mode has_no_net_id
check_mode_bgp lib n h m =
    let is_bgp : str_eq (get_network_mode (some n)) network_mode_bgp ≡ true = rw m refl in
    let type_iff = eq_iff (get_network_type (some n)) network_type_underlay in
    (
      ground (arith, h, is_bgp, type_iff),
      λ e. ground (arith, h, is_bgp, e),
      ground (arith, h, is_bgp),
    )

check_bgp_config_lem :
    (lib : AddressLib) (o : Option NetworkConfig)
    → check_bgp_config lib o ≡ allowed
    → (c : NetworkConfig) × (o ≡ some c) × (length c.bgp_peers ≡ 1) × GoodPeers lib c.bgp_peers
unfolding check_bgp_config
check_bgp_config_lem lib none h = absurd (ground (arith, h))
check_bgp_config_lem lib (some c) h =
    (c, refl, ground (arith, h), check_peers_lem lib c.bgp_peers (ground (arith, h)))

check_mode_cases :
    (lib : AddressLib) (n : NetworkObject)
    → check_mode lib n ≡ allowed
    → let mode = get_network_mode (some n) in
      let type = get_network_type (some n) in
      ((mode ≡ network_mode_bgp) × (type ≡ network_type_underlay))
      ⊎ ((mode ≡ network_mode_vlan) × (type ≡ network_type_underlay))
      ⊎ ((mode ≡ network_mode_vxlan) × (type ≡ network_type_overlay))
unfolding check_mode
check_mode_cases lib n h =
    let mode = get_network_mode (some n) in
    let underlay = eq_iff (get_network_type (some n)) network_type_underlay in
    let overlay = eq_iff (get_network_type (some n)) network_type_overlay in
    elim (Bool-cases (str_eq mode network_mode_bgp)) [
      | inl b ↦ inl ((eq_iff mode network_mode_bgp).0 b, ground (arith, h, b, underlay))
      | inr b ↦ elim (Bool-cases (str_eq mode network_mode_vlan)) [
        | inl v ↦ inr (inl ((eq_iff mode network_mode_vlan).0 v, ground (arith, h, b, v, underlay)))
        | inr v ↦ elim (Bool-cases (str_eq mode network_mode_vxlan)) [
          | inl x ↦
              inr (inr ((eq_iff mode network_mode_vxlan).0 x, ground (arith, h, b, v, x, overlay)))
          | inr x ↦ absurd (ground (arith, h, b, v, x))
        ]
      ]
    ]

not_both : (t : String) → t ≡ network_type_underlay → t ≡ network_type_overlay → ⊥
not_both t u o =
    let e : str_eq t network_type_underlay ≡ true = rw u refl in
    let f : str_eq t network_type_underlay ≡ false = rw o refl in ground (arith, e, f)

vxlan_not : (m : String) → m ≡ network_mode_vxlan → (m ≢ network_mode_bgp) × (m ≢ network_mode_vlan)
vxlan_not m x = (
  λ b.
      let e : str_eq m network_mode_bgp ≡ true = rw b refl in
      let f : str_eq m network_mode_bgp ≡ false = rw x refl in ground (arith, e, f),
  λ v.
      let e : str_eq m network_mode_vlan ≡ true = rw v refl in
      let f : str_eq m network_mode_vlan ≡ false = rw x refl in ground (arith, e, f),
)

check_mode-FitsMode :
    (lib : AddressLib) (n : NetworkObject) → check_mode lib n ≡ allowed → FitsMode lib n
check_mode-FitsMode lib n h = record {
  known = elim (check_mode_cases lib n h) [
    | inl c ↦ inl c.0
    | inr (inl c) ↦ inr (inl c.0)
    | inr (inr c) ↦ inr (inr c.0)
  ];
  vxlan = elim (check_mode_cases lib n h) [
    | inl c ↦ (λ x. absurd ((vxlan_not _ x).0 c.0), λ o. absurd (not_both _ c.1 o))
    | inr (inl c) ↦ (λ x. absurd ((vxlan_not _ x).1 c.0), λ o. absurd (not_both _ c.1 o))
    | inr (inr c) ↦ (λ x. c.1, λ o. c.0)
  ];
  bgp = λ m. let (_, id, c) = check_mode_bgp lib n h m in (id, check_bgp_config_lem lib n.config c);
}

-- What the webhook has checked of a network that it lets in.
pub record Admitted (lib : AddressLib) (k : Cluster) (n : NetworkObject) : Type 0 where
  pub fits : FitsMode lib n
  pub kind :
      ((get_network_type (some n) ≡ network_type_underlay) × (no_selector n ≡ false))
      ⊎ (IsOverlay n
          × (no_selector n ≡ true)
          × (has_no_net_id n ≡ false)
          × ((ns : List NetworkObject) × (k.networks ≡ got ns) × (has_overlay ns ≡ false)))

create_underlay :
    (lib : AddressLib) (k : Cluster) (n : NetworkObject)
    → str_eq (get_network_type (some n)) network_type_underlay ≡ true
    → network_create_validation lib k (some n) ≡ allowed
    → (no_selector n ≡ false) × (check_mode lib n ≡ allowed)
unfolding network_create_validation
create_underlay lib k n u h = (ground (arith, u, h), ground (arith, u, h))

create_known :
    (lib : AddressLib) (k : Cluster) (n : NetworkObject)
    → str_eq (get_network_type (some n)) network_type_underlay ≡ false
    → network_create_validation lib k (some n) ≡ allowed
    → IsOverlay n
unfolding network_create_validation
create_known lib k n u h =
    ground (arith, u, h, eq_iff (get_network_type (some n)) network_type_overlay)

new_overlay_mode :
    (lib : AddressLib) (n : NetworkObject) (g : Got (List NetworkObject))
    → check_new_overlay lib n g ≡ allowed
    → check_mode lib n ≡ allowed
unfolding check_new_overlay
new_overlay_mode lib n (got ns) h = ground (arith, h)
new_overlay_mode lib n not_found h = absurd (ground (arith, h))
new_overlay_mode lib n (failed e) h = absurd (ground (arith, h))

-- A network that NetworkCreateValidation lets in is an underlay network with a node selector, or an
-- overlay network with a net ID and no node selector where no other overlay network is; its mode is a
-- known one, VXLAN exactly if it is an overlay network; and a BGP network has a net ID and one peer,
-- with an address and an AS number.
pub network_create_validation-Admitted :
    (lib : AddressLib) (k : Cluster) (n : NetworkObject)
    → network_create_validation lib k (some n) ≡ allowed
    → Admitted lib k n
network_create_validation-Admitted lib k n h =
    let underlay = eq_iff (get_network_type (some n)) network_type_underlay in
    elim (Bool-cases (str_eq (get_network_type (some n)) network_type_underlay)) [
      | inl u ↦
          let (selector, mode) = create_underlay lib k n u h in
          record { fits = check_mode-FitsMode lib n mode; kind = inl (underlay.0 u, selector) }
      | inr u ↦
          let o = create_known lib k n u h in
          let c = create_overlay lib k n o h in
          let (ns, e, none_there, selector, id) = new_overlay_lem lib n k.networks c in
          record {
            fits = check_mode-FitsMode lib n (new_overlay_mode lib n k.networks c);
            kind = inr (o, selector, id, (ns, e, none_there));
          }
    ]

abbrev pub without_config : NetworkObject → NetworkObject
without_config n = record n { config = none }

without_config_lem :
    (n : NetworkObject)
    → (get_network_type (some (without_config n)) ≡ get_network_type (some n))
      × (get_network_mode (some (without_config n)) ≡ get_network_mode (some n))
unfolding get_network_type get_network_mode
without_config_lem n = (refl, refl)

update_without_config :
    (lib : AddressLib) (n : NetworkObject)
    → get_network_mode (some n) ≡ network_mode_bgp
    → check_update lib n (without_config n) ≡ panicked
unfolding check_update check_changed_mode check_changed_bgp then_net_id
update_without_config lib n m =
    let mode : str_eq (get_network_mode (some (without_config n))) network_mode_bgp ≡ true =
      rw ((without_config_lem n).1, m) refl in
    ground (arith, mode, eq_iff n.mode n.mode)

-- On an underlay network with a node selector whose mode is BGP, an update that takes its config away
-- and changes nothing else panics.
pub network_update_validation-panicked :
    (lib : AddressLib) (n : NetworkObject)
    → get_network_type (some n) ≡ network_type_underlay
    → no_selector n ≡ false
    → get_network_mode (some n) ≡ network_mode_bgp
    → network_update_validation lib (some n) (some (without_config n)) ≡ panicked
unfolding network_update_validation no_selector
network_update_validation-panicked lib n u s m =
    let t = (without_config_lem n).0 in
    let underlay : str_eq (get_network_type (some (without_config n))) network_type_underlay
        ≡ true =
      rw (t, u) refl in
    let same : str_eq (get_network_type (some n)) (get_network_type (some (without_config n)))
        ≡ true =
      rw (t, u) refl in
    ground (arith, underlay, same, s, update_without_config lib n m)
