-- ===== src/Webhook/Subnets/Fits.antt =====
-- The test of a new subnet against its parent network in pkg/webhook/validating/subnet.go.
use hybridnet.Base.{
  ◌≡◌, ◌≢◌, ◌⊎◌, refl, inl, inr, true, false, none, some, ℤ, pos, negsuc, str_eq, eq_iff,
  Option-cases, arith,
}
use hybridnet.Api.Types.{
  NetworkObject, SubnetObject, get_network_mode, network_mode_bgp, network_mode_vlan,
  network_mode_vxlan,
}
use hybridnet.Webhook.Subnets.{same_int, vlan_net_id, check_net_id}

-- The net ID that a subnet has from itself or from its network.
abbrev pub HasNetId : NetworkObject → SubnetObject → Type 0
HasNetId n s =
    (v : ℤ) × ((s.net_id ≡ some v) ⊎ ((s.net_id ≡ none) × (n.net_id ≡ some v)))
    × ((w : ℤ) → n.net_id ≡ some w → same_int v w ≡ true)

same_int_refl : (v : ℤ) → same_int v v ≡ true
unfolding same_int
same_int_refl (pos n) = ground arith
same_int_refl (negsuc n) = ground arith

vlan_net_id_lem :
    (n : NetworkObject) (s : SubnetObject) → vlan_net_id s.net_id n.net_id ≡ none → HasNetId n s
unfolding vlan_net_id
vlan_net_id_lem n s h = elim (Option-cases s.net_id) [
  | inl e ↦ elim (Option-cases n.net_id) [
    | inl f ↦ absurd (ground (arith, e, f, h))
    | inr (v, f) ↦ (v, inr (e, f), λ w g. ground (arith, f, g, same_int_refl v))
  ]
  | inr (v, e) ↦ elim (Option-cases n.net_id) [
    | inl f ↦ (v, inl e, λ w g. ground (arith, f, g))
    | inr (u, f) ↦ (v, inl e, λ w g. ground (arith, e, f, g, h))
  ]
]

-- The net ID, the gateway and the family of mode that the subnet agrees with.
pub record Fits (n : NetworkObject) (s : SubnetObject) : Type 0 where
  pub vlan : get_network_mode (some n) ≡ network_mode_vlan → HasNetId n s × (s.range.gateway ≢ "")
  pub bgp : get_network_mode (some n) ≡ network_mode_bgp → s.net_id ≡ none
  pub vxlan : get_network_mode (some n) ≡ network_mode_vxlan → s.net_id ≡ none

check_vlan :
    (n : NetworkObject) (s : SubnetObject)
    → check_net_id n s ≡ none
    → get_network_mode (some n) ≡ network_mode_vlan
    → (vlan_net_id s.net_id n.net_id ≡ none) × (s.range.gateway ≢ "")
unfolding check_net_id
check_vlan n s h e =
    let mode_iff = eq_iff (get_network_mode (some n)) network_mode_vlan in
    elim (Option-cases (vlan_net_id s.net_id n.net_id)) [
      | inl f ↦ (f, λ g. ground (arith, h, e, f, g, mode_iff, eq_iff s.range.gateway ""))
      | inr (d, f) ↦ absurd (ground (arith, h, e, f, mode_iff))
    ]

check_no_net_id :
    (n : NetworkObject) (s : SubnetObject)
    → check_net_id n s ≡ none
    → (get_network_mode (some n) ≡ network_mode_bgp)
      ⊎ (get_network_mode (some n) ≡ network_mode_vxlan)
    → s.net_id ≡ none
unfolding check_net_id
check_no_net_id n s h m =
    let mode = get_network_mode (some n) in
    elim (Option-cases s.net_id) [
      | inl e ↦ e
      | inr (v, e) ↦ elim m [
        | inl f ↦
            let not_vlan : str_eq mode network_mode_vlan ≡ false = rw f refl in
            let is_bgp : str_eq mode network_mode_bgp ≡ true = rw f refl in
            absurd (ground (arith, e, h, not_vlan, is_bgp))
        | inr f ↦
            let not_vlan : str_eq mode network_mode_vlan ≡ false = rw f refl in
            let not_bgp : str_eq mode network_mode_bgp ≡ false = rw f refl in
            let is_vxlan : str_eq mode network_mode_vxlan ≡ true = rw f refl in
            absurd (ground (arith, e, h, not_vlan, not_bgp, is_vxlan))
      ]
    ]

pub check_net_id-Fits : (n : NetworkObject) (s : SubnetObject) → check_net_id n s ≡ none → Fits n s
check_net_id-Fits n s h = record {
  vlan = λ m. let (v, g) = check_vlan n s h m in (vlan_net_id_lem n s v, g);
  bgp = λ m. check_no_net_id n s h (inl m);
  vxlan = λ m. check_no_net_id n s h (inr m);
}
