-- ===== src/Ipam/Classify.antt =====
-- pkg/ipam/types/subnet.go, `classify`: the available subnets by their net ID and family.
pub mod Groups
use hybridnet.Base.{
  ℕ, zero, suc, ◌+◌, ◌%◌, not, ◌&&◌, List, [], ◌∷◌, ◌++◌, Option, none, some, String, length,
  get_elem?, ltb, ◌==◌, if◌then◌else◌,
}
use hybridnet.Ipam.Types.{Subnet, SubnetSlice}
use hybridnet.Ipam.Subnet

-- `netIDGroupedSubnets` with its net ID: `netIDOrder` and `netIDMap` as one list, in order.
pub record Group : Type 0 where
  pub id : ℕ
  pub v4_subnets : List String
  pub v6_subnets : List String

add_to_group : Subnet → Group → Group
unfolding Subnet.is_ipv6
add_to_group subnet g =
    if Subnet.is_ipv6 subnet
    then record g { v6_subnets = g.v6_subnets ++ subnet.name ∷ [] }
    else record g { v4_subnets = g.v4_subnets ++ subnet.name ∷ [] }

-- The group of the net ID is made at its first subnet.
fill_group : ℕ → Subnet → List Group → List Group
unfolding add_to_group
fill_group id subnet [] =
    add_to_group subnet (record { id = id; v4_subnets = []; v6_subnets = [] }) ∷ []
fill_group id subnet (g ∷ gs) =
    if g.id == id then add_to_group subnet g ∷ gs else g ∷ fill_group id subnet gs

-- The first loop of `classify`, with `n` rounds left; a panic is `none`.
group_rounds : ℕ → ℕ → SubnetSlice → List Group → Option (List Group)
unfolding Subnet.unify_net_id
group_rounds zero i s groups = some groups
group_rounds (suc n) i s groups =
    elim (get_elem? s.subnets ((i + s.subnet_index) % s.subnet_count)) [
      | none ↦ none
      | some subnet ↦ group_rounds n (i + 1) s (
          if Subnet.is_available subnet
          then fill_group (Subnet.unify_net_id subnet.net_id) subnet groups
          else groups)
    ]

pub record Candidates : Type 0 where
  pub only_ipv4 : List String
  pub only_ipv6 : List String
  pub paired_ipv4 : List String
  pub paired_ipv6 : List String

-- The second loop of `classify`; what it appends stands in front of what comes later.
split_groups : List Group → Candidates
split_groups [] = record { only_ipv4 = []; only_ipv6 = []; paired_ipv4 = []; paired_ipv6 = [] }
split_groups (g ∷ gs) =
    let c = split_groups gs in
    let has_v4 = ltb 0 (length g.v4_subnets) in
    let has_v6 = ltb 0 (length g.v6_subnets) in
    if has_v4 && not has_v6
    then record c { only_ipv4 = g.v4_subnets ++ c.only_ipv4 }
    else if has_v6 && not has_v4
    then record c { only_ipv6 = g.v6_subnets ++ c.only_ipv6 }
    else if has_v4 && has_v6
    then record c {
      paired_ipv4 = g.v4_subnets ++ c.paired_ipv4;
      paired_ipv6 = g.v6_subnets ++ c.paired_ipv6;
    }
    else c

pub classify : SubnetSlice → Option Candidates
unfolding group_rounds split_groups
classify s = elim (group_rounds s.subnet_count 0 s []) [
  | none ↦ none
  | some groups ↦ some (split_groups groups)
]
