-- ===== src/Ipam/Classify/Groups.antt =====
-- The two loops of `classify` (pkg/ipam/types/subnet.go).
use native.Mathlib.Nat.{mod-lt}
use hybridnet.Base.{
  ℕ, zero, suc, ◌+◌, ◌%◌, ◌<◌, ◌≡◌, refl, true, not, ◌&&◌, List, [], ◌∷◌, ◌++◌, some, String,
  length, length-append, get_elem?-lt, ltb, if◌then◌else◌, if_rule, arith,
}
use hybridnet.Ipam.Types.{SubnetSlice}
use hybridnet.Ipam.Classify.{Group, Candidates, classify, group_rounds, split_groups}

-- The loop reads no subnet out of range.
group_rounds-some :
    (n i : ℕ) (s : SubnetSlice) (groups : List Group)
    → s.subnet_count ≡ length s.subnets
    → 0 < s.subnet_count
    → (out : List Group) × (group_rounds n i s groups ≡ some out)
unfolding group_rounds
group_rounds-some zero i s groups r h = (groups, refl)
group_rounds-some (suc n) i s groups r h =
    let at = mod-lt (i + s.subnet_index) {m = s.subnet_count} h in
    let (t, e) =
      get_elem?-lt s.subnets ((i + s.subnet_index) % s.subnet_count) (omega (arith, at, r)) in
    rw (group_rounds, e) (group_rounds-some n (i + 1) s _ r h)

-- Where there is no IPv6 candidate of a pair, there is no IPv4 one.
abbrev pub Paired : Candidates → Type 0
Paired c = length c.paired_ipv6 ≡ 0 → length c.paired_ipv4 ≡ 0

full_pair :
    (v4 v6 c4 c6 : List String)
    → (ltb 0 (length v4) && ltb 0 (length v6)) ≡ true
    → length (v6 ++ c6) ≡ 0
    → length (v4 ++ c4) ≡ 0
full_pair v4 v6 c4 c6 t e = absurd (ground (arith, t, e, length-append v6 c6))

split_groups-Paired : (gs : List Group) → Paired (split_groups gs)
unfolding split_groups
split_groups-Paired [] = λ e. refl
split_groups-Paired (g ∷ gs) =
    let c = split_groups gs in
    let rest = split_groups-Paired gs in
    let has_v4 = ltb 0 (length g.v4_subnets) in
    let has_v6 = ltb 0 (length g.v6_subnets) in
    let both : Candidates = record c {
      paired_ipv4 = g.v4_subnets ++ c.paired_ipv4;
      paired_ipv6 = g.v6_subnets ++ c.paired_ipv6;
    } in
    let last : Candidates = if has_v4 && has_v6 then both else c in
    if_rule Paired {b = has_v4 && not has_v6}
      {x = record c { only_ipv4 = g.v4_subnets ++ c.only_ipv4 }}
      {y = if has_v6 && not has_v4
        then record c { only_ipv6 = g.v6_subnets ++ c.only_ipv6 }
        else last}
      (λ _. rest)
      (λ _.
        if_rule Paired {b = has_v6 && not has_v4}
          {x = record c { only_ipv6 = g.v6_subnets ++ c.only_ipv6 }} {y = last} (λ _. rest)
          (λ _.
            if_rule Paired {b = has_v4 && has_v6} {x = both} {y = c}
              (λ t e. full_pair g.v4_subnets g.v6_subnets c.paired_ipv4 c.paired_ipv6 t e)
              (λ _. rest)))

pub classify-Paired :
    (s : SubnetSlice)
    → s.subnet_count ≡ length s.subnets
    → 0 < s.subnet_count
    → (c : Candidates) × (classify s ≡ some c) × Paired c
unfolding classify
classify-Paired s r h =
    let (groups, e) = group_rounds-some s.subnet_count 0 s [] r h in
    (split_groups groups, rw (classify, e) refl, split_groups-Paired groups)
