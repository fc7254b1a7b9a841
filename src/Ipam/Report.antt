-- ===== src/Ipam/Report.antt =====
-- pkg/ipam/types: the usage reports of a subnet slice (`Usage`, `DualStackUsage`) and of a network.
use hybridnet.Base.{
  ℕ, zero, suc, ◌+◌, ◌%◌, List, [], ◌∷◌, Option, none, some, String, get_elem?, ltb, ◌==◌,
  if◌then◌else◌, add_u32,
}
use hybridnet.Base.Dict
use hybridnet.Ipam.Types.{Map, Usage, Subnet, SubnetSlice, Network}
use hybridnet.Ipam.Usage.{no_usage, add_usage}
use hybridnet.Ipam.Subnet
use hybridnet.Ipam.SubnetSlice

-- The usages of the subnets by their names; a panic is `none`.
collect_usages : List Subnet → Map Usage → Option (Map Usage)
collect_usages [] acc = some acc
collect_usages (t ∷ ts) acc = elim (Subnet.usage t) [
  | none ↦ none
  | some u ↦ collect_usages ts (Dict.insert t.name u acc)
]

-- `(*SubnetSlice).Usage`
pub slice_usage : SubnetSlice → Option (String × Map Usage)
unfolding collect_usages
slice_usage s = elim (collect_usages s.subnets []) [
  | none ↦ none
  | some usages ↦ elim (SubnetSlice.current_subnet s) [
    | none ↦ none
    | some current ↦ some (current, usages)
  ]
]

sum_usages : Map Usage → Usage → Usage
sum_usages [] acc = acc
sum_usages ((_, u) ∷ rest) acc = sum_usages rest (record acc {
  total = add_u32 acc.total u.total;
  available = add_u32 acc.available u.available;
  used = add_u32 acc.used u.used;
})

-- `(*Network).Usage`
pub network_usage : Network → Option (Usage × Map Usage)
unfolding sum_usages
network_usage n = elim (slice_usage n.subnets) [
  | none ↦ none
  | some (current, usages) ↦
      some (record (sum_usages usages no_usage) { last_allocation = current }, usages)
]

-- `pairedUsage` with its net ID.
pub record PairedUsage : Type 0 where
  pub id : ℕ
  pub v4_usage : Usage
  pub v6_usage : Usage

-- `chooseAvailable`
choose_available : PairedUsage → ℕ
choose_available p =
    if ltb p.v4_usage.available p.v6_usage.available
    then p.v4_usage.available
    else p.v6_usage.available

add_to_pair : Subnet → Usage → PairedUsage → PairedUsage
add_to_pair subnet u p =
    if Subnet.is_ipv6 subnet
    then record p { v6_usage = add_usage p.v6_usage u }
    else record p { v4_usage = add_usage p.v4_usage u }

-- `netIDPairedUsage`: the pair of the net ID is made at its first subnet.
fill_pair : ℕ → Subnet → Usage → List PairedUsage → List PairedUsage
unfolding add_to_pair
fill_pair id subnet u [] =
    add_to_pair subnet u (record { id = id; v4_usage = no_usage; v6_usage = no_usage }) ∷ []
fill_pair id subnet u (p ∷ ps) =
    if p.id == id then add_to_pair subnet u p ∷ ps else p ∷ fill_pair id subnet u ps

sum_available : List PairedUsage → ℕ → ℕ
unfolding choose_available
sum_available [] acc = acc
sum_available (p ∷ ps) acc = sum_available ps (add_u32 acc (choose_available p))

-- `usage[0]`, `usage[1]` and `usage[2]`.
pub record DualUsage : Type 0 where
  pub v4 : Usage
  pub v6 : Usage
  pub dual : Usage
  pub by_subnet : Map Usage

-- What the loop of `DualStackUsage` builds up.
pub record Tally : Type 0 where
  pub v4 : Usage
  pub v6 : Usage
  pub by_subnet : Map Usage
  pub pairs : List PairedUsage

tally : Subnet → Usage → Tally → Tally
unfolding fill_pair
tally subnet u t = record {
  v4 = if Subnet.is_ipv6 subnet then t.v4 else add_usage t.v4 u;
  v6 = if Subnet.is_ipv6 subnet then add_usage t.v6 u else t.v6;
  by_subnet = Dict.insert subnet.name u t.by_subnet;
  pairs = fill_pair (Subnet.unify_net_id subnet.net_id) subnet u t.pairs;
}

-- The loop, with `n` rounds left.
tally_rounds : ℕ → ℕ → SubnetSlice → Tally → Option Tally
unfolding tally
tally_rounds zero i s t = some t
tally_rounds (suc n) i s t = elim (get_elem? s.subnets ((i + s.subnet_index) % s.subnet_count)) [
  | none ↦ none
  | some subnet ↦ elim (Subnet.usage subnet) [
    | none ↦ none
    | some u ↦ tally_rounds n (i + 1) s (tally subnet u t)
  ]
]

abbrev start_tally : Tally
start_tally = record { v4 = no_usage; v6 = no_usage; by_subnet = []; pairs = [] }

-- `(*SubnetSlice).DualStackUsage`, which `(*Network).DualStackUsage` passes on.
pub dual_stack_usage : SubnetSlice → Option DualUsage
unfolding tally_rounds sum_available
dual_stack_usage s = elim (tally_rounds s.subnet_count 0 s start_tally) [
  | none ↦ none
  | some t ↦ some (record {
    v4 = t.v4;
    v6 = t.v6;
    dual = record no_usage { available = sum_available t.pairs 0 };
    by_subnet = t.by_subnet;
  })
]
