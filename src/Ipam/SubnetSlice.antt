-- ===== src/Ipam/SubnetSlice.antt =====
-- pkg/ipam/types/subnet.go, `SubnetSlice`: the subnets of a network and a cursor over them. A
-- `*Subnet` that a method returns is the position of the subnet in the slice.
pub mod Available
pub mod Families
use hybridnet.Base.{
  ℕ, zero, suc, ◌+◌, ◌-◌, ◌%◌, Bool, true, false, not, ◌&&◌, List, [], ◌∷◌, ◌++◌, Option, none,
  some, String, length, get_elem?, ltb, ◌==◌, if◌then◌else◌,
}
use hybridnet.Base.Dict
use hybridnet.Base.Outcome.{
  M, panic, diverged, ok, err, fault, ◌>>=◌, ◌>>◌, return, throw, crash, modify,
}
use hybridnet.Net.{AddressLib}
use hybridnet.Ipam.Types.{
  Map, IpSet, Usage, Subnet, SubnetSlice, Error, no_available_subnet, not_found_subnet,
}
use hybridnet.Ipam.Classify.{Candidates, classify}
use hybridnet.Ipam.Subnet
use hybridnet.Ipam.Validate
use hybridnet.Ipam.Sync

pub new_subnet_slice : SubnetSlice
new_subnet_slice = record {
  subnets = [];
  subnet_index_map = [];
  subnet_index = 0;
  subnet_count = 0;
}

-- `append`, and the bookkeeping behind it.
append_subnet : Subnet → Bool → SubnetSlice → SubnetSlice
append_subnet subnet is_default s =
    let subnets : List Subnet = s.subnets ++ subnet ∷ [] in
    let last = length subnets - 1 in
    record {
      subnets = subnets;
      subnet_index_map = Dict.insert subnet.name last s.subnet_index_map;
      subnet_index = if is_default then last else s.subnet_index;
      subnet_count = length subnets;
    }

unfoldable pub get_subnet : String → M SubnetSlice Error ℕ
get_subnet name s = elim (Dict.lookup name s.subnet_index_map) [
  | none ↦ err s not_found_subnet
  | some i ↦ elim (get_elem? s.subnets i) [ none ↦ fault panic | some _ ↦ ok s i ]
]

-- The loop of `GetAvailableSubnet`, which ends when the cursor is back at `last`.
find_available : ℕ → ℕ → M SubnetSlice Error ℕ
find_available zero last s = fault diverged
find_available (suc fuel) last s =
    let next = (s.subnet_index + 1) % s.subnet_count in
    let moved = record s { subnet_index = next } in
    let rest = find_available fuel last moved in
    elim (get_elem? s.subnets s.subnet_index) [
      | none ↦ fault panic
      | some subnet ↦
          if Subnet.is_available subnet
          then ok s s.subnet_index
          else if next == last
          then err moved no_available_subnet
          else rest
    ]

pub get_available_subnet : M SubnetSlice Error ℕ
unfolding find_available
get_available_subnet s =
    if s.subnet_count == 0
    then err s no_available_subnet
    else find_available s.subnet_count s.subnet_index s

-- `s.SubnetIndex = s.SubnetIndexMap[name]`; a key that is missing reads as 0.
move_to : String → SubnetSlice → SubnetSlice
move_to name s = record s {
  subnet_index = elim (Dict.lookup name s.subnet_index_map) [ none ↦ 0 | some i ↦ i ];
}

-- The `switch` of `GetAvailableIPv4Subnet` and `GetAvailableIPv6Subnet`.
choose : List String → List String → M SubnetSlice Error ℕ
unfolding move_to
choose (name ∷ _) paired = do modify (move_to name); get_subnet name
choose [] (name ∷ _) = do modify (move_to name); get_subnet name
choose [] [] = throw no_available_subnet

pub get_available_ipv4_subnet : M SubnetSlice Error ℕ
unfolding choose
get_available_ipv4_subnet s =
    if s.subnet_count == 0
    then err s no_available_subnet
    else elim (classify s) [ none ↦ fault panic | some c ↦ choose c.only_ipv4 c.paired_ipv4 s ]

pub get_available_ipv6_subnet : M SubnetSlice Error ℕ
unfolding choose
get_available_ipv6_subnet s =
    if s.subnet_count == 0
    then err s no_available_subnet
    else elim (classify s) [ none ↦ fault panic | some c ↦ choose c.only_ipv6 c.paired_ipv6 s ]

-- The first candidates of both families. Reading the head of an empty slice is a panic.
choose_pair : List String → List String → M SubnetSlice Error (ℕ × ℕ)
unfolding move_to
choose_pair [] v6 = throw no_available_subnet
choose_pair (v4_name ∷ _) [] = crash panic
choose_pair (v4_name ∷ _) (v6_name ∷ _) = do
  modify (move_to v4_name)
  v4 ← get_subnet v4_name
  v6 ← get_subnet v6_name
  return (v4, v6)

pub get_available_paired_dual_stack_subnets : M SubnetSlice Error (ℕ × ℕ)
unfolding choose_pair
get_available_paired_dual_stack_subnets s =
    if s.subnet_count == 0 then err s no_available_subnet else elim (classify s) [
      | none ↦ fault panic
      | some c ↦ choose_pair c.paired_ipv4 c.paired_ipv6 s
    ]

-- `CurrentSubnet`; a panic is `none`.
pub current_subnet : SubnetSlice → Option String
current_subnet s =
    if s.subnet_count == 0
    then some ""
    else elim (get_elem? s.subnets s.subnet_index) [ none ↦ none | some t ↦ some t.name ]

module _ (lib : AddressLib) where
  pub add_subnet : Subnet → Option ℕ → IpSet → Bool → M SubnetSlice Error (Unit {0})
  unfolding append_subnet
  add_subnet subnet parent_net_id ips is_default s =
      elim ((Validate.canonicalize lib >> Sync.sync lib parent_net_id ips) subnet) [
        | ok synced _ ↦ ok (append_subnet synced is_default s) tt
        | err _ e ↦ err s e
        | fault x ↦ fault x
      ]

  unfoldable pub first_containing : String → ℕ → List Subnet → Option ℕ
  first_containing ip i [] = none
  first_containing ip i (t ∷ ts) =
      if Subnet.contains_addr lib t (lib.parse_ip ip)
      then some i
      else first_containing ip (i + 1) ts

  unfoldable pub get_subnet_by_ip : String → M SubnetSlice Error ℕ
  unfolding first_containing
  get_subnet_by_ip ip s = elim (first_containing ip 0 s.subnets) [
    | none ↦ err s not_found_subnet
    | some i ↦ ok s i
  ]
