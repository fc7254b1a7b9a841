-- ===== src/Api/Intersect.antt =====
-- pkg/utils/ip.go, `Intersect`: whether two address ranges share an address.
use hybridnet.Base.{
  ℕ, zero, suc, ◌+◌, ◌-◌, Bool, true, false, not, ◌&&◌, List, [], ◌∷◌, Option, none, some, String,
  pos, ltb_ℤ, contains, str_eq, if◌then◌else◌,
}
use hybridnet.Net.{NetIp, Cidr, AddressLib, short, cidr_contains}
use hybridnet.Ipam.Validate.{last_of}
use hybridnet.Api.Types.{AddressRange, ParseCidr}

num_of : NetIp → ℕ
num_of none = 0
num_of (some a) = (short a).num

-- One round for each address of the range, and one more.
rounds : NetIp → NetIp → ℕ
unfolding num_of
rounds first last = suc (num_of last + 1 - num_of first)

module _ (lib : AddressLib) (parse_cidr : ParseCidr) where
  open lib use {parse_ip, ip_string, cmp, next_ip}

  -- The first loop: the texts of the addresses that are not excluded. `none` says that the rounds did
  -- not suffice.
  unfoldable pub collect : ℕ → List String → NetIp → NetIp → Option (List String)
  collect zero excluded i last = none
  collect (suc fuel) excluded i last =
      let rest = collect fuel excluded (next_ip i) last in
      if ltb_ℤ (pos 0) (cmp i last)
      then some []
      else if contains (ip_string i) excluded
      then rest
      else elim rest [ none ↦ none | some ts ↦ some (ip_string i ∷ ts) ]

  -- The second loop: whether an address that is not excluded is in the set.
  unfoldable pub search_set : ℕ → List String → List String → NetIp → NetIp → Option Bool
  search_set zero set excluded i last = none
  search_set (suc fuel) set excluded i last =
      let rest = search_set fuel set excluded (next_ip i) last in
      if ltb_ℤ (pos 0) (cmp i last)
      then some false
      else if contains (ip_string i) excluded
      then rest
      else if contains (ip_string i) set
      then some true
      else rest

  first_of : AddressRange → Cidr → NetIp
  first_of r c = elim (parse_ip r.start) [ none ↦ next_ip c.ip | some a ↦ some a ]

  end_of : AddressRange → Cidr → Option NetIp
  unfolding last_of
  end_of r c = elim (parse_ip r.end) [ none ↦ last_of c | some a ↦ some (some a) ]

  intersect_cidrs : AddressRange → Cidr → AddressRange → Cidr → Option Bool
  unfolding first_of end_of collect search_set rounds
  intersect_cidrs a net_a b net_b =
      if not (cidr_contains net_a net_b.ip) && not (cidr_contains net_b net_a.ip)
      then some false
      else elim (end_of a net_a) [
        | none ↦ none
        | some end_a ↦ elim (end_of b net_b) [
          | none ↦ none
          | some end_b ↦
              let start_a = first_of a net_a in
              let start_b = first_of b net_b in
              elim (collect (rounds start_a end_a) a.exclude_ips start_a end_a) [
                | none ↦ none
                | some set ↦ search_set (rounds start_b end_b) set b.exclude_ips start_b end_b
              ]
        ]
      ]

  -- `Intersect`; `none` is a panic, or a loop that does not end.
  pub intersect : AddressRange → AddressRange → Option Bool
  unfolding intersect_cidrs
  intersect a b =
      if not (str_eq a.version b.version) then some false else elim (parse_cidr a.cidr) [
        | none ↦ none
        | some (_, net_a) ↦ elim (parse_cidr b.cidr) [
          | none ↦ none
          | some (_, net_b) ↦ intersect_cidrs a net_a b net_b
        ]
      ]
