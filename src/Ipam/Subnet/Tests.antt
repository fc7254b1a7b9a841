-- ===== src/Ipam/Subnet/Tests.antt =====
-- Concrete subnets and addresses, and instances of the theorems of `Subnet` (pkg/ipam/types/subnet.go).
use hybridnet.Base.{
  ◌==◌, inl, inr, Bool-cases, subst, sym, ℕ, ◌+◌, ◌≡◌, ◌↔◌, refl, true, false, [], ◌∷◌, Option,
  none, some, String, negsuc, contains, str_eq, eq_iff, if◌then◌else◌, sub_ℕ, arith,
}
use hybridnet.Base.Dict.{lookup, insert}
use hybridnet.Base.Outcome.{ok}
use hybridnet.Net.{NetIp, AddressLib, cidr_contains, network_number_and_mask, short, prefix_bits}
use hybridnet.Ipam.Types.{Subnet, IpInfo, status_using, status_reserved}
use hybridnet.Ipam.IpSet
use hybridnet.Ipam.Subnet.{
  assign, assign_contained, contains_addr, not_below, not_above, is_gateway, new_ip, release,
  allocate_next, is_available,
}
use hybridnet.Ipam.Subnet.Allocate.{Allocates, allocate_next-Allocates}
use hybridnet.Ipam.Subnet.Invariant.{IsSynced, is_available_iff}
use hybridnet.Ipam.Subnet.Again.{allocate_next-release}
use hybridnet.Ipam.Subnet.Changes.{
  Taken, assign-Taken, Settles, assign-Settles, lookup-release, release-assign,
}

-- Addresses 10.0.0.0 to 10.0.0.7 as texts.
abbrev pub ten : ℕ → NetIp
ten n = some (record { size = 4; num = 0x0a000000 + n })

abbrev pub toy_parse : String → NetIp
toy_parse s =
    if str_eq s "10.0.0.1"
    then ten 1
    else if str_eq s "10.0.0.2"
    then ten 2
    else if str_eq s "10.0.0.3"
    then ten 3
    else none

abbrev pub toy_num : NetIp → ℕ
toy_num none = 0
toy_num (some a) = (short a).num

abbrev pub toy_text : ℕ → String
toy_text n =
    if n == 0x0a000001
    then "10.0.0.1"
    else if n == 0x0a000002
    then "10.0.0.2"
    else if n == 0x0a000003
    then "10.0.0.3"
    else "10.0.0.0"

abbrev pub toy_string : NetIp → String
toy_string a = toy_text (toy_num a)

abbrev pub toy_next : NetIp → NetIp
toy_next none = none
toy_next (some a) = some (record { size = 4; num = (short a).num + 1 })

abbrev pub toy : AddressLib
toy = record {
  parse_ip = toy_parse;
  ip_string = toy_string;
  cmp = λ a b. sub_ℕ (toy_num a) (toy_num b);
  next_ip = toy_next;
}

abbrev pub held : IpInfo
held = record {
  address = record { ip = ten 3; mask = some (record { size = 4; ones = 29 }) };
  gateway = none;
  net_id = some 7;
  subnet = "s1";
  network = "n1";
  pod_name = "";
  pod_namespace = "";
  status = status_reserved;
}

-- Two available addresses, and one that is reserved and held.
abbrev pub small : Subnet
small = record {
  name = "s1";
  parent_network = "n1";
  net_id = some 7;
  start = ten 1;
  end = ten 3;
  cidr = record { ip = ten 0; mask = some (record { size = 4; ones = 29 }) };
  gateway = none;
  reserved_list = "10.0.0.3" ∷ [];
  black_list = [];
  last_allocated_ip = none;
  is_private = false;
  ipv6 = false;
  available_ips = record { ips = "10.0.0.1" ∷ "10.0.0.2" ∷ []; ip_count = 2; ip_index = negsuc 0 };
  using_ips = ("10.0.0.3", held) ∷ [];
  reserved_ip_count = 1;
}

apart :
    (k : String)
    → contains k small.available_ips.ips ≡ true
    → contains k small.reserved_list ≡ false
unfolding contains
apart k h = elim (Bool-cases (str_eq "10.0.0.3" k)) [
  | inl e ↦
      let h' =
        subst (λ x. contains x small.available_ips.ips ≡ true) (sym ((eq_iff "10.0.0.3" k).0 e))
          h in
      cc
  | inr e ↦ ground (arith, e)
]

pub small-IsSynced : IsSynced small
unfolding contains
small-IsSynced = record {
  slice = record { counted = refl; cursor = refl };
  available_distinct = (refl, (refl, tt));
  reserved_distinct = (refl, tt);
  using_distinct = (refl, tt);
  reserved_counted = refl;
  reserved_using = λ k h. h;
  unreserved = λ k h. apart k h;
  accounted = λ k h. ground (arith, h);
}

allocate_next-Allocates_example : Allocates toy "pod" "ns" small
allocate_next-Allocates_example = allocate_next-Allocates toy "pod" "ns" small small-IsSynced.slice

is_available_iff_example :
    (is_available small ≡ true)
    ↔ ((t : Subnet) × (ip : IpInfo) × (allocate_next toy "pod" "ns" small ≡ ok t (some ip)))
is_available_iff_example = is_available_iff toy "pod" "ns" small small-IsSynced refl

-- The reserved address is given to a pod that forces it.
abbrev pub forced_result : Subnet × Option IpInfo
forced_result = (
  record small {
    using_ips =
        ("10.0.0.3", record held { pod_name = "pod"; pod_namespace = "ns"; status = status_using })
        ∷ [];
  },
  some (record held { pod_name = "pod"; pod_namespace = "ns"; status = status_using }),
)

forced_run : assign toy "pod" "ns" "10.0.0.3" true small ≡ ok forced_result.0 forced_result.1
unfolding assign assign_contained contains_addr not_below not_above is_gateway new_ip cidr_contains
    network_number_and_mask short prefix_bits contains lookup insert IpSet.update
forced_run = refl

assign-Taken_example : Taken toy "pod" "ns" "10.0.0.3" true small forced_result.0 forced_result.1
assign-Taken_example =
    assign-Taken toy "pod" "ns" "10.0.0.3" true small forced_result.0 forced_result.1
      (ground (arith, eq_iff "pod" "")) (ground (arith, eq_iff "ns" "")) forced_run

assign-Settles_example : Settles IsSynced small (assign toy "pod" "ns" "10.0.0.2" false small)
unfolding contains
assign-Settles_example = assign-Settles toy "pod" "ns" "10.0.0.2" false small small-IsSynced refl

-- Every available address is in use.
abbrev crowded : Subnet
crowded = record small {
  using_ips =
      ("10.0.0.1", record held { pod_name = "a"; status = status_using })
      ∷ ("10.0.0.2", record held { pod_name = "b"; status = status_using })
      ∷ ("10.0.0.3", held)
      ∷ [];
}

crowded-IsSynced : IsSynced crowded
unfolding contains
crowded-IsSynced = record {
  slice = record { counted = refl; cursor = refl };
  available_distinct = (refl, (refl, tt));
  reserved_distinct = (refl, tt);
  using_distinct = (refl, (refl, (refl, tt)));
  reserved_counted = refl;
  reserved_using = λ k h. ground (arith, h);
  unreserved = λ k h. apart k h;
  accounted = λ k h. ground (arith, h);
}

crowded_others :
    (k : String)
    → str_eq "10.0.0.2" k ≡ false
    → contains k crowded.available_ips.ips ≡ true
    → IpSet.has k crowded.using_ips ≡ true
unfolding contains
crowded_others k ne h = ground (arith, h, ne)

allocate_next-release_example :
    IsSynced (release "10.0.0.2" crowded)
    × ((t : Subnet) × (allocate_next toy "pod" "ns" (release "10.0.0.2" crowded)
          ≡ ok t (some (new_ip toy crowded "10.0.0.2" "pod" "ns" status_using))))
unfolding contains
allocate_next-release_example =
    allocate_next-release toy "pod" "ns" "10.0.0.2" crowded crowded-IsSynced refl crowded_others

lookup-release_example : lookup "10.0.0.3" (release "10.0.0.3" small).using_ips ≡ some held
unfolding contains lookup
lookup-release_example = lookup-release "10.0.0.3" "10.0.0.3" small

abbrev pub taken : Subnet
taken = record small {
  using_ips =
      ("10.0.0.3", held) ∷ ("10.0.0.2", new_ip toy small "10.0.0.2" "pod" "ns" status_using) ∷ [];
}

free_run :
    assign toy "pod" "ns" "10.0.0.2" false small
    ≡ ok taken (some (new_ip toy small "10.0.0.2" "pod" "ns" status_using))
unfolding assign assign_contained contains_addr not_below not_above is_gateway new_ip cidr_contains
    network_number_and_mask short prefix_bits contains lookup insert IpSet.update
free_run = refl

release-assign_example :
    lookup "10.0.0.2" (release "10.0.0.2" taken).using_ips ≡ lookup "10.0.0.2" small.using_ips
unfolding contains lookup
release-assign_example =
    release-assign toy "pod" "ns" "10.0.0.2" false small taken
      (some (new_ip toy small "10.0.0.2" "pod" "ns" status_using)) refl refl free_run "10.0.0.2"
