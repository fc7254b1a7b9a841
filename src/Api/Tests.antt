-- ===== src/Api/Tests.antt =====
-- Runs of the helpers of the networking API.
use mathlib.Core.List.{map}
use hybridnet.Base.{
  ℕ, ◌^◌, ◌≡◌, refl, true, [], ◌∷◌, none, some, pos, ltb_ℤ, str_eq, if◌then◌else◌, arith,
}
use hybridnet.Net.{
  NetIp, Cidr, equal, to4, cidr_contains, network_number_and_mask, short, prefix_bits,
}
use hybridnet.Ipam.Subnet.Tests.{ten, toy}
use hybridnet.Api.Types.{
  AddressRange, ParseCidr, NetworkObject, get_network_type, network_type_underlay,
}
use hybridnet.Api.Range.{
  given_outside, validate_address_range, ip_to_int, signed64, start_of, end_of, given_ip,
  calculate_capacity,
}
use hybridnet.Api.Capacity.{calculate_capacity_lem, v6_cidr, calculate_capacity-wide}
use hybridnet.Api.Valid.{IsValid, validate_address_range-IsValid}
use hybridnet.Api.Quota.{quota_patches, quota_labels, quota_patches_lem}

abbrev pub toy_cidr : ParseCidr
toy_cidr s =
    if str_eq s "10.0.0.0/29"
    then some (ten 0, record { ip = ten 0; mask = some (record { size = 4; ones = 29 }) })
    else none

abbrev pub range : AddressRange
range = record {
  version = "4";
  start = "10.0.0.2";
  end = "10.0.0.3";
  cidr = "10.0.0.0/29";
  gateway = "10.0.0.1";
  reserved_ips = "10.0.0.3" ∷ [];
  exclude_ips = "10.0.0.2" ∷ [];
}

calculate_capacity_lem_example :
    (w : ℕ) × (calculate_capacity toy toy_cidr range ≡ some w) × (signed64 w ≡ pos 1)
unfolding end_of start_of ip_to_int given_ip to4
calculate_capacity_lem_example =
    calculate_capacity_lem toy toy_cidr range (ten 0)
      (record { ip = ten 0; mask = some (record { size = 4; ones = 29 }) }) (ten 3) refl refl
      (omega arith) (omega arith) (omega arith)

valid_run : validate_address_range toy toy_cidr range ≡ none
unfolding given_outside validate_address_range equal to4 cidr_contains network_number_and_mask short
    prefix_bits
valid_run = refl

validate_address_range-IsValid_example :
    (ip : NetIp) × (c : Cidr) × (toy_cidr range.cidr ≡ some (ip, c))
    × (equal c.ip ip ≡ true)
    × IsValid toy toy_cidr range c
validate_address_range-IsValid_example = validate_address_range-IsValid toy toy_cidr range valid_run

-- The network 100::/64.
abbrev wide_parse : ParseCidr
wide_parse s = some (none, v6_cidr (2 ^ 120) 64)

abbrev wide_range : AddressRange
wide_range = record {
  version = "6";
  start = "";
  end = "";
  cidr = "100::/64";
  gateway = "";
  reserved_ips = [];
  exclude_ips = [];
}

calculate_capacity-wide_example :
    (w : ℕ) × (calculate_capacity toy wide_parse wide_range ≡ some w)
    × (ltb_ℤ (signed64 w) (pos 0) ≡ true)
calculate_capacity-wide_example =
    calculate_capacity-wide (2 ^ 120) 64 (omega arith) refl (omega arith) (omega arith) toy
      wide_parse wide_range none refl refl refl (omega arith)

abbrev pub two_nodes : NetworkObject
two_nodes = record {
  name = "n1";
  node_selector = ("rack", "r1") ∷ [];
  net_id = some (pos 7);
  type = "Underlay";
  mode = "";
  config = none;
  status = record {
    last_allocated_subnet = "";
    last_allocated_ipv6_subnet = "";
    subnet_list = [];
    node_list = "a" ∷ "b" ∷ [];
    statistics = some (record { total = pos 2; used = pos 1; available = pos 1 });
    ipv6_statistics = none;
    dual_stack_statistics = none;
  };
}

two_nodes_underlay : get_network_type (some two_nodes) ≡ network_type_underlay
unfolding get_network_type
two_nodes_underlay = refl

quota_patches_lem_example :
    quota_patches true two_nodes
    ≡ map
        (λ _. some (record { node = "b"; labels = quota_labels true two_nodes.status }))
        two_nodes.status.node_list
quota_patches_lem_example = quota_patches_lem true two_nodes ("a" ∷ []) "b" two_nodes_underlay refl
