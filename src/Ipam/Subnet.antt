-- ===== src/Ipam/Subnet.antt =====
-- pkg/ipam/types/subnet.go, `Subnet`: its queries, and the three changes of a synced subnet
-- (`AllocateNext`, `Assign`, `Release`).
pub mod Contains
pub mod Allocate
pub mod Invariant
pub mod Changes
pub mod Again
pub mod Tests
use hybridnet.Base.{
  ℕ, zero, suc, Bool, true, false, not, ◌&&◌, ◌||◌, List, [], Option, none, some, String, ℤ, pos,
  ◌-ℤ◌, ltb_ℤ, sub_ℕ, to_u32, if◌then◌else◌, str_eq, contains,
}
use hybridnet.Base.Outcome.{M, panic, Outcome, ok, err, fault}
use hybridnet.Net.{NetIp, Cidr, AddressLib, equal, cidr_contains}
use hybridnet.Ipam.Types.{
  IpInfo, Usage, Subnet, Error, not_found_assigned_ip, not_available_assigned_ip, status_using,
  status_reserved,
}
use hybridnet.Ipam.IpSlice
use hybridnet.Ipam.IpSet

-- `NewSubnet`: the status fields have Go's zero values until `Sync`.
unfoldable pub new_subnet :
    String
    → String
    → Option ℕ
    → NetIp
    → NetIp
    → NetIp
    → Cidr
    → List String
    → List String
    → NetIp
    → Bool
    → Bool
    → Subnet
new_subnet name network net_id start end gateway cidr reserved black last private ipv6 = record {
  name = name;
  parent_network = network;
  net_id = net_id;
  start = start;
  end = end;
  cidr = cidr;
  gateway = gateway;
  reserved_list = reserved;
  black_list = black;
  last_allocated_ip = last;
  is_private = private;
  ipv6 = ipv6;
  available_ips = record { ips = []; ip_count = 0; ip_index = pos 0 };
  using_ips = [];
  reserved_ip_count = 0;
}

unfoldable pub is_reserved_ip : Subnet → String → Bool
is_reserved_ip s ip = contains ip s.reserved_list

pub is_black_ip : Subnet → String → Bool
is_black_ip s ip = contains ip s.black_list

unfoldable pub is_ipv6 : Subnet → Bool
is_ipv6 s = s.ipv6

unfoldable pub unify_net_id : Option ℕ → ℕ
unify_net_id none = 0
unify_net_id (some n) = n

pub using_ip_count : Subnet → ℤ
using_ip_count s = sub_ℕ (IpSet.count s.using_ips) s.reserved_ip_count

pub is_available : Subnet → Bool
unfolding using_ip_count
is_available s = ltb_ℤ (using_ip_count s) (pos (IpSlice.count s.available_ips)) && not s.is_private

-- `Usage`; a panic of `Current` is `none`.
pub usage : Subnet → Option Usage
unfolding using_ip_count
usage s = elim (IpSlice.current s.available_ips) [
  | none ↦ none
  | some last ↦ some (record {
    total = to_u32 (pos (IpSlice.count s.available_ips));
    used = to_u32 (using_ip_count s);
    available = to_u32 (pos (IpSlice.count s.available_ips) -ℤ using_ip_count s);
    last_allocation = last;
  })
]

-- `Release`: a reserved address stays, as reserved.
unfoldable pub release : String → Subnet → Subnet
unfolding is_reserved_ip
release ip s = record s {
  using_ips =
      if is_reserved_ip s ip
      then IpSet.update ip "" "" status_reserved s.using_ips
      else IpSet.delete ip s.using_ips;
}

module _ (lib : AddressLib) where
  open lib use {parse_ip, ip_string, cmp}

  unfoldable pub not_below : NetIp → NetIp → Bool
  not_below addr none = true
  not_below addr (some b) = not (ltb_ℤ (cmp addr (some b)) (pos 0))

  unfoldable pub not_above : NetIp → NetIp → Bool
  not_above addr none = true
  not_above addr (some b) = not (ltb_ℤ (pos 0) (cmp addr (some b)))

  unfoldable pub is_gateway : NetIp → NetIp → Bool
  is_gateway none addr = false
  is_gateway (some g) addr = equal (some g) addr

  -- `Contains`: the early returns in their order.
  unfoldable pub contains_addr : Subnet → NetIp → Bool
  unfolding is_black_ip
  contains_addr s addr =
      if not (cidr_contains s.cidr addr)
      then false
      else if not (not_below addr s.start)
      then false
      else if not (not_above addr s.end)
      then false
      else if is_gateway s.gateway addr
      then false
      else if is_black_ip s (ip_string addr)
      then false
      else true

  unfoldable pub overlap : Subnet → Subnet → Bool
  unfolding is_ipv6
  overlap s t =
      if not (is_ipv6 s && is_ipv6 t || not (is_ipv6 s) && not (is_ipv6 t))
      then false
      else contains_addr s t.start
        || contains_addr s t.end
        || contains_addr t s.start
        || contains_addr t s.end

  -- The `IP` that `Sync`, `AllocateNext` and `Assign` make for an address of the subnet.
  unfoldable pub new_ip : Subnet → String → String → String → String → IpInfo
  new_ip s ip pod_name pod_namespace status = record {
    address = record { ip = parse_ip ip; mask = s.cidr.mask };
    gateway = s.gateway;
    net_id = s.net_id;
    subnet = s.name;
    network = s.parent_network;
    pod_name = pod_name;
    pod_namespace = pod_namespace;
    status = status;
  }

  -- `AllocateNext`: the rounds of its loop that are left.
  allocate_rounds : ℕ → String → String → M Subnet Error (Option IpInfo)
  allocate_rounds zero pod_name pod_namespace s = ok s none
  allocate_rounds (suc n) pod_name pod_namespace s = elim (IpSlice.next s.available_ips) [
    | none ↦ fault panic
    | some (slice, ip) ↦ elim (IpSet.has ip s.using_ips) [
      | true ↦ allocate_rounds n pod_name pod_namespace (record s { available_ips = slice })
      | false ↦
          let content = new_ip s ip pod_name pod_namespace status_using in
          ok (record s { available_ips = slice; using_ips = IpSet.add ip content s.using_ips })
            (some content)
    ]
  ]

  -- One round for each available address; nil is `none`.
  unfoldable pub allocate_next : String → String → M Subnet Error (Option IpInfo)
  unfolding allocate_rounds new_ip
  allocate_next pod_name pod_namespace s =
      allocate_rounds (IpSlice.count s.available_ips) pod_name pod_namespace s

  -- `Assign`, past its first test: the cases of its `switch`.
  assign_contained : String → String → String → Bool → M Subnet Error (Option IpInfo)
  assign_contained pod_name pod_namespace ip forced s = elim (IpSet.get ip s.using_ips) [
    | none ↦
        let using = IpSet.add ip (new_ip s ip pod_name pod_namespace status_using) s.using_ips in
        ok (record s { using_ips = using }) (IpSet.get ip using)
    | some c ↦
        let using = IpSet.update ip pod_name pod_namespace status_using s.using_ips in
        let taken : Outcome Subnet Error (Option IpInfo) =
          ok (record s { using_ips = using }) (IpSet.get ip using) in
        if str_eq c.pod_namespace pod_namespace && str_eq c.pod_name pod_name
        then taken
        else if forced && str_eq c.status status_reserved
        then taken
        else err s not_available_assigned_ip
  ]

  pub assign : String → String → String → Bool → M Subnet Error (Option IpInfo)
  assign pod_name pod_namespace ip forced s =
      if not (contains_addr s (parse_ip ip))
      then err s not_found_assigned_ip
      else assign_contained pod_name pod_namespace ip forced s
