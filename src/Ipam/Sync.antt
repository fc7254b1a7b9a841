-- ===== src/Ipam/Sync.antt =====
-- pkg/ipam/types/subnet.go, `Sync`: the status of a subnet from its specification and the addresses in use.
pub mod Scan
pub mod Establish
mod Tests
use hybridnet.Base.{
  ℕ, zero, suc, ◌+◌, ◌-◌, not, ◌&&◌, List, [], ◌∷◌, Option, none, some, String, pos, ltb_ℤ, length,
  if◌then◌else◌, str_eq,
}
use hybridnet.Base.Outcome.{M, diverged, ok, fault}
use hybridnet.Net.{NetIp, short, AddressLib, equal}
use hybridnet.Ipam.Types.{IpSlice, IpSet, Subnet, Error, status_reserved}
use hybridnet.Ipam.Subnet.{contains_addr, is_reserved_ip, new_ip}
use hybridnet.Ipam.IpSlice
use hybridnet.Ipam.IpSet

-- The number of an address in its short form; of nil, 0.
pub addr_num : NetIp → ℕ
addr_num none = 0
addr_num (some a) = (short a).num

module _ (lib : AddressLib) where
  open lib use {parse_ip, ip_string, cmp, next_ip}

  -- `filteredReservedList`
  pub filter_reserved : Subnet → List String → List String
  filter_reserved s [] = []
  filter_reserved s (r ∷ rs) =
      let rest = filter_reserved s rs in if contains_addr lib s (parse_ip r) then r ∷ rest else rest

  -- The addresses of the given set that belong to the subnet.
  pub collect_using : Subnet → IpSet → IpSet → IpSet
  collect_using s [] acc = acc
  collect_using s ((ip, content) ∷ rest) acc = collect_using s rest (
      if str_eq content.subnet s.name && contains_addr lib s content.address.ip
      then IpSet.add ip content acc
      else acc)

  -- Reserved addresses that no pod uses are held by an entry of their own.
  pub pre_assign : Subnet → List String → IpSet → IpSet
  pre_assign s [] acc = acc
  pre_assign s (r ∷ rs) acc =
      pre_assign s rs
        (if IpSet.has r acc then acc else IpSet.add r (new_ip lib s r "" "" status_reserved) acc)

  -- One round of the loop over the addresses from `Start` to `End`.
  pub visit : Subnet → NetIp → IpSlice → IpSlice
  unfolding is_reserved_ip
  visit s i slice =
      if not (contains_addr lib s i)
      then slice
      else if is_reserved_ip s (ip_string i)
      then slice
      else IpSlice.add (ip_string i) (equal i s.last_allocated_ip) slice

  -- The loop, in at most `fuel` rounds; `none` says that they did not suffice.
  pub scan : ℕ → Subnet → NetIp → IpSlice → Option IpSlice
  scan zero s i slice = none
  scan (suc fuel) s i slice =
      let rest = scan fuel s (next_ip i) (visit s i slice) in
      if ltb_ℤ (pos 0) (cmp i s.end) then some slice else rest

  -- One round for each address of the range, and one for the test that ends the loop.
  scan_fuel : Subnet → ℕ
  scan_fuel s = suc (addr_num s.end + 1 - addr_num s.start)

  -- The net ID and the reserved list of a subnet under sync.
  with_reserved : Option ℕ → Subnet → Subnet
  with_reserved parent_net_id s =
      let reserved = filter_reserved s s.reserved_list in
      record s {
        net_id = elim s.net_id [ none ↦ parent_net_id | some n ↦ some n ];
        reserved_list = reserved;
        reserved_ip_count = length reserved;
      }

  -- The addresses in use: those of the set that belong here, and the reserved ones.
  with_using : IpSet → Subnet → Subnet
  with_using ip_set s = record s {
    using_ips = pre_assign s s.reserved_list (collect_using s ip_set IpSet.new_ip_set);
  }

  pub sync : Option ℕ → IpSet → M Subnet Error (Unit {0})
  unfolding with_reserved with_using
  sync parent_net_id ip_set s =
      let s' = with_using ip_set (with_reserved parent_net_id s) in
      elim (scan (scan_fuel s') s' s'.start IpSlice.new_ip_slice) [
        | none ↦ fault diverged
        | some slice ↦ ok (record s' { available_ips = slice }) tt
      ]
