-- ===== src/Ipam/Sync/Establish.antt =====
-- `Sync` of pkg/ipam/types/subnet.go ends, and leaves a synced subnet.
use hybridnet.Base.{ℕ, ◌≤◌, ◌≡◌, true, [], ◌∷◌, Option, some, Distinct}
use hybridnet.Net.{Ip, AddressLib, cidr_contains}
use hybridnet.Ipam.Types.{Subnet, IpSet, IpSlice}
use hybridnet.Ipam.IpSlice
use hybridnet.Ipam.IpSet
use hybridnet.Ipam.Subnet.{contains_addr}
use hybridnet.Ipam.Sync.{with_reserved, with_using}
use hybridnet.Ipam.Sync.Scan.{Counts, size_of, num_of}

-- Every entry of the given set whose address the subnet contains is keyed by the text of that address.
abbrev pub Keyed : AddressLib → Subnet → IpSet → Type 0
Keyed lib s [] = Unit {0}
Keyed lib s ((k, c) ∷ m) =
    (contains_addr lib s c.address.ip ≡ true → lib.ip_string c.address.ip ≡ k) × Keyed lib s m

-- What `Sync` is given: a range inside the CIDR on which the address library counts, distinct
-- reserved addresses, and a set that is keyed by the texts of its addresses.
pub record Syncable (lib : AddressLib) (s : Subnet) (ip_set : IpSet) : Type 0 where
  pub from : Ip
  pub to : Ip
  pub starts : s.start ≡ some from
  pub ends : s.end ≡ some to
  pub from_inside : cidr_contains s.cidr (some from) ≡ true
  pub to_inside : cidr_contains s.cidr (some to) ≡ true
  pub ordered : num_of from ≤ num_of to
  pub counts : Counts lib (size_of from) (num_of from) (num_of to)
  pub reserved_distinct : Distinct s.reserved_list
  pub keyed : Keyed lib s ip_set

module _ (lib : AddressLib) (parent_net_id : Option ℕ) (ip_set : IpSet) (s : Subnet)
    (given : Syncable lib s ip_set) where
  open given use {
    from, to, starts, ends, from_inside, to_inside, ordered, counts, reserved_distinct, keyed,
  }

  -- The subnet when the loop begins.
  abbrev ready : Subnet
  ready = with_using lib ip_set (with_reserved lib parent_net_id s)

  abbrev size : ℕ
  size = size_of from
