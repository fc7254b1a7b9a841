-- ===== src/Ipam/Subnet/Invariant.antt =====
-- What `Sync` establishes, and `AllocateNext`, `Assign` and `Release` keep (pkg/ipam/types/subnet.go).

use hybridnet.Base.{
  ℤ, ◌≡◌, inl, inr, ◌||◌, true, false, ◌∷◌, ◌++◌, Option, some, none, ◌↔◌, pos, String, length,
  contains, Distinct, Included, eq_iff, length-append, append-Distinct, length-le_of_Included,
  contains-append, contains_of_get_elem?, arith,
}
use hybridnet.Base.Dict.{keys, length-keys, has-insert, insert-Distinct}
use hybridnet.Base.Outcome.{ok}
use hybridnet.Net.{AddressLib}
use hybridnet.Ipam.Types.{Subnet, IpInfo, IpSet, status_using}
use hybridnet.Ipam.IpSlice.Cursor
use hybridnet.Ipam.IpSet
use hybridnet.Ipam.Subnet.{new_ip, allocate_next, is_available}
use hybridnet.Ipam.Subnet.Allocate.{given, moved, allocate_next-Allocates}

-- A synced subnet. Its available addresses are distinct, and apart from the reserved ones; every
-- reserved address is held in the using set; and what that set holds is available or reserved.
pub record IsSynced (s : Subnet) : Type 0 where
  pub slice : Cursor.IsValid s.available_ips
  pub available_distinct : Distinct s.available_ips.ips
  pub reserved_distinct : Distinct s.reserved_list
  pub using_distinct : Distinct (keys s.using_ips)
  pub reserved_counted : s.reserved_ip_count ≡ length s.reserved_list
  pub reserved_using : Included s.reserved_list (keys s.using_ips)
  pub unreserved :
      (k : String) → contains k s.available_ips.ips ≡ true → contains k s.reserved_list ≡ false
  pub accounted :
      (k : String)
      → IpSet.has k s.using_ips ≡ true
      → contains k s.available_ips.ips || contains k s.reserved_list ≡ true

module _ (s : Subnet) (v : IsSynced s) where
  open s use {available_ips, using_ips, reserved_list, reserved_ip_count}

  -- If every available address is in use, the counts say so.
  full_counts : Included available_ips.ips (keys using_ips) → is_available s ≡ false
  unfolding is_available
  full_counts all =
      let both =
        length-le_of_Included (available_ips.ips ++ reserved_list) (keys using_ips)
          (append-Distinct available_ips.ips reserved_list v.available_distinct v.reserved_distinct
            v.unreserved)
          (λ k m. ground (
            arith,
            contains-append k available_ips.ips reserved_list,
            all k,
            v.reserved_using k,
          )) in
      ground (
        arith,
        both,
        length-append available_ips.ips reserved_list,
        length-keys using_ips,
        v.reserved_counted,
        v.slice.counted,
      )

  -- If an available address is free, the counts say so.
  pub free_counts :
      (ip : String)
      → contains ip available_ips.ips ≡ true
      → IpSet.has ip using_ips ≡ false
      → s.is_private ≡ false
      → is_available s ≡ true
  unfolding is_available contains
  free_counts ip m free pub_ =
      let both =
        length-le_of_Included (ip ∷ keys using_ips) (available_ips.ips ++ reserved_list)
          (free, v.using_distinct)
          (λ k h. ground (
            arith,
            contains-append k available_ips.ips reserved_list,
            v.accounted k,
            eq_iff ip k,
          )) in
      ground (
        arith,
        both,
        length-append available_ips.ips reserved_list,
        length-keys using_ips,
        v.reserved_counted,
        v.slice.counted,
      )

module _ (lib : AddressLib) (pod_name pod_namespace : String) (s : Subnet) (v : IsSynced s) where
  -- A synced subnet that counts as available gives out an address.
  pub allocate_next_available :
      is_available s ≡ true
      → (t : Subnet) × (ip : IpInfo) × (allocate_next lib pod_name pod_namespace s ≡ ok t (some ip))
  allocate_next_available a = elim (allocate_next-Allocates lib pod_name pod_namespace s v.slice) [
    | inl (all, _, _, _) ↦ cc (full_counts s v all)
    | inr (i, ip, _, _, _, run) ↦
        (given s (pos i) ip _, new_ip lib s ip pod_name pod_namespace status_using, run)
  ]

  -- And a public one that gives out an address had counted as available.
  pub available_of_allocate_next :
      (t : Subnet) (ip : IpInfo)
      → s.is_private ≡ false
      → allocate_next lib pod_name pod_namespace s ≡ ok t (some ip)
      → is_available s ≡ true
  available_of_allocate_next t c open_ run =
      elim (allocate_next-Allocates lib pod_name pod_namespace s v.slice) [
        | inl (all, i, _, nil) ↦ cc
        | inr (i, ip, _, at, free, _) ↦
            free_counts s v ip (contains_of_get_elem? ip s.available_ips.ips i at) free open_
      ]

  -- On a public synced subnet `IsAvailable` says exactly whether `AllocateNext` gives out an address.
  pub is_available_iff :
      s.is_private ≡ false
      → (is_available s ≡ true) ↔ (
          (t : Subnet) × (ip : IpInfo) × (allocate_next lib pod_name pod_namespace s
            ≡ ok t (some ip)))
  is_available_iff public =
      (allocate_next_available, λ (t, ip, run). available_of_allocate_next t ip public run)

-- The invariant does not depend on the place of the cursor, as long as it is in range.
pub moved-IsSynced :
    (s : Subnet) (i : ℤ)
    → IsSynced s
    → Cursor.IsCursor i s.available_ips.ip_count
    → IsSynced (moved s i)
moved-IsSynced s i v h = record {
  slice = record { counted = v.slice.counted; cursor = h };
  available_distinct = v.available_distinct;
  reserved_distinct = v.reserved_distinct;
  using_distinct = v.using_distinct;
  reserved_counted = v.reserved_counted;
  reserved_using = v.reserved_using;
  unreserved = v.unreserved;
  accounted = v.accounted;
}

-- Nor on the entries of the using set, as long as no reserved address leaves it and none enters it
-- that is neither available nor reserved.
pub using-IsSynced :
    (s : Subnet) (using : IpSet)
    → IsSynced s
    → Distinct (keys using)
    → Included s.reserved_list (keys using)
    → ((k : String)
        → IpSet.has k using ≡ true
        → contains k s.available_ips.ips || contains k s.reserved_list ≡ true)
    → IsSynced (record s { using_ips = using })
using-IsSynced s using v d r a = record {
  slice = v.slice;
  available_distinct = v.available_distinct;
  reserved_distinct = v.reserved_distinct;
  using_distinct = d;
  reserved_counted = v.reserved_counted;
  reserved_using = r;
  unreserved = v.unreserved;
  accounted = a;
}

-- An entry for an available or reserved address may be added.
pub added-IsSynced :
    (s : Subnet) (ip : String) (content : IpInfo)
    → IsSynced s
    → contains ip s.available_ips.ips || contains ip s.reserved_list ≡ true
    → IsSynced (record s { using_ips = IpSet.add ip content s.using_ips })
added-IsSynced s ip content v h =
    using-IsSynced s (IpSet.add ip content s.using_ips) v
      (insert-Distinct ip content s.using_ips v.using_distinct)
      (λ k m. ground (arith, v.reserved_using k m, has-insert ip k content s.using_ips))
      (λ k m. ground (arith, v.accounted k, has-insert ip k content s.using_ips, eq_iff ip k))

-- `AllocateNext` does not panic on a synced subnet, and leaves a synced subnet.
pub allocate_next-IsSynced :
    (lib : AddressLib) (pod_name pod_namespace : String) (s : Subnet)
    → IsSynced s
    → (t : Subnet) × (r : Option IpInfo) × (allocate_next lib pod_name pod_namespace s ≡ ok t r)
      × IsSynced t
allocate_next-IsSynced lib pod_name pod_namespace s v =
    elim (allocate_next-Allocates lib pod_name pod_namespace s v.slice) [
      | inl (_, i, cur, run) ↦ (moved s i, none, run, moved-IsSynced s i v cur)
      | inr (i, ip, lt, at, _, run) ↦ (
        given s (pos i) ip _,
        some _,
        run,
        added-IsSynced (moved s (pos i)) ip _ (moved-IsSynced s (pos i) v lt)
            (ground (arith, contains_of_get_elem? ip s.available_ips.ips i at)),
      )
    ]
