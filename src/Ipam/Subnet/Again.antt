-- ===== src/Ipam/Subnet/Again.antt =====
-- `Release` and then `AllocateNext` of pkg/ipam/types/subnet.go.
use hybridnet.Base.{
  ◌≡◌, sym, subst, inl, inr, not, ◌&&◌, true, false, some, String, contains, str_eq, eq_iff, pos,
  arith, Bool-cases, contains_of_get_elem?,
}
use hybridnet.Base.Dict.{has-delete}
use hybridnet.Base.Outcome.{ok}
use hybridnet.Net.{AddressLib}
use hybridnet.Ipam.Types.{Subnet, status_using}
use hybridnet.Ipam.IpSet
use hybridnet.Ipam.Subnet.{new_ip, is_reserved_ip, allocate_next, release}
use hybridnet.Ipam.Subnet.Allocate.{given, allocate_next-Allocates}
use hybridnet.Ipam.Subnet.Invariant.{IsSynced}
use hybridnet.Ipam.Subnet.Changes.{release-IsSynced}

-- What is in use after an address that is not reserved was released.
pub has-release :
    (ip k : String) (s : Subnet)
    → contains ip s.reserved_list ≡ false
    → IpSet.has k (release ip s).using_ips ≡ not (str_eq ip k) && IpSet.has k s.using_ips
unfolding release
has-release ip k s r = rw (r, release, is_reserved_ip) (has-delete ip k s.using_ips)

-- On a synced subnet whose other available addresses are all in use, Release of an available address
-- leaves a synced subnet, whose next AllocateNext gives out that address, with the record of the subnet
-- for the pod.
pub allocate_next-release :
    (lib : AddressLib) (pod_name pod_namespace ip : String) (s : Subnet)
    → IsSynced s
    → contains ip s.available_ips.ips ≡ true
    → ((k : String)
        → str_eq ip k ≡ false
        → contains k s.available_ips.ips ≡ true
        → IpSet.has k s.using_ips ≡ true)
    → IsSynced (release ip s)
      × ((t : Subnet) × (allocate_next lib pod_name pod_namespace (release ip s)
            ≡ ok t (some (new_ip lib s ip pod_name pod_namespace status_using))))
unfolding new_ip release
allocate_next-release lib pod_name pod_namespace ip s v there full =
    let w = release-IsSynced ip s v in
    let free = v.unreserved ip there in
    (
      w,
      elim (allocate_next-Allocates lib pod_name pod_namespace (release ip s) w.slice) [
        | inl (all, _, _, _) ↦
            absurd (ground (arith, all ip there, has-release ip ip s free, eq_iff ip ip))
        | inr (i, other, _, at, unused, run) ↦ elim (Bool-cases (str_eq ip other)) [
          | inl same ↦
              let q : ip ≡ other = (eq_iff ip other).0 same in
              (
                _,
                subst
                    (λ x.
                      allocate_next lib pod_name pod_namespace (release ip s)
                      ≡ ok
                          (given (release ip s) (pos i) x
                            (new_ip lib (release ip s) x pod_name pod_namespace status_using))
                          (some (new_ip lib (release ip s) x pod_name pod_namespace status_using)))
                    (sym q) run,
              )
          | inr differs ↦
              let here = contains_of_get_elem? other s.available_ips.ips i at in
              absurd (
                ground
                  (arith, full other differs here, has-release ip other s free, unused, differs))
        ]
      ],
    )
