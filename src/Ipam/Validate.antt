-- ===== src/Ipam/Validate.antt =====
-- pkg/ipam/types/subnet.go: `Validate` and `Canonicalize` of a subnet's specification.
use hybridnet.Base.{
  ◌+◌, ◌*◌, Bool, true, not, Option, none, some, ltb, ◌==◌, if◌then◌else◌, is_empty,
}
use hybridnet.Base.Outcome.{M, panic, ok, err, fault, ◌>>◌, return, throw}
use hybridnet.Net.{NetIp, Ip, Mask, Cidr, AddressLib, equal, cidr_contains, mask_ip, last_ip}
use hybridnet.Ipam.Types.{
  Subnet, Error, empty_name, empty_parent_network, invalid_cidr, cidr_too_small, version_mismatch,
  host_bits_set, gateway_outside, start_outside, end_outside,
}

-- The nil-tolerant test of `Validate` that an optional address lies in the CIDR.
nil_or_inside : Cidr → NetIp → Bool
nil_or_inside c none = true
nil_or_inside c (some a) = cidr_contains c (some a)

validate_cidr : Subnet → Ip → Mask → M Subnet Error (Unit {0})
unfolding nil_or_inside
validate_cidr s ip mask =
    if ltb (8 * mask.size) (mask.ones + 2)
    then throw cidr_too_small
    else if not (ip.size == mask.size)
    then throw version_mismatch
    else if not (equal (some ip) (mask_ip ip mask))
    then throw host_bits_set
    else if not (nil_or_inside s.cidr s.gateway)
    then throw gateway_outside
    else if not (nil_or_inside s.cidr s.start)
    then throw start_outside
    else if not (nil_or_inside s.cidr s.end)
    then throw end_outside
    else return tt

unfoldable pub validate : M Subnet Error (Unit {0})
unfolding validate_cidr
validate s =
    if is_empty s.name
    then err s empty_name
    else if is_empty s.parent_network
    then err s empty_parent_network
    else elim s.cidr.ip [
      | none ↦ err s invalid_cidr
      | some ip ↦ elim s.cidr.mask [
        | none ↦ err s invalid_cidr
        | some mask ↦ validate_cidr s ip mask s
      ]
    ]

-- `LastIP` on a CIDR as it stands; a nil address has no last one.
unfoldable pub last_of : Cidr → Option NetIp
last_of c = elim c.ip [
  | none ↦ some none
  | some ip ↦ elim c.mask [
    | none ↦ none
    | some mask ↦ elim (last_ip ip mask) [ none ↦ none | some a ↦ some (some a) ]
  ]
]

module _ (lib : AddressLib) where
  open lib use {parse_ip, ip_string, cmp, next_ip}

  fill_start : M Subnet Error (Unit {0})
  fill_start s = elim s.start [
    | none ↦ ok (record s { start = next_ip s.cidr.ip }) tt
    | some _ ↦ ok s tt
  ]

  fill_end : M Subnet Error (Unit {0})
  unfolding last_of
  fill_end s = elim s.end [
    | none ↦ elim (last_of s.cidr) [ none ↦ fault panic | some a ↦ ok (record s { end = a }) tt ]
    | some _ ↦ ok s tt
  ]

  unfoldable pub canonicalize : M Subnet Error (Unit {0})
  unfolding fill_start fill_end
  canonicalize = do validate; fill_start; fill_end
