-- ===== src/Api/Range.antt =====
-- pkg/apis/networking/v1/utils.go: `ValidateAddressRange` and `CalculateCapacity`.
use hybridnet.Base.{
  ℕ, zero, suc, ◌+◌, ◌-◌, ◌*◌, ◌/◌, ◌%◌, ◌^◌, Bool, true, false, not, ◌&&◌, List, [], ◌∷◌, Option,
  none, some, String, ℤ, pos, negsuc, ltb, ltb_ℤ, ◌==◌, str_eq, is_empty, length, if◌then◌else◌,
}
use hybridnet.Net.{Ip, NetIp, Mask, Cidr, AddressLib, to4, equal, cidr_contains}
use hybridnet.Net
use hybridnet.Api.Types.{AddressRange, ParseCidr, version_ipv4, version_ipv6, is_not_v4}

pub data RangeError : Type 0 where
  unsupported_version invalid_start invalid_end invalid_cidr not_standard_cidr : RangeError
  single_address start_not_in_cidr end_not_in_cidr no_available_ip : RangeError
  invalid_gateway gateway_family_mismatch gateway_not_in_cidr : RangeError
  invalid_reserved_ip reserved_ip_not_in_cidr : String → RangeError
  invalid_excluded_ip excluded_ip_not_in_cidr : String → RangeError

-- `net.ParseIP(t) == nil`, where the text is not empty.
unfoldable pub bad_text : String → NetIp → Bool
bad_text t none = not (is_empty t)
bad_text t (some _) = false

-- A test that is made only if the text is not empty.
unfoldable pub given_outside : Cidr → String → NetIp → Bool
given_outside c t a = not (is_empty t) && not (cidr_contains c a)

-- `ones == bits`; the size of no mask is (0, 0).
unfoldable pub all_ones : Option Mask → Bool
all_ones none = true
all_ones (some m) = m.ones == 8 * m.size

module _ (lib : AddressLib) (parse_cidr : ParseCidr) where
  open lib use {parse_ip, cmp}

  -- The loops over the reserved and the excluded addresses; the result is the first error.
  unfoldable pub check_listed :
      (String → RangeError) → (String → RangeError) → Cidr → List String → Option RangeError
  check_listed invalid outside c [] = none
  check_listed invalid outside c (t ∷ ts) =
      let rest = check_listed invalid outside c ts in
      elim (parse_ip t) [
        | none ↦ some (invalid t)
        | some a ↦ if cidr_contains c (some a) then rest else some (outside t)
      ]

  unfoldable pub check_lists : AddressRange → Cidr → Option RangeError
  unfolding check_listed
  check_lists r c =
      elim (check_listed invalid_reserved_ip reserved_ip_not_in_cidr c r.reserved_ips) [
        | some e ↦ some e
        | none ↦ check_listed invalid_excluded_ip excluded_ip_not_in_cidr c r.exclude_ips
      ]

  unfoldable pub check_gateway : AddressRange → Bool → Cidr → Option RangeError
  unfolding check_lists is_not_v4
  check_gateway r is_ipv6 c =
      if is_empty r.gateway then check_lists r c else elim (parse_ip r.gateway) [
        | none ↦ some invalid_gateway
        | some g ↦
            let family = if is_ipv6 then is_not_v4 (some g) else not (is_not_v4 (some g)) in
            if not family
            then some gateway_family_mismatch
            else if not (cidr_contains c (some g))
            then some gateway_not_in_cidr
            else check_lists r c
      ]

  unfoldable pub check_cidr : AddressRange → Bool → NetIp → Cidr → Option RangeError
  unfolding check_gateway all_ones
  check_cidr r is_ipv6 ip c =
      if not (equal c.ip ip)
      then some not_standard_cidr
      else if all_ones c.mask
      then some single_address
      else if given_outside c r.start (parse_ip r.start)
      then some start_not_in_cidr
      else if given_outside c r.end (parse_ip r.end)
      then some end_not_in_cidr
      else if not (is_empty r.start)
          && not (is_empty r.end)
          && ltb_ℤ (pos 0) (cmp (parse_ip r.start) (parse_ip r.end))
      then some no_available_ip
      else check_gateway r is_ipv6 c

  unfoldable pub check_texts : AddressRange → Bool → Option RangeError
  unfolding check_cidr bad_text
  check_texts r is_ipv6 =
      if bad_text r.start (parse_ip r.start)
      then some invalid_start
      else if bad_text r.end (parse_ip r.end)
      then some invalid_end
      else elim (parse_cidr r.cidr) [
        | none ↦ some invalid_cidr
        | some (ip, c) ↦ check_cidr r is_ipv6 ip c
      ]

  -- `ValidateAddressRange`; `none` is nil, no error.
  unfoldable pub validate_address_range : AddressRange → Option RangeError
  unfolding check_texts
  validate_address_range r =
      if str_eq r.version version_ipv4
      then check_texts r false
      else if str_eq r.version version_ipv6
      then check_texts r true
      else some unsupported_version

-- `big.Int.SetBytes` of an address; bytes that are no address have no 16-byte form, and so count as 0.
unfoldable pub ip_to_int : NetIp → ℕ
ip_to_int none = 0
ip_to_int (some a) = elim (to4 a) [ some b ↦ b.num | none ↦ if a.size == 16 then a.num else 0 ]

-- The number of bytes of a number without leading zeros, for numbers below 256 ^ rounds.
unfoldable pub byte_length : ℕ → ℕ → ℕ
byte_length zero n = 0
byte_length (suc rounds) n =
    let rest = byte_length rounds (n / 256) in if n == 0 then 0 else suc rest

-- An address and its successor have at most 17 bytes.
unfoldable pub int_to_ip : ℕ → NetIp
unfolding byte_length
int_to_ip n = some (record { size = byte_length 17 n; num = n })

unfoldable pub next_ip : NetIp → NetIp
unfolding ip_to_int int_to_ip
next_ip a = int_to_ip (ip_to_int a + 1)

-- An `int64` is its bit pattern, below 2 ^ 64; this is the number that the pattern stands for.
abbrev pub signed64 : ℕ → ℤ
signed64 w = if ltb w (2 ^ 63) then pos w else negsuc (2 ^ 64 - w - 1)

abbrev pub sub64 : ℕ → ℕ → ℕ
sub64 a b = (a % 2 ^ 64 + 2 ^ 64 - b % 2 ^ 64) % 2 ^ 64

-- `capacity`: `big.Int.Int64` keeps the lowest 64 bits of the difference, and the sum wraps.
unfoldable pub capacity : NetIp → NetIp → ℕ
capacity a b = (sub64 (ip_to_int b) (ip_to_int a) + 1) % 2 ^ 64

-- `lastIP` of a CIDR that ParseCIDR returned; `none` is a panic.
unfoldable pub last_ip : Cidr → Option NetIp
last_ip c = elim c.ip [
  | none ↦ some none
  | some a ↦ elim c.mask [
    | none ↦ none
    | some m ↦ elim (Net.last_ip a m) [ none ↦ none | some b ↦ some (some b) ]
  ]
]

module _ (lib : AddressLib) (parse_cidr : ParseCidr) where
  open lib use {parse_ip}

  -- A text that is given and is an address.
  unfoldable pub given_ip : String → NetIp
  given_ip t = if is_empty t then none else parse_ip t

  unfoldable pub start_of : AddressRange → Cidr → NetIp
  unfolding given_ip next_ip
  start_of r c = elim (given_ip r.start) [ none ↦ next_ip c.ip | some a ↦ some a ]

  unfoldable pub end_of : AddressRange → Cidr → Option NetIp
  unfolding given_ip last_ip
  end_of r c = elim (given_ip r.end) [ none ↦ last_ip c | some a ↦ some (some a) ]

  -- `CalculateCapacity`, as the bit pattern of an `int64`; `none` is a panic.
  unfoldable pub calculate_capacity : AddressRange → Option ℕ
  unfolding start_of end_of capacity
  calculate_capacity r = elim (parse_cidr r.cidr) [
    | none ↦ some (2 ^ 63 - 1)
    | some (_, c) ↦ elim (end_of r c) [
      | none ↦ none
      | some last ↦ some (sub64 (capacity (start_of r c) last) (length r.exclude_ips))
    ]
  ]
