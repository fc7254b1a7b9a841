-- ===== src/Blocks.antt =====
-- pkg/daemon/utils/ip_range.go: address ranges, their split into CIDR blocks, and the blocks of a
-- subnet that are not to be routed. A range is nil only where `CreateIPRange` returns it so.
pub mod Align
pub mod Family
pub mod Split
pub mod Cover
pub mod Added
pub mod Gaps
pub mod Tally
pub mod Subnet
pub mod Order
pub mod Excluded
mod Tests
use hybridnet.Base.{
  ℕ, zero, suc, ◌+◌, ◌-◌, ◌*◌, Bool, true, false, not, ◌&&◌, ◌||◌, List, [], ◌∷◌, ◌++◌, Option,
  none, some, pos, ltb_ℤ, if◌then◌else◌,
}
use hybridnet.Net.{Ip, NetIp, Mask, Cidr, AddressLib, short, equal, cidr_contains, mask_ip}

-- What the code calls: `Cmp` and `NextIP` of containernetworking/plugins in `address`, its `PrevIP`,
-- and the last address of a prefix by mikioh/ipaddr (`LastIP`).
pub record RangeLib : Type 0 where
  pub address : AddressLib
  pub prev_ip : NetIp → NetIp
  pub last_ip : Cidr → NetIp

pub record IpRange : Type 0 where
  pub start : NetIp
  pub end : NetIp

pub data Error : Type 0 where
  nil_address out_of_cidr overlapped : Error

pub data Result (A : Type 0) : Type 0 where
  ok : A → Result A
  failed : Error → Result A
  crashed : Result A

-- A chain of results; `crashed` is a panic, or a loop that does not end.
infixl 5 ◌>>=◌
abbrev pub ◌>>=◌ : {A B : Type 0} → Result A → (A → Result B) → Result B
ok a >>= f = f a
failed e >>= f = failed e
crashed >>= f = crashed

is_nil : NetIp → Bool
is_nil none = true
is_nil (some _) = false

abbrev pub bits_of : Ip → ℕ
bits_of a = 8 * (short a).size

-- An address as a number.
abbrev pub addr_num : NetIp → ℕ
addr_num none = 0
addr_num (some a) = (short a).num

abbrev pub some_range : Option IpRange → List IpRange
some_range none = []
some_range (some r) = r ∷ []

unfoldable pub single : List IpRange → Option IpRange → Result (List IpRange)
single rs none = crashed
single rs (some r) = ok (rs ++ r ∷ [])

unfoldable pub all_excluded : NetIp → List NetIp → List NetIp
all_excluded none ips = ips
all_excluded (some g) ips = ips ++ some g ∷ []

module _ (lib : RangeLib) where
  open lib use {address, prev_ip, last_ip}
  open address use {cmp, next_ip}

  -- `CreateIPRange`; the range is nil if it would be empty.
  unfoldable pub create_ip_range : NetIp → NetIp → Result (Option IpRange)
  unfolding is_nil
  create_ip_range start end =
      if is_nil start || is_nil end
      then failed nil_address
      else if ltb_ℤ (pos 0) (cmp start end)
      then ok none
      else ok (some (record { start = start; end = end }))

  -- `TryAddIP`: the range, changed if the address extends it, and whether it holds the address then.
  unfoldable pub try_add_ip : NetIp → IpRange → IpRange × Bool
  try_add_ip ip r =
      if equal ip (prev_ip r.start)
      then (record r { start = ip }, true)
      else if equal ip (next_ip r.end)
      then (record r { end = ip }, true)
      else (r, not (ltb_ℤ (cmp ip r.start) (pos 0)) && not (ltb_ℤ (pos 0) (cmp ip r.end)))

  -- `calculateIPLastZeroBits`: the loop over the lengths of the masks; it ends at a full mask.
  unfoldable pub zero_bits_from : ℕ → ℕ → Ip → ℕ
  zero_bits_from zero ones a = 0
  zero_bits_from (suc rounds) ones a =
      let rest = zero_bits_from rounds (suc ones) a in
      if equal (mask_ip (short a) (record { size = (short a).size; ones = ones })) (some a)
      then suc rounds
      else rest

  unfoldable pub calculate_ip_last_zero_bits : Ip → ℕ
  unfolding zero_bits_from
  calculate_ip_last_zero_bits a = zero_bits_from (bits_of a) 0 a

  -- The block of the address with `host` host bits.
  unfoldable pub block : Ip → ℕ → Cidr
  block a host = record {
    ip = some a;
    mask = some (record { size = (short a).size; ones = bits_of a - host });
  }

  -- The loop of `findTheFirstLargestCidr`, which adds to the length of the prefix, and so takes from
  -- the host bits: the block, and the address that follows it, or nil where the range ends with it.
  unfoldable pub shrink : ℕ → Ip → NetIp → Result (Cidr × NetIp)
  unfolding block
  shrink zero start end =
      let cidr = block start zero in
      if equal (last_ip cidr) end
      then ok (cidr, none)
      else if cidr_contains cidr end
      then crashed
      else ok (cidr, next_ip (last_ip cidr))
  shrink (suc host) start end =
      let cidr = block start (suc host) in
      let smaller = shrink host start end in
      if equal (last_ip cidr) end
      then ok (cidr, none)
      else if cidr_contains cidr end
      then smaller
      else ok (cidr, next_ip (last_ip cidr))

  unfoldable pub find_the_first_largest_cidr : Ip → NetIp → Result (Cidr × NetIp)
  unfolding shrink calculate_ip_last_zero_bits
  find_the_first_largest_cidr start end = shrink (calculate_ip_last_zero_bits start) start end

  -- The loop of `splitIPRangeToIPBlocks`, in at most `fuel` rounds.
  unfoldable pub split_rounds : ℕ → NetIp → NetIp → Result (List Cidr)
  unfolding find_the_first_largest_cidr
  split_rounds fuel none end = ok []
  split_rounds zero (some a) end = crashed
  split_rounds (suc fuel) (some a) end = find_the_first_largest_cidr a end >>= λ found.
      split_rounds fuel found.1 end >>= λ blocks. ok (found.0 ∷ blocks)

  -- A block holds at least one address of the range.
  unfoldable pub split_ip_range_to_ip_blocks : IpRange → Result (List Cidr)
  unfolding split_rounds
  split_ip_range_to_ip_blocks r = split_rounds (addr_num r.end + 1 - addr_num r.start) r.start r.end

  -- `sort.Slice` by the starts of the ranges.
  unfoldable pub insert_range : IpRange → List IpRange → List IpRange
  insert_range r [] = r ∷ []
  insert_range r (q ∷ qs) =
      let rest = insert_range r qs in
      if ltb_ℤ (cmp q.start r.start) (pos 0) then q ∷ rest else r ∷ q ∷ qs

  unfoldable pub sort_ranges : List IpRange → List IpRange
  unfolding insert_range
  sort_ranges [] = []
  sort_ranges (r ∷ rs) = insert_range r (sort_ranges rs)

  -- The test of a range against the next one.
  unfoldable pub overlaps_next : IpRange → List IpRange → Bool
  overlaps_next r [] = false
  overlaps_next r (q ∷ qs) = not (ltb_ℤ (cmp r.end q.start) (pos 0))

  -- Where the gap after a range ends.
  unfoldable pub gap_end : NetIp → List IpRange → NetIp
  gap_end cidr_end [] = cidr_end
  gap_end cidr_end (q ∷ qs) = prev_ip q.start

  -- The gap before the first range.
  unfoldable pub first_gap : Bool → NetIp → IpRange → Result (Option IpRange)
  first_gap true cidr_start r = create_ip_range cidr_start (prev_ip r.start)
  first_gap false cidr_start r = ok none

  -- The loop over the included ranges: the gaps between them.
  unfoldable pub gaps : NetIp → NetIp → Bool → List IpRange → Result (List IpRange)
  unfolding first_gap gap_end overlaps_next
  gaps cidr_start cidr_end is_first [] = ok []
  gaps cidr_start cidr_end is_first (r ∷ rs) =
      let rest = gaps cidr_start cidr_end false rs in
      if ltb_ℤ (cmp r.start cidr_start) (pos 0) || ltb_ℤ (pos 0) (cmp r.end cidr_end)
      then failed out_of_cidr
      else if overlaps_next r rs
      then failed overlapped
      else (first_gap is_first cidr_start r >>= λ before.
          create_ip_range (next_ip r.end) (gap_end cidr_end rs) >>= λ after.
          rest >>= λ others. ok (some_range before ++ some_range after ++ others))

  -- The inner loop over the ranges: those with the address, if one takes it.
  unfoldable pub try_ranges : NetIp → List IpRange → Option (List IpRange)
  try_ranges ip [] = none
  try_ranges ip (r ∷ rs) =
      let rest = try_ranges ip rs in
      let (q, success) = try_add_ip ip r in
      if success then some (q ∷ rs) else elim rest [ none ↦ none | some qs ↦ some (r ∷ qs) ]

  -- The loop over the excluded addresses.
  unfoldable pub add_excluded : List NetIp → List IpRange → Result (List IpRange)
  unfolding try_ranges single
  add_excluded [] rs = ok rs
  add_excluded (ip ∷ ips) rs = elim (try_ranges ip rs) [
    | some qs ↦ add_excluded ips qs
    | none ↦ create_ip_range ip ip >>= λ r. single rs r >>= λ qs. add_excluded ips qs
  ]

  -- The loop that splits the ranges.
  unfoldable pub split_all : List IpRange → Result (List Cidr)
  split_all [] = ok []
  split_all (r ∷ rs) =
      let rest = split_all rs in
      split_ip_range_to_ip_blocks r >>= λ blocks. rest >>= λ others. ok (blocks ++ others)

  -- `FindSubnetExcludeIPBlocks`
  unfoldable pub find_subnet_exclude_ip_blocks :
      Cidr → List IpRange → NetIp → List NetIp → Result (List Cidr)
  unfolding gaps add_excluded split_all sort_ranges all_excluded
  find_subnet_exclude_ip_blocks cidr included gateway excluded =
      gaps cidr.ip (last_ip cidr) true (sort_ranges included) >>= λ ranges.
      add_excluded (all_excluded gateway excluded) ranges >>= λ all. split_all all
