-- ===== src/Api/Capacity.antt =====
-- What `CalculateCapacity` of pkg/apis/networking/v1/utils.go counts.
use native.Mathlib.Nat.{pow-suc, one-le-pow}
use hybridnet.Base.{
  ℕ, zero, suc, ◌+◌, ◌-◌, ◌*◌, ◌/◌, ◌^◌, ◌≤◌, ◌<◌, ◌≡◌, refl, ap, ◌∙◌, true, false, none, some,
  String, pos, ltb_ℤ, eq_iff, length, ◌==◌, if◌then◌else◌, arith,
}
use hybridnet.Net.{Ip, NetIp, Mask, Cidr, AddressLib, to4}
use hybridnet.Net
use hybridnet.Api.Types.{AddressRange, ParseCidr}
use hybridnet.Api.Range.{
  ip_to_int, byte_length, int_to_ip, next_ip, signed64, sub64, capacity, last_ip, given_ip,
  start_of, end_of, calculate_capacity,
}

capacity_lem :
    (a b : NetIp)
    → ip_to_int a ≤ ip_to_int b
    → ip_to_int b < ip_to_int a + 2 ^ 63 - 1
    → capacity a b ≡ ip_to_int b - ip_to_int a + 1
unfolding capacity
capacity_lem a b le lt = omega arith

module _ (lib : AddressLib) (parse_cidr : ParseCidr) (r : AddressRange) where
  -- If the CIDR parses, the range ends at an address, its first address is not above its last, and it
  -- has fewer than 2 ^ 63 - 1 addresses and no more exclusions than addresses, CalculateCapacity
  -- returns the number of its addresses less the number of the exclusions.
  pub calculate_capacity_lem :
      (x : NetIp) (c : Cidr) (last : NetIp)
      → parse_cidr r.cidr ≡ some (x, c)
      → end_of lib parse_cidr r c ≡ some last
      → let first = ip_to_int (start_of lib parse_cidr r c) in
        first ≤ ip_to_int last
        → ip_to_int last < first + 2 ^ 63 - 1
        → length r.exclude_ips ≤ ip_to_int last - first + 1
        → (w : ℕ) × (calculate_capacity lib parse_cidr r ≡ some w)
          × (signed64 w ≡ pos (ip_to_int last - first + 1 - length r.exclude_ips))
  unfolding calculate_capacity
  calculate_capacity_lem x c last p e le lt few =
      let q = capacity_lem (start_of lib parse_cidr r c) last le lt in
      (
        sub64 (capacity (start_of lib parse_cidr r c) last) (length r.exclude_ips),
        rw (p, e, calculate_capacity) refl,
        ground (arith, q),
      )

byte_length-zero : (rounds : ℕ) → byte_length rounds 0 ≡ 0
unfolding byte_length
byte_length-zero zero = refl
byte_length-zero (suc rounds) = refl

-- A number with k + 1 bytes and no leading zero.
byte_length_lem :
    (k rounds n : ℕ)
    → k ≤ rounds
    → 256 ^ k ≤ n
    → n < 256 ^ suc k
    → byte_length (suc rounds) n ≡ suc k
unfolding byte_length
byte_length_lem zero rounds n le lo hi =
    let e : n / 256 ≡ 0 = omega arith in rw e (ground (arith, byte_length-zero rounds))
byte_length_lem (suc k) zero n le lo hi = absurd (omega arith)
byte_length_lem (suc k) (suc rounds) n le lo hi =
    let pos_n : 0 < n = omega (arith, one-le-pow (suc k) 256) in
    let step =
      byte_length_lem k rounds (n / 256) (omega arith) (omega (arith, pow-suc 256 k))
        (omega (arith, pow-suc 256 (suc k))) in
    let e : (n == 0) ≡ false = ground arith in rw (e, if◌then◌else◌) (ap suc step)

-- An IPv6 network address that has its first byte.
byte_length_sixteen : (n : ℕ) → 2 ^ 120 ≤ n → n < 2 ^ 128 → byte_length 17 n ≡ 16
byte_length_sixteen n lo hi = byte_length_lem 15 16 n (omega arith) (omega arith) (omega arith)

-- A block of 2 ^ k addresses with k at least 64.
wide_host : (k : ℕ) → (q : ℕ) × (2 ^ (k + 64) ≡ q * 2 ^ 64) × (0 < q)
wide_host zero = (1, refl, omega arith)
wide_host (suc k) =
    let (q, e, lt) = wide_host k in
    let shift : suc k + 64 ≡ suc (k + 64) = omega arith in
    (2 * q, omega (arith, pow-suc 2 (k + 64), ap (λ x. 2 ^ x) shift), omega arith)

-- The CIDR of an IPv6 network with the prefix.
abbrev pub v6_cidr : ℕ → ℕ → Cidr
v6_cidr n ones = record {
  ip = some (record { size = 16; num = n });
  mask = some (record { size = 16; ones = ones });
}

module _ (n ones : ℕ) (wide : ones ≤ 64) (aligned : n / 2 ^ (128 - ones) * 2 ^ (128 - ones) ≡ n)
    (lo : 2 ^ 120 ≤ n) (hi : n + 2 ^ (128 - ones) ≤ 2 ^ 128) where
  wide_block : (q : ℕ) × (2 ^ (128 - ones) ≡ q * 2 ^ 64) × (0 < q)
  wide_block =
      let (q, e, lt) = wide_host (64 - ones) in
      let split : 128 - ones ≡ 64 - ones + 64 = omega arith in (q, ap (λ x. 2 ^ x) split ∙ e, lt)

  wide-to4 : (m : ℕ) → 2 ^ 120 ≤ m → to4 (record { size = 16; num = m }) ≡ none
  unfolding to4
  wide-to4 m h = ground arith

  wide_num : (m : ℕ) → 2 ^ 120 ≤ m → ip_to_int (some (record { size = 16; num = m })) ≡ m
  unfolding ip_to_int
  wide_num m h = rw (wide-to4 m h, ip_to_int) refl

  wide_first : ip_to_int (next_ip (some (record { size = 16; num = n }))) ≡ n + 1
  unfolding next_ip int_to_ip
  wide_first =
      let (q, e, lt) = wide_block in
      rw (wide_num n lo, byte_length_sixteen (n + 1) (omega arith) (omega arith))
        (wide_num (n + 1) (omega arith))

  abbrev wide_end : NetIp
  wide_end = some (record { size = 16; num = n + 2 ^ (128 - ones) - 1 })

  wide_last : last_ip (v6_cidr n ones) ≡ some wide_end
  unfolding last_ip Net.last_ip
  wide_last =
      let (q, e, lt) = wide_block in
      rw (wide-to4 n lo, last_ip, Net.last_ip)
        (ap (λ m. some (some (record { size = 16; num = m }))) (omega arith))

  wide_capacity : capacity (next_ip (some (record { size = 16; num = n }))) wide_end ≡ 2 ^ 64 - 1
  unfolding capacity
  wide_capacity =
      let (q, e, lt) = wide_block in
      rw (wide_first, wide_num (n + 2 ^ (128 - ones) - 1) (omega arith)) (omega arith)

  not_given :
      (lib : AddressLib) (parse_cidr : ParseCidr) (t : String)
      → t ≡ ""
      → given_ip lib parse_cidr t ≡ none
  unfolding given_ip
  not_given lib parse_cidr t e = rw ((eq_iff t "").1 e, given_ip) refl

  wide_start_of :
      (lib : AddressLib) (parse_cidr : ParseCidr) (r : AddressRange)
      → r.start ≡ ""
      → start_of lib parse_cidr r (v6_cidr n ones) ≡ next_ip (some (record { size = 16; num = n }))
  unfolding start_of
  wide_start_of lib parse_cidr r s = rw (not_given lib parse_cidr r.start s, start_of) refl

  wide_end_of :
      (lib : AddressLib) (parse_cidr : ParseCidr) (r : AddressRange)
      → r.end ≡ ""
      → end_of lib parse_cidr r (v6_cidr n ones) ≡ some wide_end
  unfolding end_of
  wide_end_of lib parse_cidr r e = rw (not_given lib parse_cidr r.end e, end_of) wide_last

  -- CalculateCapacity is negative for a whole IPv6 network whose first byte is not zero, whose prefix has at
  -- most 64 bits, and which excludes fewer than 2 ^ 63 addresses.
  pub calculate_capacity-wide :
      (lib : AddressLib) (parse_cidr : ParseCidr) (r : AddressRange) (x : NetIp)
      → r.start ≡ ""
      → r.end ≡ ""
      → parse_cidr r.cidr ≡ some (x, v6_cidr n ones)
      → length r.exclude_ips < 2 ^ 63
      → (w : ℕ) × (calculate_capacity lib parse_cidr r ≡ some w)
        × (ltb_ℤ (signed64 w) (pos 0) ≡ true)
  unfolding calculate_capacity
  calculate_capacity-wide lib parse_cidr r x s e p few = (
    sub64 (2 ^ 64 - 1) (length r.exclude_ips),
    rw
        (
          p,
          calculate_capacity,
          wide_end_of lib parse_cidr r e,
          wide_start_of lib parse_cidr r s,
          wide_capacity,
        )
        refl,
    ground arith,
  )
