-- ===== src/Net.antt =====
-- What the code uses of Go's package `net`, and pkg/utils/ip.go (`LastIP`).
-- A `net.IP` is nil, or a number of 4 or 16 bytes; a mask is a prefix mask, as ParseCIDR makes it.
use hybridnet.Base.{
  ℕ, ◌+◌, ◌-◌, ◌*◌, ◌/◌, ◌%◌, ◌^◌, Bool, true, false, ◌&&◌, Option, none, some, String, ℤ, ltb,
  ◌==◌, if◌then◌else◌, ◌≡◌, ◌⊎◌, arith,
}

pub record Ip : Type 0 where
  pub size : ℕ
  pub num : ℕ

abbrev pub NetIp : Type 0
NetIp = Option Ip

pub record Mask : Type 0 where
  pub size : ℕ
  pub ones : ℕ

-- `net.IPNet`
pub record Cidr : Type 0 where
  pub ip : NetIp
  pub mask : Option Mask

-- `(net.IP).To4`
unfoldable pub to4 : Ip → NetIp
to4 a =
    if a.size == 4
    then some a
    else if a.size == 16 && a.num / 2 ^ 32 == 0xffff
    then some (record { size = 4; num = a.num % 2 ^ 32 })
    else none

-- The short form of an address that has one.
unfoldable pub short : Ip → Ip
unfolding to4
short a = elim (to4 a) [ none ↦ a | some b ↦ b ]

-- An address whose short form has its size is that form.
pub short_same : (a : Ip) → (short a).size ≡ a.size → short a ≡ a
unfolding short
short_same a h = ground arith

-- `(net.IP).Equal`: the same bytes, or the two forms of one IPv4 address.
unfoldable pub equal : NetIp → NetIp → Bool
equal none none = true
equal none (some b) = false
equal (some a) none = false
equal (some a) (some b) = (short a).size == (short b).size && (short a).num == (short b).num

-- The leading `ones` bits of an address.
unfoldable pub prefix_bits : Ip → ℕ → ℕ
prefix_bits a ones = a.num / 2 ^ (8 * a.size - ones)

-- `networkNumberAndMask`: the network address in its short form, and the length of its prefix.
network_number : Ip → Mask → Option (Ip × ℕ)
network_number a m =
    if m.size == 4
    then (if a.size == 4 then some (a, m.ones) else none)
    else if m.size == 16
    then (if a.size == 4
        then some (a, m.ones - 96)
        else if a.size == 16
        then some (a, m.ones)
        else none)
    else none

number_of_short :
    (s : Ip) (ones : ℕ)
    → (s.size ≡ 4) ⊎ (s.size ≡ 16)
    → network_number s (record { size = s.size; ones = ones }) ≡ some (s, ones)
unfolding network_number
number_of_short s ones known = grind arith

unfoldable pub network_number_and_mask : Cidr → Option (Ip × ℕ)
unfolding short network_number
network_number_and_mask c = elim c.ip [
  | none ↦ none
  | some a ↦ elim c.mask [ none ↦ none | some m ↦ network_number (short a) m ]
]

-- A prefix mask of the length of an address.
pub number_of :
    (a : Ip) (ones : ℕ)
    → ((short a).size ≡ 4) ⊎ ((short a).size ≡ 16)
    → network_number_and_mask
        (record { ip = some a; mask = some (record { size = (short a).size; ones = ones }) })
      ≡ some (short a, ones)
unfolding network_number_and_mask
number_of a ones known = number_of_short (short a) ones known

-- `(*net.IPNet).Contains`
unfoldable pub cidr_contains : Cidr → NetIp → Bool
cidr_contains c addr = elim (network_number_and_mask c) [
  | none ↦ elim addr [ none ↦ true | some _ ↦ false ]
  | some (n, ones) ↦ elim addr [
    | none ↦ false
    | some a ↦ (short a).size == n.size && prefix_bits (short a) ones == prefix_bits n ones
  ]
]

-- `(net.IP).Mask` where the lengths agree, as the code has checked before it calls it.
unfoldable pub mask_ip : Ip → Mask → NetIp
mask_ip a m =
    if a.size == m.size
    then (let host = 2 ^ (8 * a.size - m.ones) in
        some (record { size = a.size; num = a.num / host * host }))
    else none

-- `x[k]--` on the byte of weight `w`: it wraps from 0 to 255.
unfoldable pub decrement_byte : ℕ → ℕ → ℕ
decrement_byte w n = if n / w % 256 == 0 then n + 255 * w else n - w

-- `LastIP`: every host bit is set; of an IPv4 address byte 3 is then decremented, which leaves out the
-- broadcast address. `none` is the panic of a mask that is shorter than the address.
unfoldable pub last_ip : Ip → Mask → Option Ip
unfolding to4 decrement_byte
last_ip a m =
    let host = 2 ^ (8 * a.size - m.ones) in
    let last = a.num / host * host + (host - 1) in
    if ltb m.size a.size then none else elim (to4 a) [
      | none ↦ some (record { size = a.size; num = last })
      | some _ ↦ some (record { size = a.size; num = decrement_byte (2 ^ (8 * (a.size - 4))) last })
    ]

-- What the code calls and this repository does not hold: Go's text form of addresses
-- (`net.ParseIP`, `(net.IP).String`), and `Cmp` and `NextIP` of containernetworking/plugins.
pub record AddressLib : Type 0 where
  pub parse_ip : String → NetIp
  pub ip_string : NetIp → String
  pub cmp : NetIp → NetIp → ℤ
  pub next_ip : NetIp → NetIp
