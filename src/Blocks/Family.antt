-- ===== src/Blocks/Family.antt =====
-- The addresses of one family as numbers, and the blocks of pkg/daemon/utils/ip_range.go as intervals.

use hybridnet.Base.{
  ℕ, suc, ◌+◌, ◌-◌, ◌*◌, ◌/◌, ◌^◌, ◌≤◌, ◌<◌, ◌≡◌, ◌↔◌, ◌⊎◌, refl, true, some, pos, ltb_ℤ, ◌==◌,
  ◌&&◌, arith, sym, subst, ◌∙◌,
}
use hybridnet.Net.{
  Ip, Cidr, short, equal, cidr_contains, network_number_and_mask, prefix_bits, number_of,
}
use hybridnet.Blocks.{RangeLib, block}

abbrev pub size_of : Ip → ℕ
size_of a = (short a).size

abbrev pub num_of : Ip → ℕ
num_of a = (short a).num

-- The documented behaviour of the libraries on the addresses of one family from `lo` to `hi`:
-- `NextIP` and `PrevIP` count, `Cmp` compares, and the last address of a prefix has all host bits set.
pub record Numbers (lib : RangeLib) (size lo hi : ℕ) : Type 0 where
  pub known_size : (size ≡ 4) ⊎ (size ≡ 16)
  pub next :
      (a : Ip)
      → size_of a ≡ size
      → lo ≤ num_of a
      → num_of a < hi
      → (b : Ip) × (lib.address.next_ip (some a) ≡ some b)
        × (size_of b ≡ size)
        × (num_of b ≡ suc (num_of a))
  pub prev :
      (a : Ip)
      → size_of a ≡ size
      → lo < num_of a
      → num_of a ≤ hi
      → (b : Ip) × (lib.prev_ip (some a) ≡ some b)
        × (size_of b ≡ size)
        × (suc (num_of b) ≡ num_of a)
  pub above :
      (a b : Ip)
      → size_of a ≡ size
      → size_of b ≡ size
      → (ltb_ℤ (pos 0) (lib.address.cmp (some a) (some b)) ≡ true) ↔ (num_of b < num_of a)
  pub below :
      (a b : Ip)
      → size_of a ≡ size
      → size_of b ≡ size
      → (ltb_ℤ (lib.address.cmp (some a) (some b)) (pos 0) ≡ true) ↔ (num_of a < num_of b)
  pub last :
      (a : Ip) (host : ℕ)
      → size_of a ≡ size
      → host ≤ 8 * size
      → (b : Ip) × (lib.last_ip (block lib a host) ≡ some b)
        × (size_of b ≡ size)
        × (num_of b ≡ num_of a / 2 ^ host * 2 ^ host + (2 ^ host - 1))

contains_of :
    (c : Cidr) (n : Ip) (ones : ℕ) (e : Ip)
    → network_number_and_mask c ≡ some (n, ones)
    → cidr_contains c (some e)
      ≡ (size_of e == n.size && prefix_bits (short e) ones == prefix_bits n ones)
unfolding cidr_contains
contains_of c n ones e h = rw (h, cidr_contains) refl

block_number :
    (lib : RangeLib) (size : ℕ)
    → (size ≡ 4) ⊎ (size ≡ 16)
    → (a : Ip) (host : ℕ) → size_of a ≡ size
    → network_number_and_mask (block lib a host) ≡ some (short a, 8 * size - host)
unfolding block
block_number lib size known a host sa =
    let given = number_of a (8 * size - host) (subst (λ s. (s ≡ 4) ⊎ (s ≡ 16)) (sym sa) known) in
    subst
      (λ s.
        network_number_and_mask
          (record { ip = some a; mask = some (record { size = size_of a; ones = 8 * s - host }) })
        ≡ some (short a, 8 * size - host))
      (sym sa) given

bits_at :
    (s : Ip) (size host : ℕ)
    → s.size ≡ size
    → host ≤ 8 * size
    → prefix_bits s (8 * size - host) ≡ s.num / 2 ^ host
unfolding prefix_bits
bits_at s size host k le =
    let left : 8 * size - (8 * size - host) ≡ host = omega arith in rw (k, left) refl

-- The block of a prefix holds the addresses that share the prefix.
pub block_contains :
    (lib : RangeLib) (size : ℕ)
    → (size ≡ 4) ⊎ (size ≡ 16)
    → (a e : Ip) (host : ℕ) → size_of a ≡ size
    → size_of e ≡ size
    → host ≤ 8 * size
    → cidr_contains (block lib a host) (some e) ≡ (num_of e / 2 ^ host == num_of a / 2 ^ host)
block_contains lib size known a e host sa se le =
    contains_of (block lib a host) (short a) (8 * size - host) e
      (block_number lib size known a host sa)
    ∙ rw (bits_at (short e) size host se le, bits_at (short a) size host sa le, sa, se)
        (ground arith)

pub equal_iff :
    (a b : Ip) → equal (some a) (some b) ≡ true ↔ ((size_of a ≡ size_of b) × (num_of a ≡ num_of b))
unfolding equal
equal_iff a b = ground arith
