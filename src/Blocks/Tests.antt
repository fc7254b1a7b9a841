-- ===== src/Blocks/Tests.antt =====
-- Tests of pkg/daemon/utils/ip_range.go on IPv4 addresses.
use hybridnet.Base.{
  ℕ, suc, ◌+◌, ◌-◌, ◌*◌, ◌/◌, ◌^◌, ◌≡◌, ◌≤◌, ◌<◌, ◌↔◌, ◌∙◌, ap, true, ltb_ℤ, refl, inl, List, [],
  ◌∷◌, none, some, pos, sub_ℕ, arith,
}
use hybridnet.Net.{
  Ip, NetIp, Cidr, short, equal, mask_ip, cidr_contains, network_number_and_mask, prefix_bits,
}
use hybridnet.Blocks.{
  RangeLib, IpRange, ok, block, all_excluded, create_ip_range, try_add_ip,
  split_ip_range_to_ip_blocks, find_subnet_exclude_ip_blocks,
}
use hybridnet.Blocks.Family.{size_of, num_of, Numbers}
use hybridnet.Blocks.Cover.{nil, cons, span, span-Proper}
use hybridnet.Blocks.Split.{Splits, split_ip_range_to_ip_blocks-Splits}
use hybridnet.Blocks.Added.{no_more, with_one}
use hybridnet.Blocks.Excluded.{Answer, find_subnet_exclude_ip_blocks-Answer}

abbrev v4 : ℕ → Ip
v4 n = record { size = 4; num = n }

abbrev num : NetIp → ℕ
num none = 0
num (some a) = (short a).num

abbrev last_of : ℕ → ℕ → NetIp
last_of n host = some (v4 (n / 2 ^ host * 2 ^ host + (2 ^ host - 1)))

abbrev last : Cidr → NetIp
last c = elim c.mask [ none ↦ none | some m ↦ last_of (num c.ip) (8 * m.size - m.ones) ]

abbrev counting : RangeLib
counting = record {
  address = record {
    parse_ip = λ t. none;
    ip_string = λ a. "";
    cmp = λ a b. sub_ℕ (num a) (num b);
    next_ip = λ a. some (v4 (num a + 1));
  };
  prev_ip = λ a. some (v4 (num a - 1));
  last_ip = last;
}

plus_one : (n : ℕ) → n + 1 ≡ suc n
plus_one n = omega arith

minus_one : (n : ℕ) → 0 < n → suc (n - 1) ≡ n
minus_one n h = omega arith

above_num : (m n : ℕ) → (ltb_ℤ (pos 0) (sub_ℕ m n) ≡ true) ↔ (n < m)
above_num m n = ground arith

below_num : (m n : ℕ) → (ltb_ℤ (sub_ℕ m n) (pos 0) ≡ true) ↔ (m < n)
below_num m n = ground arith

host_bits : (size host : ℕ) → size ≡ 4 → host ≤ 32 → 8 * size - (8 * size - host) ≡ host
host_bits size host s le = omega arith

size_of_v4 : (n : ℕ) → size_of (v4 n) ≡ 4
unfolding short
size_of_v4 n = refl

num_of_v4 : (n : ℕ) → num_of (v4 n) ≡ n
unfolding short
num_of_v4 n = refl

last_block :
    (a : Ip) (host : ℕ)
    → size_of a ≡ 4
    → host ≤ 32
    → last (block counting a host) ≡ last_of (num_of a) host
unfolding block
last_block a host sa le = ap (last_of (num_of a)) (host_bits (size_of a) host sa le)

counting-Numbers : Numbers counting 4 0 4294967295
counting-Numbers = record {
  known_size = inl refl;
  next = λ a sa low high. (
    v4 (num_of a + 1),
    refl,
    size_of_v4 (num_of a + 1),
    num_of_v4 (num_of a + 1) ∙ plus_one (num_of a),
  );
  prev = λ a sa low high. (
    v4 (num_of a - 1),
    refl,
    size_of_v4 (num_of a - 1),
    ap suc (num_of_v4 (num_of a - 1)) ∙ minus_one (num_of a) low,
  );
  above = λ a b sa sb. above_num (num_of a) (num_of b);
  below = λ a b sa sb. below_num (num_of a) (num_of b);
  last = λ a host sa le. (
    v4 (num_of a / 2 ^ host * 2 ^ host + (2 ^ host - 1)),
    last_block a host sa le,
    size_of_v4 (num_of a / 2 ^ host * 2 ^ host + (2 ^ host - 1)),
    num_of_v4 (num_of a / 2 ^ host * 2 ^ host + (2 ^ host - 1)),
  );
}

abbrev base : ℕ
base = 167772160

-- 10.0.0.1 to 10.0.0.6 in four blocks.
split_test :
    split_ip_range_to_ip_blocks counting (span (v4 (base + 1)) (v4 (base + 6)))
    ≡ ok (
        block counting (v4 (base + 1)) 0
        ∷ block counting (v4 (base + 2)) 1
        ∷ block counting (v4 (base + 4)) 1
        ∷ block counting (v4 (base + 6)) 0
        ∷ [])
unfolding split_ip_range_to_ip_blocks block short equal mask_ip cidr_contains
    network_number_and_mask prefix_bits
split_test = refl

split_ip_range_to_ip_blocks-Splits_example :
    Splits 4 167772161 167772166
      (split_ip_range_to_ip_blocks counting (span (v4 (base + 1)) (v4 (base + 6))))
unfolding short
split_ip_range_to_ip_blocks-Splits_example =
    split_ip_range_to_ip_blocks-Splits counting 4 0 4294967295 counting-Numbers (v4 (base + 1))
      (v4 (base + 6)) refl refl (omega arith) (omega arith) (omega arith)

-- 10.0.0.0/29 with 10.0.0.2 to 10.0.0.5 included and the gateway 10.0.0.3.
abbrev subnet : Cidr
subnet = record { ip = some (v4 base); mask = some (record { size = 4; ones = 29 }) }

abbrev included : List IpRange
included = span (v4 (base + 2)) (v4 (base + 5)) ∷ []

find_test :
    find_subnet_exclude_ip_blocks counting subnet included (some (v4 (base + 3))) []
    ≡ ok (
        block counting (v4 base) 1
        ∷ block counting (v4 (base + 6)) 1
        ∷ block counting (v4 (base + 3)) 0
        ∷ [])
unfolding find_subnet_exclude_ip_blocks block short create_ip_range try_add_ip equal
    split_ip_range_to_ip_blocks mask_ip cidr_contains network_number_and_mask prefix_bits
find_test = refl

find_subnet_exclude_ip_blocks-Answer_example :
    Answer 4 167772160 167772167 included
      (some (v4 (base + 3)) ∷ [])
      (find_subnet_exclude_ip_blocks counting subnet included (some (v4 (base + 3))) [])
unfolding short all_excluded
find_subnet_exclude_ip_blocks-Answer_example =
    find_subnet_exclude_ip_blocks-Answer counting 4 0 4294967295 counting-Numbers (v4 base)
      (v4 (base + 7)) refl refl (omega arith) (omega arith) subnet included (some (v4 (base + 3)))
      [] refl refl
      (cons
        (span-Proper 4 0 4294967295 (v4 (base + 2)) (v4 (base + 5)) refl refl (omega arith)
          (omega arith) (omega arith))
        nil)
      (with_one refl (omega arith) (omega arith) no_more)
