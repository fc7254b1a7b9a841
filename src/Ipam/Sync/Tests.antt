-- ===== src/Ipam/Sync/Tests.antt =====
-- An instance of the theorem of `Sync`.
use hybridnet.Base.{
  sub_ℕ, eq_iff, ◌∙◌, ℕ, ◌+◌, ◌≤◌, ◌≡◌, refl, ap, true, [], none, contains, arith, pos, ltb_ℤ, ◌↔◌,
  ◌<◌,
}
use hybridnet.Net.{Ip, short, cidr_contains, network_number_and_mask, prefix_bits}
use hybridnet.Ipam.Types.{Subnet}
use hybridnet.Ipam.Subnet.Tests.{toy, toy_text, toy_num, small}
use hybridnet.Ipam.Sync.Scan.{Counts, num_of}
use hybridnet.Ipam.Sync.Establish.{Syncable}

-- The subnet before its sync.
abbrev raw : Subnet
raw = record small {
  net_id = none;
  available_ips = record { ips = []; ip_count = 0; ip_index = pos 0 };
  using_ips = [];
  reserved_ip_count = 0;
}

abbrev at_ten : ℕ → Ip
at_ten n = record { size = 4; num = 0x0a000000 + n }

short_four : (n : ℕ) → short (record { size = 4; num = n }) ≡ record { size = 4; num = n }
unfolding short
short_four n = refl

minus_pos : (m n : ℕ) → (ltb_ℤ (pos 0) (sub_ℕ m n) ≡ true) ↔ (n < m)
minus_pos m n = (λ h. ground arith, λ h. ground arith)

minus_neg : (m n : ℕ) → (ltb_ℤ (sub_ℕ m n) (pos 0) ≡ true) ↔ (m < n)
minus_neg m n = (λ h. ground arith, λ h. ground arith)

-- The texts of three addresses tell them apart.
same_text :
    (m n : ℕ)
    → (0x0a000001 ≤ m) × (m ≤ 0x0a000003)
    → (0x0a000001 ≤ n) × (n ≤ 0x0a000003)
    → toy_text m ≡ toy_text n
    → m ≡ n
same_text m n h k e = ground (
  arith,
  eq_iff "10.0.0.1" "10.0.0.2",
  eq_iff "10.0.0.1" "10.0.0.3",
  eq_iff "10.0.0.2" "10.0.0.3",
)

toy-Counts : Counts toy 4 0x0a000001 0x0a000003
toy-Counts = record {
  steps = λ a f lo hi. (
    record { size = 4; num = num_of a + 1 },
    refl,
    ap (λ (x : Ip). x.size) (short_four (num_of a + 1)),
    ap (λ (x : Ip). x.num) (short_four (num_of a + 1)) ∙ omega arith,
  );
  above = λ a b f g. minus_pos (num_of a) (num_of b);
  below = λ a b f g. minus_neg (num_of a) (num_of b);
  cmp_short = λ a b x e. ap (λ (y : Ip). sub_ℕ y.num (toy_num x)) e;
  text_short = λ a b e. ap (λ (y : Ip). toy_text y.num) e;
  texts = λ a b f g ra rb e. same_text (num_of a) (num_of b) ra rb e;
}

raw-Syncable : Syncable toy raw []
unfolding cidr_contains network_number_and_mask short prefix_bits contains
raw-Syncable = record {
  from = at_ten 1;
  to = at_ten 3;
  starts = refl;
  ends = refl;
  from_inside = refl;
  to_inside = refl;
  ordered = omega arith;
  counts = toy-Counts;
  reserved_distinct = (refl, tt);
  keyed = tt;
}
