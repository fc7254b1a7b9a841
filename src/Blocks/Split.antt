-- ===== src/Blocks/Split.antt =====
-- pkg/daemon/utils/ip_range.go: how `splitIPRangeToIPBlocks` covers a range with blocks.
use hybridnet.Base.{
  ℕ, zero, suc, ◌+◌, ◌-◌, ◌*◌, ◌/◌, ◌^◌, ◌≤◌, ◌<◌, ◌≡◌, ◌≢◌, ◌⊎◌, ◌∙◌, refl, sym, ap, subst, inl,
  inr, Bool, true, if_rule, false, List, [], ◌∷◌, none, some, ltb, leb, ◌&&◌, if◌then◌else◌, arith,
}
use hybridnet.Net.{Ip, NetIp, Cidr, short, equal, cidr_contains, mask_ip, short_same}
use hybridnet.Blocks.{
  RangeLib, Result, ok, crashed, block, bits_of, zero_bits_from, calculate_ip_last_zero_bits,
  shrink, find_the_first_largest_cidr, split_rounds, split_ip_range_to_ip_blocks,
}
use hybridnet.Blocks.Align.{Aligned, power_pos, same_block, halve}
use hybridnet.Blocks.Family.{size_of, num_of, Numbers, block_contains, equal_iff}

masked :
    (s : Ip) (ones : ℕ)
    → mask_ip s (record { size = s.size; ones = ones })
      ≡ some (record {
        size = s.size;
        num = s.num / 2 ^ (8 * s.size - ones) * 2 ^ (8 * s.size - ones);
      })
unfolding mask_ip
masked s ones = ground arith

masked_equal :
    (s : Ip) (ones host : ℕ) (a : Ip)
    → s.size ≡ size_of a
    → s.num ≡ num_of a
    → 8 * s.size - ones ≡ host
    → equal (mask_ip s (record { size = s.size; ones = ones })) (some a) ≡ true
    → num_of a / 2 ^ host * 2 ^ host ≡ num_of a
masked_equal s ones host a k n h t =
    let low = s.num / 2 ^ (8 * s.size - ones) * 2 ^ (8 * s.size - ones) in
    let m : Ip = record { size = s.size; num = low } in
    let same = (equal_iff m a).0 (subst (λ p. equal p (some a) ≡ true) (masked s ones) t) in
    let whole : num_of m ≡ low = ap (λ x. x.num) (short_same m (same.0 ∙ sym k)) in
    let exact : low ≡ num_of a = sym whole ∙ same.1 in
    subst (λ p. num_of a / 2 ^ p * 2 ^ p ≡ num_of a) h
      (subst (λ p. p / 2 ^ (8 * s.size - ones) * 2 ^ (8 * s.size - ones) ≡ num_of a) n exact)

zero_bits_from-Aligned :
    (lib : RangeLib) (rounds ones : ℕ) (a : Ip)
    → rounds + ones ≡ bits_of a
    → (zero_bits_from lib rounds ones a ≤ rounds)
      × Aligned (zero_bits_from lib rounds ones a) (num_of a)
unfolding zero_bits_from
zero_bits_from-Aligned lib zero ones a h = (omega arith, omega arith)
zero_bits_from-Aligned lib (suc rounds) ones a h =
    let rest = zero_bits_from-Aligned lib rounds (suc ones) a (omega arith) in
    if_rule (λ k. (k ≤ suc rounds) × Aligned k (num_of a))
      (λ t. (omega arith, masked_equal (short a) ones (suc rounds) a refl refl (omega arith) t))
      (λ f. (omega (arith, rest.0), rest.1))

inside : (a e h : ℕ) → (leb a e && ltb e (a + h)) ≡ true → e < a + h
inside a e h t = ground arith

outside : (a e h : ℕ) → a ≤ e → (leb a e && ltb e (a + h)) ≡ false → a + h ≤ e
outside a e h le t = ground arith

clash : {b : Bool} → b ≡ true → b ≡ false → ⊥
clash t f = cc

module _ (lib : RangeLib) (size lo hi : ℕ) (numbers : Numbers lib size lo hi) (a e : Ip)
    (a_size : size_of a ≡ size) (e_size : size_of e ≡ size) (low : lo ≤ num_of a)
    (order : num_of a ≤ num_of e) (high : num_of e ≤ hi) where
  -- What follows a block of `host` host bits.
  abbrev pub Follows : ℕ → NetIp → Type 0
  Follows host after =
      ((after ≡ none) × (num_of a + 2 ^ host ≡ suc (num_of e)))
      ⊎ ((b : Ip) × (after ≡ some b)
          × (size_of b ≡ size)
          × (num_of b ≡ num_of a + 2 ^ host)
          × (num_of b ≤ num_of e))

  abbrev pub Found : Result (Cidr × NetIp) → Type 0
  Found r =
      (host : ℕ) × (after : NetIp) × (r ≡ ok (block lib a host, after))
      × (host ≤ 8 * size)
      × Aligned host (num_of a)
      × Follows host after

  one_size :
      (host : ℕ)
      → host ≤ 8 * size
      → Aligned host (num_of a)
      → (smaller : Result (Cidr × NetIp))
      → (num_of e < num_of a + 2 ^ host → num_of a + 2 ^ host ≢ suc (num_of e) → Found smaller)
      → Found (
          if equal (lib.last_ip (block lib a host)) (some e)
          then ok (block lib a host, none)
          else if cidr_contains (block lib a host) (some e)
          then smaller
          else ok (block lib a host, lib.address.next_ip (lib.last_ip (block lib a host))))
  one_size host le al smaller rest =
      let (l, is_last, l_size, l_num) = numbers.last a host a_size le in
      let l_end : num_of a + 2 ^ host ≡ suc (num_of l) = omega (arith, l_num, al, power_pos host) in
      let eq = equal_iff l e in
      let same = same_block host (num_of a) (num_of e) al in
      let in_block = block_contains lib size numbers.known_size a e host a_size e_size le in
      rw (is_last) (
        if_rule Found (λ t. (host, none, refl, le, al, inl (refl, l_end ∙ ap suc (eq.0 t).1)))
          (λ f.
            if_rule Found
              (λ t.
                rest (inside (num_of a) (num_of e) (2 ^ host) (sym same ∙ sym in_block ∙ t))
                  (λ h. let t = eq.1 (l_size ∙ sym e_size, omega (arith, h, l_end)) in clash t f))
              (λ g.
                let above =
                  outside (num_of a) (num_of e) (2 ^ host) order (sym same ∙ sym in_block ∙ g) in
                let (b, is_next, b_size, b_num) =
                  numbers.next l l_size (omega (arith, l_end, low, power_pos host))
                    (omega (arith, l_end, above, high)) in
                (
                  host,
                  some b,
                  rw (is_next) refl,
                  le,
                  al,
                  inr (
                    b,
                    refl,
                    b_size,
                    omega (arith, b_num, l_end),
                    omega (arith, b_num, l_end, above),
                  ),
                ))))

  shrink-Found :
      (host : ℕ) → host ≤ 8 * size → Aligned host (num_of a) → Found (shrink lib host a (some e))
  unfolding shrink
  shrink-Found zero le al =
      one_size zero le al crashed (λ lt ne. absurd (ne (omega (arith, lt, order))))
  shrink-Found (suc host) le al =
      one_size (suc host) le al (shrink lib host a (some e))
        (λ _ _. shrink-Found host (omega arith) (halve host (num_of a) al))

  pub find_the_first_largest_cidr-Found : Found (find_the_first_largest_cidr lib a (some e))
  unfolding find_the_first_largest_cidr calculate_ip_last_zero_bits
  find_the_first_largest_cidr-Found =
      let (le, al) = zero_bits_from-Aligned lib (bits_of a) 0 a (omega arith) in
      shrink-Found (calculate_ip_last_zero_bits lib a) (omega (arith, le, a_size)) al

unfoldable pub one_if : Bool → ℕ
one_if b = if b then 1 else 0

-- How many of the blocks hold an address.
unfoldable pub holders : List Cidr → Ip → ℕ
holders [] x = 0
holders (b ∷ bs) x = one_if (cidr_contains b (some x)) + holders bs x

-- The blocks hold every address of the family from `first` to `last` once, and no other.
unfoldable pub Exact : (size first last : ℕ) → List Cidr → Type 0
Exact size first last blocks =
    (x : Ip)
    → size_of x ≡ size
    → holders blocks x ≡ one_if (leb first (num_of x) && leb (num_of x) last)

split_at :
    (first next last x : ℕ)
    → first < next
    → next ≤ last
    → one_if (leb first x && ltb x next) + one_if (leb next x && leb x last)
      ≡ one_if (leb first x && leb x last)
unfolding one_if
split_at first next last x lo hi = ground arith

whole_of :
    (first next last x : ℕ)
    → next ≡ suc last
    → one_if (leb first x && ltb x next) + 0 ≡ one_if (leb first x && leb x last)
unfolding one_if
whole_of first next last x e = ground arith

rounds_Exact :
    (lib : RangeLib) (size lo hi : ℕ)
    → Numbers lib size lo hi
    → (fuel : ℕ) (a e : Ip) → size_of a ≡ size
    → size_of e ≡ size
    → lo ≤ num_of a
    → num_of a ≤ num_of e
    → num_of e ≤ hi
    → num_of e < num_of a + fuel
    → (blocks : List Cidr) × (split_rounds lib fuel (some a) (some e) ≡ ok blocks)
      × Exact size (num_of a) (num_of e) blocks
unfolding split_rounds Exact holders
rounds_Exact lib size lo hi numbers zero a e sa se low order high enough = absurd (omega arith)
rounds_Exact lib size lo hi numbers (suc fuel) a e sa se low order high enough =
    let (host, after, found, le, al, follows) =
      find_the_first_largest_cidr-Found lib size lo hi numbers a e sa se low order high in
    let held : (x : Ip)
        → size_of x ≡ size
        → cidr_contains (block lib a host) (some x)
          ≡ (leb (num_of a) (num_of x) && ltb (num_of x) (num_of a + 2 ^ host)) =
      λ x sx.
        block_contains lib size numbers.known_size a x host sa sx le
        ∙ same_block host (num_of a) (num_of x) al in
    elim follows [
      | inl (ends, last) ↦ (
        block lib a host ∷ [],
        rw (found, ends) refl,
        λ x sx.
            ap (λ b. one_if b + 0) (held x sx)
            ∙ whole_of (num_of a) (num_of a + 2 ^ host) (num_of e) (num_of x) last,
      )
      | inr (b, starts, sb, b_num, below) ↦
          (let (blocks, eq, exact) =
              rounds_Exact lib size lo hi numbers fuel b e sb se (omega (arith, low, b_num)) below
                high (omega (arith, enough, b_num, power_pos host)) in
            (
              block lib a host ∷ blocks,
              rw (found, starts, eq) refl,
              λ x sx.
                  rw (held x sx, exact x sx, sym b_num)
                    (split_at (num_of a) (num_of b) (num_of e) (num_of x)
                      (omega (arith, b_num, power_pos host)) below),
            ))
    ]

pub split_blocks :
    (lib : RangeLib) (size lo hi : ℕ)
    → Numbers lib size lo hi
    → (a e : Ip) → size_of a ≡ size
    → size_of e ≡ size
    → lo ≤ num_of a
    → num_of a ≤ num_of e
    → num_of e ≤ hi
    → (blocks : List Cidr) × (split_ip_range_to_ip_blocks lib
          (record { start = some a; end = some e })
        ≡ ok blocks)
      × Exact size (num_of a) (num_of e) blocks
unfolding split_ip_range_to_ip_blocks
split_blocks lib size lo hi numbers a e sa se low order high =
    rounds_Exact lib size lo hi numbers (num_of e + 1 - num_of a) a e sa se low order high
      (omega arith)

pub data Splits (size first last : ℕ) : Result (List Cidr) → Type 0 where
  into_blocks :
      {blocks : List Cidr} → Exact size first last blocks → Splits size first last (ok blocks)

-- `splitIPRangeToIPBlocks` ends on every range of addresses of one family whose start is not above its
-- end; exactly one of its blocks holds each address of the range, and none any other of the family.
pub split_ip_range_to_ip_blocks-Splits :
    (lib : RangeLib) (size lo hi : ℕ)
    → Numbers lib size lo hi
    → (a e : Ip) → size_of a ≡ size
    → size_of e ≡ size
    → lo ≤ num_of a
    → num_of a ≤ num_of e
    → num_of e ≤ hi
    → Splits size
        (num_of a)
        (num_of e)
        (split_ip_range_to_ip_blocks lib (record { start = some a; end = some e }))
split_ip_range_to_ip_blocks-Splits lib size lo hi numbers a e sa se low order high =
    let (blocks, eq, exact) = split_blocks lib size lo hi numbers a e sa se low order high in
    rw (eq) (into_blocks exact)
