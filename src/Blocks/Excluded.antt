-- ===== src/Blocks/Excluded.antt =====
-- pkg/daemon/utils/ip_range.go: what `FindSubnetExcludeIPBlocks` returns.
use hybridnet.Base.{
  ℕ, ◌≤◌, ◌<◌, ◌≡◌, ◌∙◌, refl, sym, ap, subst, inl, inr, Bool, true, false, Bool-cases, if_rule,
  pos, ltb_ℤ, List, [], ◌∷◌, some, not, ltb, leb, ◌&&◌, ◌||◌, arith,
}
use hybridnet.Net.{Ip, NetIp, Cidr}
use hybridnet.Blocks.{
  RangeLib, IpRange, Result, ok, failed, out_of_cidr, overlapped, ◌>>=◌, addr_num, gaps,
  insert_range, sort_ranges, split_all, add_excluded, all_excluded, find_subnet_exclude_ip_blocks,
}
use hybridnet.Blocks.Family.{size_of, num_of, Numbers}
use hybridnet.Blocks.Cover.{covers, Proper, Every, nil, cons}
use hybridnet.Blocks.Split.{holders}
use hybridnet.Blocks.Added.{Known, among, add_excluded_lem, split_all_lem}
use hybridnet.Blocks.Gaps.{within}
use hybridnet.Blocks.Subnet.{any_out, Outcome, is_out, is_met, found, gaps-Outcome}
use hybridnet.Blocks.Order.{
  count, Ordered, covers-sort, any_out-sort, count-sort, sort-Every, sort-Ordered, met_twice,
  Proper-ordered,
}

abbrev pub is_empty : List IpRange → Bool
is_empty [] = true
is_empty (r ∷ rs) = false

-- Where the blocks are to be: outside the included ranges, if there are any, and at the excluded addresses.
unfoldable pub to_exclude : ℕ → ℕ → List IpRange → List NetIp → ℕ → Bool
to_exclude first last included excluded n =
    (not (is_empty included) && (within first last n && not (covers included n)))
    || among excluded n

pub data Answer (size first last : ℕ) (included : List IpRange) (excluded : List NetIp)
    : Result (List Cidr) → Type 0 where
  blocks_of :
      {blocks : List Cidr}
      → ((x : Ip)
          → size_of x ≡ size
          → ltb 0 (holders blocks x) ≡ to_exclude first last included excluded (num_of x))
      → Answer size first last included excluded (ok blocks)
  not_inside :
      any_out first last included ≡ true
      → Answer size first last included excluded (failed out_of_cidr)
  not_apart :
      (n : ℕ) → 2 ≤ count included n → Answer size first last included excluded (failed overlapped)

-- The gaps from the first range on are all that the ranges leave.
whole_fill :
    (c : Bool) (s e f l n : ℕ)
    → f ≤ s
    → s ≤ e
    → e ≤ l
    → (n ≤ e → c ≡ false)
    → ((leb f n && ltb n s) || ((ltb e n && leb n l) && not c))
      ≡ (within f l n && not (within s e n || c))
whole_fill c s e f l n fs se el beyond = elim (Bool-cases (leb n e)) [
  | inl low ↦
      (let none_there = beyond (ground (arith, low)) in
        rw (none_there) (ground (arith, fs, se, el, low)))
  | inr high ↦ ground (arith, fs, se, el, high)
]

insert_not_empty :
    (lib : RangeLib) (r : IpRange) (rs : List IpRange) → is_empty (insert_range lib r rs) ≡ false
unfolding insert_range
insert_not_empty lib r [] = refl
insert_not_empty lib r (q ∷ qs) =
    if_rule (λ qs'. is_empty qs' ≡ false) {b = ltb_ℤ (lib.address.cmp q.start r.start) (pos 0)}
      {x = q ∷ insert_range lib r qs} {y = r ∷ q ∷ qs} (λ _. refl) (λ _. refl)

is_empty-sort : (lib : RangeLib) (rs : List IpRange) → is_empty (sort_ranges lib rs) ≡ is_empty rs
unfolding sort_ranges
is_empty-sort lib [] = refl
is_empty-sort lib (r ∷ rs) = insert_not_empty lib r (sort_ranges lib rs)

module _ (lib : RangeLib) (size lo hi : ℕ) (numbers : Numbers lib size lo hi) (s0 e0 : Ip)
    (s0_size : size_of s0 ≡ size) (e0_size : size_of e0 ≡ size) (s0_low : lo < num_of s0)
    (e0_high : num_of e0 < hi) (included : List IpRange) (excluded : List NetIp)
    (known : Known size lo hi excluded) where
  -- The two loops after the gaps are found.
  finish : List IpRange → Result (List Cidr)
  finish gs = add_excluded lib excluded gs >>= λ all. split_all lib all

  finish_Answer :
      (gs : List IpRange)
      → Every (Proper size lo hi) gs
      → ((n : ℕ)
          → covers gs n ≡ (
              not (is_empty included)
              && (within (num_of s0) (num_of e0) n && not (covers included n))))
      → Answer size (num_of s0) (num_of e0) included excluded (finish gs)
  unfolding finish to_exclude
  finish_Answer gs proper filled =
      let (all, added, all_Proper, all_covers) =
        add_excluded_lem lib size lo hi numbers excluded gs known proper in
      let (blocks, split, held) = split_all_lem lib size lo hi numbers all all_Proper in
      rw (added, split)
        (blocks_of (λ x sx.
          held x sx
          ∙ all_covers (num_of x)
          ∙ ap (λ b. b || among excluded (num_of x)) (filled (num_of x))))

  from_Outcome :
      (r : IpRange) (rs : List IpRange) (res : Result (List IpRange))
      → Proper size lo hi r
      → Every (Proper size lo hi) rs
      → Ordered 0 (r ∷ rs)
      → false ≡ is_empty included
      → ((n : ℕ) → covers (r ∷ rs) n ≡ covers included n)
      → any_out (num_of s0) (num_of e0) (r ∷ rs) ≡ any_out (num_of s0) (num_of e0) included
      → ((n : ℕ) → count (r ∷ rs) n ≡ count included n)
      → Outcome size lo hi (num_of s0) (num_of e0) true r rs res
      → Answer size (num_of s0) (num_of e0) included excluded (res >>= finish)
  unfolding covers
  from_Outcome r rs res p ps order full held outs counts (is_out h) = not_inside (sym outs ∙ h)
  from_Outcome r rs res p ps order full held outs counts (is_met h) =
      let (n, two) = met_twice lib size lo hi numbers 0 (r ∷ rs) order (cons p ps) h in
      not_apart n (subst (λ m. 2 ≤ m) (counts n) two)
  from_Outcome r rs res p ps order full held outs counts
        (found {gs = gs} proper filled low high beyond) =
      finish_Answer gs proper (λ n.
        filled n
        ∙ whole_fill (covers rs n) (addr_num r.start) (addr_num r.end) (num_of s0) (num_of e0) n low
            (Proper-ordered r p) high (beyond n)
        ∙ ap (λ b. within (num_of s0) (num_of e0) n && not b) (held n)
        ∙ ap (λ b. not b && (within (num_of s0) (num_of e0) n && not (covers included n))) full)

  sorted_Answer :
      (rs : List IpRange)
      → Every (Proper size lo hi) rs
      → Ordered 0 rs
      → is_empty rs ≡ is_empty included
      → ((n : ℕ) → covers rs n ≡ covers included n)
      → any_out (num_of s0) (num_of e0) rs ≡ any_out (num_of s0) (num_of e0) included
      → ((n : ℕ) → count rs n ≡ count included n)
      → Answer size
          (num_of s0)
          (num_of e0)
          included
          excluded
          (gaps lib (some s0) (some e0) true rs >>= finish)
  unfolding gaps covers
  sorted_Answer [] nil order empty held outs counts =
      finish_Answer [] nil (λ n.
        ap (λ b. not b && (within (num_of s0) (num_of e0) n && not (covers included n))) empty)
  sorted_Answer (r ∷ rs) (cons p ps) order empty held outs counts =
      from_Outcome r rs (gaps lib (some s0) (some e0) true (r ∷ rs)) p ps order empty held outs
        counts
        (gaps-Outcome lib size lo hi numbers s0 e0 s0_size e0_size s0_low e0_high true r rs p ps)

-- `FindSubnetExcludeIPBlocks`, on a CIDR from `s0` to `e0`, ranges and addresses of one family: it returns
-- blocks that hold an address of the family exactly if the address lies in the CIDR and in none of the
-- included ranges (where there are any), or is an excluded address or the gateway; or it refuses a range
-- outside the CIDR, or two ranges with a common address.
pub find_subnet_exclude_ip_blocks-Answer :
    (lib : RangeLib) (size lo hi : ℕ)
    → Numbers lib size lo hi
    → (s0 e0 : Ip) → size_of s0 ≡ size
    → size_of e0 ≡ size
    → lo < num_of s0
    → num_of e0 < hi
    → (cidr : Cidr) (included : List IpRange) (gateway : NetIp) (excluded : List NetIp)
    → cidr.ip ≡ some s0
    → lib.last_ip cidr ≡ some e0
    → Every (Proper size lo hi) included
    → Known size lo hi (all_excluded gateway excluded)
    → Answer size
        (num_of s0)
        (num_of e0)
        included
        (all_excluded gateway excluded)
        (find_subnet_exclude_ip_blocks lib cidr included gateway excluded)
unfolding find_subnet_exclude_ip_blocks finish
find_subnet_exclude_ip_blocks-Answer lib size lo hi numbers s0 e0 s0_size e0_size s0_low e0_high
      cidr included gateway excluded starts ends proper known =
    rw (ends, starts)
      (sorted_Answer lib size lo hi numbers s0 e0 s0_size e0_size s0_low e0_high included
        (all_excluded gateway excluded) known (sort_ranges lib included)
        (sort-Every lib included proper) (sort-Ordered lib size lo hi numbers included proper)
        (is_empty-sort lib included) (covers-sort lib included)
        (any_out-sort lib (num_of s0) (num_of e0) included) (count-sort lib included))
