-- ===== src/Blocks/Order.antt =====
-- pkg/daemon/utils/ip_range.go: the sort of the included ranges.
use hybridnet.Base.{
  ℕ, ◌+◌, ◌≤◌, ◌≡◌, ◌∙◌, refl, sym, ap, inl, inr, Bool, true, false, Bool-cases, if_rule, List, [],
  ◌∷◌, not, pos, ltb, leb, ltb_ℤ, ◌&&◌, ◌||◌, arith,
}
use hybridnet.Blocks.{RangeLib, IpRange, addr_num, insert_range, sort_ranges}
use hybridnet.Blocks.Family.{Numbers}
use hybridnet.Blocks.Cover.{holds, covers, Proper, Every, nil, cons, below_test}
use hybridnet.Blocks.Split.{one_if}
use hybridnet.Blocks.Subnet.{any_out, any_met}

-- How many ranges hold the number.
unfoldable pub count : List IpRange → ℕ → ℕ
count [] n = 0
count (r ∷ rs) n = one_if (holds r n) + count rs n

-- The starts do not fall, from `m` on.
pub data Ordered : ℕ → List IpRange → Type 0 where
  done : {m : ℕ} → Ordered m []
  next :
      {m : ℕ} {r : IpRange} {rs : List IpRange}
      → m ≤ addr_num r.start
      → Ordered (addr_num r.start) rs
      → Ordered m (r ∷ rs)

pub Proper-ordered :
    {size lo hi : ℕ} (r : IpRange) → Proper size lo hi r → addr_num r.start ≤ addr_num r.end
Proper-ordered r p = rw (p.starts, p.ends) p.order

twice_at :
    (a b c d rest : ℕ)
    → a ≤ c
    → c ≤ d
    → ltb b c ≡ false
    → 2 ≤ one_if (leb a c && leb c b) + (one_if (leb c c && leb c d) + rest)
unfolding one_if
twice_at a b c d rest ac cd bc = ground arith

more : (a b : ℕ) → 2 ≤ b → 2 ≤ a + b
more a b h = omega arith

later : {b c : Bool} → b ≡ true → (not b || c) ≡ true → c ≡ true
later h t = ground (arith, h, t)

swap_or : (a b c : Bool) → b || (a || c) ≡ a || (b || c)
swap_or a b c = ground arith

module _ (lib : RangeLib) where
  covers-insert :
      (r : IpRange) (rs : List IpRange) (n : ℕ)
      → covers (insert_range lib r rs) n ≡ (holds r n || covers rs n)
  unfolding covers insert_range
  covers-insert r [] n = refl
  covers-insert r (q ∷ qs) n =
      if_rule (λ qs'. covers qs' n ≡ (holds r n || (holds q n || covers qs n)))
        {b = ltb_ℤ (lib.address.cmp q.start r.start) (pos 0)} {x = q ∷ insert_range lib r qs}
        {y = r ∷ q ∷ qs}
        (λ _.
          ap (λ b. holds q n || b) (covers-insert r qs n)
          ∙ swap_or (holds r n) (holds q n) (covers qs n))
        (λ _. refl)

  pub covers-sort : (rs : List IpRange) (n : ℕ) → covers (sort_ranges lib rs) n ≡ covers rs n
  unfolding covers sort_ranges
  covers-sort [] n = refl
  covers-sort (r ∷ rs) n =
      covers-insert r (sort_ranges lib rs) n ∙ ap (λ b. holds r n || b) (covers-sort rs n)

  outside : ℕ → ℕ → IpRange → Bool
  outside first last r = ltb (addr_num r.start) first || ltb last (addr_num r.end)

  any_out-insert :
      (first last : ℕ) (r : IpRange) (rs : List IpRange)
      → any_out first last (insert_range lib r rs) ≡ (outside first last r || any_out first last rs)
  unfolding any_out insert_range outside
  any_out-insert first last r [] = refl
  any_out-insert first last r (q ∷ qs) =
      if_rule
        (λ qs'.
          any_out first last qs'
          ≡ (outside first last r || (outside first last q || any_out first last qs)))
        {b = ltb_ℤ (lib.address.cmp q.start r.start) (pos 0)} {x = q ∷ insert_range lib r qs}
        {y = r ∷ q ∷ qs}
        (λ _.
          ap (λ b. outside first last q || b) (any_out-insert first last r qs)
          ∙ swap_or (outside first last r) (outside first last q) (any_out first last qs))
        (λ _. refl)

  pub any_out-sort :
      (first last : ℕ) (rs : List IpRange)
      → any_out first last (sort_ranges lib rs) ≡ any_out first last rs
  unfolding any_out sort_ranges outside
  any_out-sort first last [] = refl
  any_out-sort first last (r ∷ rs) =
      any_out-insert first last r (sort_ranges lib rs)
      ∙ ap (λ b. outside first last r || b) (any_out-sort first last rs)

  count-insert :
      (r : IpRange) (rs : List IpRange) (n : ℕ)
      → count (insert_range lib r rs) n ≡ one_if (holds r n) + count rs n
  unfolding count insert_range
  count-insert r [] n = refl
  count-insert r (q ∷ qs) n =
      if_rule (λ qs'. count qs' n ≡ one_if (holds r n) + (one_if (holds q n) + count qs n))
        {b = ltb_ℤ (lib.address.cmp q.start r.start) (pos 0)} {x = q ∷ insert_range lib r qs}
        {y = r ∷ q ∷ qs} (λ _. omega (arith, count-insert r qs n)) (λ _. refl)

  pub count-sort : (rs : List IpRange) (n : ℕ) → count (sort_ranges lib rs) n ≡ count rs n
  unfolding count sort_ranges
  count-sort [] n = refl
  count-sort (r ∷ rs) n = omega (arith, count-insert r (sort_ranges lib rs) n, count-sort rs n)

  insert-Every :
      {P : IpRange → Type 0} (r : IpRange) (rs : List IpRange)
      → P r
      → Every P rs
      → Every P (insert_range lib r rs)
  unfolding insert_range
  insert-Every r [] p nil = cons p nil
  insert-Every {P} r (q ∷ qs) p (cons pq pqs) =
      if_rule (Every P) {b = ltb_ℤ (lib.address.cmp q.start r.start) (pos 0)}
        {x = q ∷ insert_range lib r qs} {y = r ∷ q ∷ qs} (λ _. cons pq (insert-Every r qs p pqs))
        (λ _. cons p (cons pq pqs))

  pub sort-Every :
      {P : IpRange → Type 0} (rs : List IpRange) → Every P rs → Every P (sort_ranges lib rs)
  unfolding sort_ranges
  sort-Every [] nil = nil
  sort-Every (r ∷ rs) (cons p ps) = insert-Every r (sort_ranges lib rs) p (sort-Every rs ps)

  module _ (size lo hi : ℕ) (numbers : Numbers lib size lo hi) where
    start_test :
        (q r : IpRange)
        → Proper size lo hi q
        → Proper size lo hi r
        → ltb_ℤ (lib.address.cmp q.start r.start) (pos 0)
          ≡ ltb (addr_num q.start) (addr_num r.start)
    start_test q r pq p =
        rw (pq.starts, p.starts)
          (below_test lib size lo hi numbers pq.first p.first pq.first_size p.first_size)

    insert-Ordered :
        (m : ℕ) (r : IpRange) (rs : List IpRange)
        → Proper size lo hi r
        → Every (Proper size lo hi) rs
        → m ≤ addr_num r.start
        → Ordered m rs
        → Ordered m (insert_range lib r rs)
    unfolding insert_range
    insert-Ordered m r [] p nil le done = next le done
    insert-Ordered m r (q ∷ qs) p (cons pq pqs) le (next low rest) =
        if_rule (Ordered m) {b = ltb_ℤ (lib.address.cmp q.start r.start) (pos 0)}
          {x = q ∷ insert_range lib r qs} {y = r ∷ q ∷ qs}
          (λ t.
            let before = sym (start_test q r pq p) ∙ t in
            next low (insert-Ordered (addr_num q.start) r qs p pqs (ground (arith, before)) rest))
          (λ f.
            let after = sym (start_test q r pq p) ∙ f in
            next le (next (ground (arith, after)) rest))

    pub sort-Ordered :
        (rs : List IpRange) → Every (Proper size lo hi) rs → Ordered 0 (sort_ranges lib rs)
    unfolding sort_ranges
    sort-Ordered [] nil = done
    sort-Ordered (r ∷ rs) (cons p ps) =
        insert-Ordered 0 r (sort_ranges lib rs) p (sort-Every rs ps) (omega arith)
          (sort-Ordered rs ps)

    -- Where a range meets the next one, two ranges hold one address.
    pub met_twice :
        (m : ℕ) (rs : List IpRange)
        → Ordered m rs
        → Every (Proper size lo hi) rs
        → any_met rs ≡ true
        → (n : ℕ) × (2 ≤ count rs n)
    unfolding any_met count
    met_twice m [] order proper met = absurd cc
    met_twice m (r ∷ []) order proper met = absurd cc
    met_twice m (r ∷ q ∷ qs) (next low (next le order)) (cons p (cons pq pqs)) met =
        elim (Bool-cases (ltb (addr_num r.end) (addr_num q.start))) [
          | inl apart ↦
              (let (n, two) =
                  met_twice (addr_num r.start) (q ∷ qs) (next le order) (cons pq pqs)
                    (later apart met) in
                (n, more (one_if (holds r n)) (count (q ∷ qs) n) two))
          | inr meet ↦ (
            addr_num q.start,
            twice_at (addr_num r.start) (addr_num r.end) (addr_num q.start) (addr_num q.end)
                (count qs (addr_num q.start)) le (Proper-ordered q pq) meet,
          )
        ]
