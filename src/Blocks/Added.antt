-- ===== src/Blocks/Added.antt =====
-- pkg/daemon/utils/ip_range.go: the loop over the excluded addresses, and the split of all ranges.
use hybridnet.Base.{
  ℕ, ◌+◌, ◌<◌, ◌≡◌, ◌∙◌, refl, sym, ap, subst, inl, inr, Bool, false, Bool-cases, Option-cases,
  List, [], ◌∷◌, ◌++◌, Option, none, some, ltb, leb, ◌==◌, ◌&&◌, ◌||◌, arith,
}
use hybridnet.Net.{Ip, NetIp, Cidr}
use hybridnet.Blocks.{
  RangeLib, IpRange, ok, create_ip_range, try_add_ip, try_ranges, add_excluded, single, split_all,
  split_ip_range_to_ip_blocks,
}
use hybridnet.Blocks.Family.{size_of, num_of, Numbers}
use hybridnet.Blocks.Cover.{
  holds, covers, Proper, Every, nil, cons, span, span-Proper, shape, create_proper,
  try_add_ip-Tried,
}
use hybridnet.Blocks.Split.{Exact, holders, one_if, split_blocks}

-- The addresses of one family that lie between `lo` and `hi`.
pub data Known (size lo hi : ℕ) : List NetIp → Type 0 where
  no_more : Known size lo hi []
  with_one :
      {x : Ip} {xs : List NetIp}
      → size_of x ≡ size
      → lo < num_of x
      → num_of x < hi
      → Known size lo hi xs
      → Known size lo hi (some x ∷ xs)

-- One of the addresses has the number.
unfoldable pub among : List NetIp → ℕ → Bool
among [] n = false
among (none ∷ xs) n = among xs n
among (some x ∷ xs) n = n == num_of x || among xs n

or_last : (a b c : Bool) → (a || c) || b ≡ (a || b) || c
or_last a b c = ground arith

or_assoc : (a b c : Bool) → a || (b || c) ≡ (a || b) || c
or_assoc a b c = ground arith

module _ (lib : RangeLib) (size lo hi : ℕ) (numbers : Numbers lib size lo hi) where
  -- What `try_ranges` leaves.
  Extended : ℕ → List IpRange → Option (List IpRange) → Type 0
  Extended m rs none = ℕ
  Extended m rs (some qs) =
      Every (Proper size lo hi) qs × ((n : ℕ) → covers qs n ≡ (covers rs n || n == m))

  carry :
      (m : ℕ) (r : IpRange) (rs : List IpRange)
      → Proper size lo hi r
      → (o : Option (List IpRange)) → Extended m rs o
      → Extended m (r ∷ rs) (elim o [ none ↦ none | some qs ↦ some (r ∷ qs) ])
  unfolding Extended covers
  carry m r rs p none h = h
  carry m r rs p (some qs) (proper, h) = (
    cons p proper,
    λ n. ap (λ b. holds r n || b) (h n) ∙ or_assoc (holds r n) (covers rs n) (n == m),
  )

  try_ranges-Extended :
      (rs : List IpRange) (x : Ip)
      → Every (Proper size lo hi) rs
      → size_of x ≡ size
      → lo < num_of x
      → num_of x < hi
      → Extended (num_of x) rs (try_ranges lib (some x) rs)
  unfolding try_ranges Extended covers
  try_ranges-Extended [] x nil sx low high = 0
  try_ranges-Extended (r ∷ rs) x (cons p ps) sx low high =
      let (q_Proper, added) = try_add_ip-Tried lib size lo hi numbers r x p sx low high in
      let rest = try_ranges-Extended rs x ps sx low high in
      elim (Bool-cases (try_add_ip lib (some x) r).1) [
        | inl t ↦ rw (t) (
          cons q_Proper ps,
          λ n.
              ap (λ b. b || covers rs n) (added t n)
              ∙ or_last (holds r n) (covers rs n) (n == num_of x),
        )
        | inr f ↦ rw (f) (carry (num_of x) r rs p (try_ranges lib (some x) rs) rest)
      ]

  append-Proper :
      (rs : List IpRange) (r : IpRange)
      → Every (Proper size lo hi) rs
      → Proper size lo hi r
      → Every (Proper size lo hi) (rs ++ r ∷ [])
  append-Proper [] r nil p = cons p nil
  append-Proper (q ∷ qs) r (cons p ps) h = cons p (append-Proper qs r ps h)

  covers_last :
      (rs : List IpRange) (r : IpRange) (n : ℕ)
      → covers (rs ++ r ∷ []) n ≡ (covers rs n || holds r n)
  unfolding covers
  covers_last [] r n = ground arith
  covers_last (q ∷ qs) r n =
      ap (λ b. holds q n || b) (covers_last qs r n) ∙ or_assoc (holds q n) (covers qs n) (holds r n)

  create_single :
      (x : Ip) → size_of x ≡ size → create_ip_range lib (some x) (some x) ≡ ok (some (span x x))
  create_single x sx =
      let same : ltb (num_of x) (num_of x) ≡ false = ground arith in
      create_proper lib size lo hi numbers x x sx sx ∙ rw (same) refl

  single_eq : (n m : ℕ) → (leb m n && leb n m) ≡ (n == m)
  single_eq n m = ground arith

  -- Every excluded address becomes part of a range, and nothing else does.
  pub add_excluded_lem :
      (xs : List NetIp) (rs : List IpRange)
      → Known size lo hi xs
      → Every (Proper size lo hi) rs
      → (qs : List IpRange) × (add_excluded lib xs rs ≡ ok qs)
        × Every (Proper size lo hi) qs
        × ((n : ℕ) → covers qs n ≡ (covers rs n || among xs n))
  unfolding add_excluded among Extended
  add_excluded_lem [] rs no_more proper = (rs, refl, proper, λ n. ground arith)
  add_excluded_lem (none ∷ xs) rs known proper = elim known [ ]
  add_excluded_lem (some x ∷ xs) rs (with_one sx low high known) proper =
      elim (Option-cases (try_ranges lib (some x) rs)) [
        | inl e ↦
            (let (qs, eq, q_Proper, all) = add_excluded_lem xs (rs ++ span x x ∷ []) known (
                append-Proper rs (span x x) proper
                  (span-Proper size lo hi x x sx sx low (omega arith) high)) in
              (
                qs,
                rw (add_excluded, e, create_single x sx, single) eq,
                q_Proper,
                λ n.
                    all n
                    ∙ ap (λ b. b || among xs n)
                        (covers_last rs (span x x) n
                          ∙ ap (λ b. covers rs n || b) (single_eq n (num_of x)))
                    ∙ sym (or_assoc (covers rs n) (n == num_of x) (among xs n)),
              ))
        | inr (qs, e) ↦
            (let (q_Proper, more) =
                subst (Extended (num_of x) rs) e (try_ranges-Extended rs x proper sx low high) in
              let (fs, eq, f_Proper, all) = add_excluded_lem xs qs known q_Proper in
              (
                fs,
                rw (add_excluded, e) eq,
                f_Proper,
                λ n.
                    all n
                    ∙ ap (λ b. b || among xs n) (more n)
                    ∙ sym (or_assoc (covers rs n) (n == num_of x) (among xs n)),
              ))
      ]

  holders-append : (bs cs : List Cidr) (x : Ip) → holders (bs ++ cs) x ≡ holders bs x + holders cs x
  unfolding holders
  holders-append [] cs x = omega arith
  holders-append (b ∷ bs) cs x = omega (arith, holders-append bs cs x)

  positive : (m n : ℕ) (b : Bool) → m ≡ one_if b → ltb 0 (m + n) ≡ (b || ltb 0 n)
  unfolding one_if
  positive m n b h = ground (arith, h)

  -- The blocks of the ranges hold an address exactly where a range does.
  pub split_all_lem :
      (rs : List IpRange)
      → Every (Proper size lo hi) rs
      → (blocks : List Cidr) × (split_all lib rs ≡ ok blocks)
        × ((x : Ip) → size_of x ≡ size → ltb 0 (holders blocks x) ≡ covers rs (num_of x))
  unfolding split_all holders covers Exact
  split_all_lem [] nil = ([], refl, λ x sx. refl)
  split_all_lem (r ∷ rs) (cons p ps) =
      let (bs, split, exact) =
        split_blocks lib size lo hi numbers p.first p.final p.first_size p.final_size
          (omega (arith, p.low)) p.order (omega (arith, p.high)) in
      let split_r = subst (λ q. split_ip_range_to_ip_blocks lib q ≡ ok bs) (shape r p) split in
      let (cs, others, covered) = split_all_lem rs ps in
      (
        bs ++ cs,
        rw (split_r, others) refl,
        λ x sx.
            ap (ltb 0) (holders-append bs cs x)
            ∙ positive (holders bs x) (holders cs x) (holds (span p.first p.final) (num_of x))
                (exact x sx)
            ∙ ap (λ b. holds (span p.first p.final) (num_of x) || b) (covered x sx)
            ∙ ap (λ q. holds q (num_of x) || covers rs (num_of x)) (shape r p),
      )
