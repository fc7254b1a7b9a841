-- ===== src/Blocks/Gaps.antt =====
-- pkg/daemon/utils/ip_range.go: the loop over the included ranges, which finds the gaps between them.
use hybridnet.Base.{
  ℕ, suc, ◌≤◌, ◌<◌, ◌≡◌, ◌∙◌, refl, sym, ap, inl, inr, Bool, true, false, Bool-cases, List, [], ◌∷◌,
  ◌++◌, Option, none, some, ltb, leb, ◌&&◌, ◌||◌, arith,
}
use hybridnet.Net.{Ip}
use hybridnet.Blocks.{
  RangeLib, IpRange, ok, failed, out_of_cidr, overlapped, ◌>>=◌, create_ip_range, gaps, first_gap,
  gap_end, overlaps_next, some_range,
}
use hybridnet.Blocks.Family.{size_of, num_of, Numbers}
use hybridnet.Blocks.Cover.{
  holds, covers, Proper, Every, nil, cons, span, span-Proper, create_proper, above_test, below_test,
}

-- What `start <= n <= end` of two numbers holds.
abbrev pub within : ℕ → ℕ → ℕ → Bool
within s e n = leb s n && leb n e

no_numbers : (s e n : ℕ) → ltb e s ≡ true → false ≡ within s e n
no_numbers s e n h = ground (arith, h)

leb_pred : (n b f : ℕ) → suc b ≡ f → leb n b ≡ ltb n f
leb_pred n b f h = ground (arith, h)

or_false : (b : Bool) → b || false ≡ b
or_false b = ground arith

or_assoc : (a b c : Bool) → (a || b) || c ≡ a || (b || c)
or_assoc a b c = ground arith

pub covers-append :
    (ps qs : List IpRange) (n : ℕ) → covers (ps ++ qs) n ≡ (covers ps n || covers qs n)
unfolding covers
covers-append [] qs n = refl
covers-append (p ∷ ps) qs n =
    ap (λ b. holds p n || b) (covers-append ps qs n)
    ∙ sym (or_assoc (holds p n) (covers ps n) (covers qs n))

pub append-Every :
    {P : IpRange → Type 0} {ps qs : List IpRange} → Every P ps → Every P qs → Every P (ps ++ qs)
append-Every nil h = h
append-Every (cons p ps) h = cons p (append-Every ps h)

module _ (lib : RangeLib) (size lo hi : ℕ) (numbers : Numbers lib size lo hi) where
  -- The range from one address to another, if it is not empty.
  create_some :
      (s e : Ip)
      → size_of s ≡ size
      → size_of e ≡ size
      → lo < num_of s
      → num_of e < hi
      → (o : Option IpRange) × (create_ip_range lib (some s) (some e) ≡ ok o)
        × Every (Proper size lo hi) (some_range o)
        × ((n : ℕ) → covers (some_range o) n ≡ within (num_of s) (num_of e) n)
  unfolding covers
  create_some s e ss se low high = elim (Bool-cases (ltb (num_of e) (num_of s))) [
    | inl t ↦ (
      none,
      create_proper lib size lo hi numbers s e ss se ∙ rw (t) refl,
      nil,
      λ n. no_numbers (num_of s) (num_of e) n t,
    )
    | inr f ↦ (
      some (span s e),
      create_proper lib size lo hi numbers s e ss se ∙ rw (f) refl,
      cons (span-Proper size lo hi s e ss se low (ground arith) high) nil,
      λ n. or_false (within (num_of s) (num_of e) n),
    )
  ]

  module _ (s0 e0 : Ip) (s0_size : size_of s0 ≡ size) (e0_size : size_of e0 ≡ size)
      (s0_low : lo < num_of s0) (e0_high : num_of e0 < hi) where
    first_gap_lem :
        (is_first : Bool) (f g : Ip)
        → size_of f ≡ size
        → lo < num_of f
        → num_of f < hi
        → (o : Option IpRange) × (first_gap lib is_first (some s0) (span f g) ≡ ok o)
          × Every (Proper size lo hi) (some_range o)
          × ((n : ℕ)
              → covers (some_range o) n ≡ (is_first && (leb (num_of s0) n && ltb n (num_of f))))
    unfolding first_gap covers
    first_gap_lem false f g sf low high = (none, refl, nil, λ n. refl)
    first_gap_lem true f g sf low high =
        let (before, is_prev, sb, b_num) = numbers.prev f sf low (omega (arith, high)) in
        let (o, eq, proper, covered) =
          create_some s0 before s0_size sb s0_low (omega (arith, b_num, high)) in
        (
          o,
          rw (is_prev) eq,
          proper,
          λ n.
              covered n
              ∙ ap (λ b. leb (num_of s0) n && b) (leb_pred n (num_of before) (num_of f) b_num),
        )

    round_eq :
        (is_first : Bool) (f g after t : Ip) (rs : List IpRange) (o u : Option IpRange)
        → size_of f ≡ size
        → size_of g ≡ size
        → ltb (num_of f) (num_of s0) ≡ false
        → ltb (num_of e0) (num_of g) ≡ false
        → overlaps_next lib (span f g) rs ≡ false
        → first_gap lib is_first (some s0) (span f g) ≡ ok o
        → lib.address.next_ip (some g) ≡ some after
        → gap_end lib (some e0) rs ≡ some t
        → create_ip_range lib (some after) (some t) ≡ ok u
        → gaps lib (some s0) (some e0) is_first (span f g ∷ rs) ≡ (
            gaps lib (some s0) (some e0) false rs >>= λ gs. ok (some_range o ++ some_range u ++ gs))
    unfolding gaps
    round_eq is_first f g after t rs o u sf sg no_low no_high apart o_eq is_next ends u_eq =
        rw
          (
            below_test lib size lo hi numbers f s0 sf s0_size,
            above_test lib size lo hi numbers g e0 sg e0_size,
            no_low,
            no_high,
            apart,
            o_eq,
            is_next,
            ends,
            u_eq,
          )
          refl

    -- One round of the loop that refuses nothing.
    pub round :
        (is_first : Bool) (f g t : Ip) (rs : List IpRange)
        → size_of f ≡ size
        → size_of g ≡ size
        → lo < num_of f
        → num_of f ≤ num_of g
        → num_of g < hi
        → num_of s0 ≤ num_of f
        → num_of g ≤ num_of e0
        → overlaps_next lib (span f g) rs ≡ false
        → gap_end lib (some e0) rs ≡ some t
        → size_of t ≡ size
        → num_of t < hi
        → (found : List IpRange) × (gaps lib (some s0) (some e0) is_first (span f g ∷ rs)
            ≡ (gaps lib (some s0) (some e0) false rs >>= λ gs. ok (found ++ gs)))
          × Every (Proper size lo hi) found
          × ((n : ℕ)
              → covers found n ≡ (
                  (is_first && (leb (num_of s0) n && ltb n (num_of f)))
                  || within (suc (num_of g)) (num_of t) n))
    round is_first f g t rs sf sg low order high inside_low inside_high apart ends st t_high =
        let (o, o_eq, o_Proper, o_covers) =
          first_gap_lem is_first f g sf low (omega (arith, order, high)) in
        let (after, is_next, sa, a_num) = numbers.next g sg (omega (arith, order, low)) high in
        let (u, u_eq, u_Proper, u_covers) =
          create_some after t sa st (omega (arith, a_num, order, low)) t_high in
        let no_low : ltb (num_of f) (num_of s0) ≡ false = ground arith in
        let no_high : ltb (num_of e0) (num_of g) ≡ false = ground arith in
        (
          some_range o ++ some_range u,
          round_eq is_first f g after t rs o u sf sg no_low no_high apart o_eq is_next ends u_eq,
          append-Every o_Proper u_Proper,
          λ n.
              covers-append (some_range o) (some_range u) n
              ∙ ap (λ b. b || covers (some_range u) n) (o_covers n)
              ∙ ap (λ b. (is_first && (leb (num_of s0) n && ltb n (num_of f))) || b)
                  (u_covers n ∙ ap (λ m. within m (num_of t) n) a_num),
        )

    pub refuse_out :
        (is_first : Bool) (f g : Ip) (rs : List IpRange)
        → size_of f ≡ size
        → size_of g ≡ size
        → (ltb (num_of f) (num_of s0) || ltb (num_of e0) (num_of g)) ≡ true
        → gaps lib (some s0) (some e0) is_first (span f g ∷ rs) ≡ failed out_of_cidr
    unfolding gaps
    refuse_out is_first f g rs sf sg t =
        rw
          (
            below_test lib size lo hi numbers f s0 sf s0_size,
            above_test lib size lo hi numbers g e0 sg e0_size,
            t,
          )
          refl

    pub refuse_met :
        (is_first : Bool) (f g : Ip) (rs : List IpRange)
        → size_of f ≡ size
        → size_of g ≡ size
        → (ltb (num_of f) (num_of s0) || ltb (num_of e0) (num_of g)) ≡ false
        → overlaps_next lib (span f g) rs ≡ true
        → gaps lib (some s0) (some e0) is_first (span f g ∷ rs) ≡ failed overlapped
    unfolding gaps
    refuse_met is_first f g rs sf sg t h =
        rw
          (
            below_test lib size lo hi numbers f s0 sf s0_size,
            above_test lib size lo hi numbers g e0 sg e0_size,
            t,
            h,
          )
          refl
