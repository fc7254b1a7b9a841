-- ===== src/Blocks/Subnet.antt =====
-- pkg/daemon/utils/ip_range.go: what the loop over the included ranges returns.
use hybridnet.Base.{
  ℕ, suc, ◌≤◌, ◌<◌, ◌≡◌, ◌∙◌, refl, sym, ap, subst, inl, inr, Bool, true, false, Bool-cases, List,
  [], ◌∷◌, ◌++◌, some, not, ltb, leb, ◌&&◌, ◌||◌, arith,
}
use hybridnet.Blocks.Tally.{head_out, rest_out, only_fill, fill, not_met, beyond_both, not_out}
use hybridnet.Net.{Ip}
use hybridnet.Blocks.{
  RangeLib, IpRange, Result, ok, failed, out_of_cidr, overlapped, ◌>>=◌, addr_num, gaps, gap_end,
  overlaps_next,
}
use hybridnet.Blocks.Family.{size_of, num_of, Numbers}
use hybridnet.Blocks.Cover.{covers, Proper, Every, nil, cons, span, shape, below_test}
use hybridnet.Blocks.Gaps.{within, covers-append, append-Every, round, refuse_out, refuse_met}

-- A range that is not between `first` and `last`.
unfoldable pub any_out : ℕ → ℕ → List IpRange → Bool
any_out first last [] = false
any_out first last (r ∷ rs) =
    (ltb (addr_num r.start) first || ltb last (addr_num r.end)) || any_out first last rs

-- A range that the next one meets.
unfoldable pub any_met : List IpRange → Bool
any_met [] = false
any_met (r ∷ []) = false
any_met (r ∷ q ∷ qs) = not (ltb (addr_num r.end) (addr_num q.start)) || any_met (q ∷ qs)

-- What the loop finds from the range `r` on, which `rs` follow.
abbrev pub Filled : (first last : ℕ) → Bool → IpRange → List IpRange → List IpRange → Type 0
Filled first last is_first r rs gs =
    (n : ℕ)
    → covers gs n ≡ (
        (is_first && (leb first n && ltb n (addr_num r.start)))
        || ((ltb (addr_num r.end) n && leb n last) && not (covers rs n)))

pub data Outcome (size lo hi first last : ℕ) (is_first : Bool) (r : IpRange) (rs : List IpRange)
    : Result (List IpRange) → Type 0 where
  is_out :
      any_out first last (r ∷ rs) ≡ true
      → Outcome size lo hi first last is_first r rs (failed out_of_cidr)
  is_met : any_met (r ∷ rs) ≡ true → Outcome size lo hi first last is_first r rs (failed overlapped)
  found :
      {gs : List IpRange}
      → Every (Proper size lo hi) gs
      → Filled first last is_first r rs gs
      → first ≤ addr_num r.start
      → addr_num r.end ≤ last
      → ((n : ℕ) → n ≤ addr_num r.end → covers rs n ≡ false)
      → Outcome size lo hi first last is_first r rs (ok gs)

module _ (lib : RangeLib) (size lo hi : ℕ) (numbers : Numbers lib size lo hi) (s0 e0 : Ip)
    (s0_size : size_of s0 ≡ size) (e0_size : size_of e0 ≡ size) (s0_low : lo < num_of s0)
    (e0_high : num_of e0 < hi) where
  last_Outcome :
      (is_first : Bool) (f g : Ip)
      → size_of f ≡ size
      → size_of g ≡ size
      → lo < num_of f
      → num_of f ≤ num_of g
      → num_of g < hi
      → Outcome size lo hi
          (num_of s0)
          (num_of e0)
          is_first
          (span f g)
          []
          (gaps lib (some s0) (some e0) is_first (span f g ∷ []))
  unfolding gaps covers any_out overlaps_next gap_end
  last_Outcome is_first f g sf sg low order high =
      elim (Bool-cases (ltb (num_of f) (num_of s0) || ltb (num_of e0) (num_of g))) [
        | inl t ↦
            subst (Outcome size lo hi (num_of s0) (num_of e0) is_first (span f g) [])
              (sym (
                refuse_out lib size lo hi numbers s0 e0 s0_size e0_size s0_low e0_high is_first f g
                  [] sf sg t))
              (is_out (head_out (ltb (num_of f) (num_of s0) || ltb (num_of e0) (num_of g)) false t))
        | inr t ↦
            (let (inside_low, inside_high) =
                not_out (num_of f) (num_of g) (num_of s0) (num_of e0) t in
              let (gs, eq, proper, covered) =
                round lib size lo hi numbers s0 e0 s0_size e0_size s0_low e0_high is_first f g e0 []
                  sf sg low order high inside_low inside_high refl refl e0_size e0_high in
              subst (Outcome size lo hi (num_of s0) (num_of e0) is_first (span f g) []) (sym eq) (
                found (append-Every proper nil)
                  (λ n.
                    covers-append gs [] n
                    ∙ ap (λ b. b || false) (covered n)
                    ∙ only_fill (is_first && (leb (num_of s0) n && ltb n (num_of f))) (num_of g)
                        (num_of e0) n)
                  inside_low inside_high (λ n h. refl)))
      ]

  -- A range that refuses nothing itself, before the others.
  after_rest :
      (is_first : Bool) (f g q_first q_final t : Ip) (qs found_here : List IpRange)
      (rest : Result (List IpRange))
      → suc (num_of t) ≡ num_of q_first
      → num_of g < num_of q_first
      → num_of q_first ≤ num_of q_final
      → num_of s0 ≤ num_of f
      → num_of g ≤ num_of e0
      → Every (Proper size lo hi) found_here
      → ((n : ℕ)
          → covers found_here n ≡ (
              (is_first && (leb (num_of s0) n && ltb n (num_of f)))
              || within (suc (num_of g)) (num_of t) n))
      → Outcome size lo hi (num_of s0) (num_of e0) false (span q_first q_final) qs rest
      → Outcome size lo hi
          (num_of s0)
          (num_of e0)
          is_first
          (span f g)
          (span q_first q_final ∷ qs)
          (rest >>= λ gs. ok (found_here ++ gs))
  unfolding covers any_out any_met
  after_rest is_first f g q_first q_final t qs found_here rest t_num apart q_order inside_low
        inside_high proper covered (is_out h) =
      is_out (
        rest_out (ltb (num_of f) (num_of s0) || ltb (num_of e0) (num_of g))
          (any_out (num_of s0) (num_of e0) (span q_first q_final ∷ qs)) h)
  after_rest is_first f g q_first q_final t qs found_here rest t_num apart q_order inside_low
        inside_high proper covered (is_met h) =
      is_met
        (rest_out (not (ltb (num_of g) (num_of q_first))) (any_met (span q_first q_final ∷ qs)) h)
  after_rest is_first f g q_first q_final t qs found_here rest t_num apart q_order inside_low
        inside_high proper covered (found {gs = gs} others filled low high beyond) =
      found (append-Every proper others)
        (λ n.
          covers-append found_here gs n
          ∙ ap (λ b. b || covers gs n) (covered n)
          ∙ fill (is_first && (leb (num_of s0) n && ltb n (num_of f))) (covers qs n) (covers gs n)
              (num_of g) (num_of q_first) (num_of q_final) (num_of e0) (num_of t) n t_num apart
              q_order high (beyond n) (filled n))
        inside_low inside_high
        (λ n le.
          beyond_both (covers qs n) (num_of g) (num_of q_first) (num_of q_final) n apart q_order
            (beyond n) le)

  more_Outcome :
      (is_first : Bool) (f g q_first q_final : Ip) (qs : List IpRange)
      → size_of f ≡ size
      → size_of g ≡ size
      → lo < num_of f
      → num_of f ≤ num_of g
      → num_of g < hi
      → size_of q_first ≡ size
      → lo < num_of q_first
      → num_of q_first ≤ num_of q_final
      → num_of q_final < hi
      → Outcome size lo hi
          (num_of s0)
          (num_of e0)
          false
          (span q_first q_final)
          qs
          (gaps lib (some s0) (some e0) false (span q_first q_final ∷ qs))
      → Outcome size lo hi
          (num_of s0)
          (num_of e0)
          is_first
          (span f g)
          (span q_first q_final ∷ qs)
          (gaps lib (some s0) (some e0) is_first (span f g ∷ span q_first q_final ∷ qs))
  unfolding any_out any_met overlaps_next gap_end
  more_Outcome is_first f g q_first q_final qs sf sg low order high sq q_low q_order q_high tail =
      let whole =
        Outcome size lo hi (num_of s0) (num_of e0) is_first (span f g)
          (span q_first q_final ∷ qs) in
      let (t, is_prev, st, t_num) =
        numbers.prev q_first sq q_low (omega (arith, q_order, q_high)) in
      let meets : overlaps_next lib (span f g) (span q_first q_final ∷ qs)
          ≡ not (ltb (num_of g) (num_of q_first)) =
        ap not (below_test lib size lo hi numbers g q_first sg sq) in
      elim (Bool-cases (ltb (num_of f) (num_of s0) || ltb (num_of e0) (num_of g))) [
        | inl out ↦
            subst whole
              (sym (
                refuse_out lib size lo hi numbers s0 e0 s0_size e0_size s0_low e0_high is_first f g
                  (span q_first q_final ∷ qs) sf sg out))
              (is_out (
                head_out (ltb (num_of f) (num_of s0) || ltb (num_of e0) (num_of g))
                  (any_out (num_of s0) (num_of e0) (span q_first q_final ∷ qs)) out))
        | inr inside ↦ (elim (Bool-cases (not (ltb (num_of g) (num_of q_first)))) [
          | inl met ↦
              subst whole
                (sym (
                  refuse_met lib size lo hi numbers s0 e0 s0_size e0_size s0_low e0_high is_first f
                    g (span q_first q_final ∷ qs) sf sg inside (meets ∙ met)))
                (is_met (
                  head_out (not (ltb (num_of g) (num_of q_first)))
                    (any_met (span q_first q_final ∷ qs)) met))
          | inr apart ↦
              (let (inside_low, inside_high) =
                  not_out (num_of f) (num_of g) (num_of s0) (num_of e0) inside in
                let (gs, eq, proper, covered) =
                  round lib size lo hi numbers s0 e0 s0_size e0_size s0_low e0_high is_first f g t
                    (span q_first q_final ∷ qs) sf sg low order high inside_low inside_high
                    (meets ∙ apart) is_prev st (omega (arith, t_num, q_order, q_high)) in
                subst whole (sym eq) (
                  after_rest is_first f g q_first q_final t qs gs
                    (gaps lib (some s0) (some e0) false (span q_first q_final ∷ qs)) t_num
                    (not_met (num_of g) (num_of q_first) apart) q_order inside_low inside_high
                    proper covered tail))
        ])
      ]

  -- The loop from a range on.
  pub gaps-Outcome :
      (is_first : Bool) (r : IpRange) (rs : List IpRange)
      → Proper size lo hi r
      → Every (Proper size lo hi) rs
      → Outcome size lo hi
          (num_of s0)
          (num_of e0)
          is_first
          r
          rs
          (gaps lib (some s0) (some e0) is_first (r ∷ rs))
  gaps-Outcome is_first r [] p nil =
      subst
        (λ r.
          Outcome size lo hi (num_of s0) (num_of e0) is_first r []
            (gaps lib (some s0) (some e0) is_first (r ∷ [])))
        (shape r p)
        (last_Outcome is_first p.first p.final p.first_size p.final_size p.low p.order p.high)
  gaps-Outcome is_first r (q ∷ qs) p (cons pq pqs) =
      subst
        (λ r.
          Outcome size lo hi (num_of s0) (num_of e0) is_first r (q ∷ qs)
            (gaps lib (some s0) (some e0) is_first (r ∷ q ∷ qs)))
        (shape r p)
        (subst
          (λ q.
            Outcome size lo hi (num_of s0) (num_of e0) is_first (span p.first p.final) (q ∷ qs)
              (gaps lib (some s0) (some e0) is_first (span p.first p.final ∷ q ∷ qs)))
          (shape q pq)
          (more_Outcome is_first p.first p.final pq.first pq.final qs p.first_size p.final_size
            p.low p.order p.high pq.first_size pq.low pq.order pq.high
            (subst
              (λ q.
                Outcome size lo hi (num_of s0) (num_of e0) false q qs
                  (gaps lib (some s0) (some e0) false (q ∷ qs)))
              (sym (shape q pq)) (gaps-Outcome false q qs pq pqs))))
