-- ===== src/Ipam/SubnetSlice/Available.antt =====
-- `GetAvailableSubnet` of pkg/ipam/types/subnet.go: the search round the subnets.
use native.Mathlib.Nat.{mod-lt, mod-add-mod, add-mod-mod, add-mod_right, mod-eq_of_lt}
use native.Mathlib.Decide.{dec_lt}
use hybridnet.Base.{
  ℕ, zero, suc, ◌+◌, ◌-◌, ◌%◌, ◌<◌, ◌≡◌, ◌≢◌, ◌∙◌, refl, ap, sym, subst, ◌⊎◌, inl, inr, true, false,
  some, length, get_elem?, get_elem?-lt, Bool-cases, arith,
}
use hybridnet.Base.Outcome.{Outcome, ok, err}
use hybridnet.Ipam.Types.{Subnet, SubnetSlice, Error, no_available_subnet}
use hybridnet.Ipam.Subnet
use hybridnet.Ipam.SubnetSlice.{find_available, get_available_subnet}

-- The count is the length, and the cursor is at a subnet if there is one.
pub record IsCounted (s : SubnetSlice) : Type 0 where
  pub counted : s.subnet_count ≡ length s.subnets
  pub cursor : 0 < s.subnet_count → s.subnet_index < s.subnet_count

abbrev pub at_index : SubnetSlice → ℕ → SubnetSlice
at_index s i = record s { subnet_index = i }

-- No subnet at that place is available.
abbrev Unavailable : SubnetSlice → ℕ → Type 0
Unavailable s i = (t : Subnet) → get_elem? s.subnets i ≡ some t → Subnet.is_available t ≡ false

round_back : (last d n : ℕ) → last < n → 0 < d → d < n → (last + d) % n ≢ last
round_back last d n a b c = grind arith

suc-mod : (k n : ℕ) → (k % n + 1) % n ≡ (k + 1) % n
suc-mod k n = mod-add-mod k n 1

-- What the search comes to: an available subnet, with the cursor at it; or the error, with the
-- cursor where it was, where no subnet is available.
abbrev pub SearchAs : SubnetSlice → ℕ → Outcome SubnetSlice Error ℕ → Type 0
SearchAs s last o =
    ((i : ℕ) × (t : Subnet) × (i < s.subnet_count)
      × (get_elem? s.subnets i ≡ some t)
      × (Subnet.is_available t ≡ true)
      × (o ≡ ok (at_index s i) i))
    ⊎ (((i : ℕ) → i < s.subnet_count → Unavailable s i)
        × (o ≡ err (at_index s last) no_available_subnet))

module _ (s : SubnetSlice) (v : IsCounted s) (last : ℕ) (a : last < s.subnet_count) where
  abbrev n : ℕ
  n = s.subnet_count

  -- Once every place that a full round meets is known, every place is.
  all_met : ((d : ℕ) → d < n → Unavailable s ((last + d) % n)) → (i : ℕ) → i < n → Unavailable s i
  all_met all i h =
      let d = (i + (n - last)) % n in
      let e : (last + d) % n ≡ i =
        add-mod-mod last (i + (n - last)) n
        ∙ ap (λ (x : ℕ). x % n) (omega arith)
        ∙ add-mod_right i n
        ∙ mod-eq_of_lt h in
      subst (Unavailable s) e (all d (mod-lt (i + (n - last)) (omega arith)))

  below_suc :
      (d : ℕ)
      → ((k : ℕ) → k < d → Unavailable s ((last + k) % n))
      → Unavailable s ((last + d) % n)
      → (k : ℕ) → k < suc d
      → Unavailable s ((last + k) % n)
  below_suc d before here k h = elim (dec_lt k d) [
    | yes lt ↦ before k lt
    | no ge ↦ let e : d ≡ k = omega arith in subst (λ x. Unavailable s ((last + x) % n)) e here
  ]

  module _ (fuel i i' : ℕ) (t : Subnet) (at : get_elem? s.subnets i ≡ some t)
      (e : (i + 1) % n ≡ i') where
    step_found :
        Subnet.is_available t ≡ true
        → find_available (suc fuel) last (at_index s i) ≡ ok (at_index s i) i
    unfolding find_available
    step_found free = ground arith

    step_more :
        Subnet.is_available t ≡ false
        → i' ≢ last
        → find_available (suc fuel) last (at_index s i) ≡ find_available fuel last (at_index s i')
    unfolding find_available
    step_more full ne = rw (at, find_available, full, e) (ground arith)

    step_end :
        Subnet.is_available t ≡ false
        → i' ≡ last
        → find_available (suc fuel) last (at_index s i) ≡ err (at_index s last) no_available_subnet
    unfolding find_available
    step_end full back = rw (at, find_available, full, e, back) (ground arith)

  same-Unavailable :
      (i : ℕ) (t : Subnet)
      → get_elem? s.subnets i ≡ some t
      → Subnet.is_available t ≡ false
      → Unavailable s i
  same-Unavailable i t at full t' at' =
      let q : t ≡ t' = cc in subst (λ x. Subnet.is_available x ≡ false) q full

  search_from :
      (fuel d : ℕ)
      → fuel + d ≡ n
      → 0 < fuel
      → ((k : ℕ) → k < d → Unavailable s ((last + k) % n))
      → SearchAs s last (find_available fuel last (at_index s ((last + d) % n)))
  search_from zero d e p before = elim p [ ]
  search_from (suc fuel) d e p before =
      let i : ℕ = (last + d) % n in
      let below : i < n = mod-lt (last + d) (omega arith) in
      let (t, at) = get_elem?-lt s.subnets i (omega (arith, v.counted)) in
      let next : (i + 1) % n ≡ (last + suc d) % n =
        suc-mod (last + d) n ∙ ap (λ (x : ℕ). x % n) (omega arith) in
      elim (Bool-cases (Subnet.is_available t)) [
        | inl yes_ ↦ inl (i, t, below, at, yes_, step_found fuel i _ t at refl yes_)
        | inr no_ ↦
            let here : Unavailable s i = same-Unavailable i t at no_ in
            elim (dec_lt 0 fuel) [
              | yes more ↦
                  subst (λ o. SearchAs s last o)
                    (sym (
                      step_more fuel i _ t at next no_
                        (round_back last (suc d) n a (omega arith) (omega arith))))
                    (search_from fuel (suc d) (omega arith) more (below_suc d before here))
              | no done ↦ inr (
                all_met (λ k h. below_suc d before here k (omega arith)),
                step_end fuel i _ t at next no_ (
                    ap (λ (x : ℕ). (last + x) % n) (omega arith)
                    ∙ add-mod_right last n
                    ∙ mod-eq_of_lt a),
              )
            ]
      ]

-- On a slice whose count and cursor are in order `GetAvailableSubnet` ends and does not panic: it gives
-- an available subnet and puts the cursor at it, or fails with the cursor where it was, and then no
-- subnet of the slice is available.
pub get_available_subnet-SearchAs :
    (s : SubnetSlice) → IsCounted s → SearchAs s s.subnet_index (get_available_subnet s)
unfolding get_available_subnet
get_available_subnet-SearchAs s v = elim (dec_lt 0 s.subnet_count) [
  | yes p ↦
      let a = v.cursor p in
      let e : (s.subnet_index + 0) % s.subnet_count ≡ s.subnet_index =
        ap (λ (x : ℕ). x % s.subnet_count) (omega arith) ∙ mod-eq_of_lt a in
      let run : get_available_subnet s ≡ find_available s.subnet_count s.subnet_index s =
        ground arith in
      rw run (
        subst
          (λ i.
            SearchAs s s.subnet_index (find_available s.subnet_count s.subnet_index (at_index s i)))
          e (search_from s v s.subnet_index a s.subnet_count 0 (omega arith) p (λ k h. elim h [ ])))
  | no z ↦ inr (λ i h. absurd (omega arith), ground arith)
]
