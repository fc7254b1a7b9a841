-- ===== src/Ipam/SubnetSlice/Families.antt =====
-- `GetAvailableIPv4Subnet`, `GetAvailableIPv6Subnet` and `GetAvailablePairedDualStackSubnets` of
-- pkg/ipam/types/subnet.go, on a slice whose count and index are in order.
use hybridnet.Base.{
  ℕ, ◌<◌, ◌≡◌, refl, sym, subst, Bool-cases, Option-cases, inl, inr, List, [], ◌∷◌, some, String,
  length, get_elem?, get_elem?-lt, ◌==◌, arith,
}
use hybridnet.Base.Dict.{lookup}
use hybridnet.Base.Outcome.{Outcome}
use hybridnet.Base.Outcome.Ends.{Ends, Ends-bind}
use hybridnet.Ipam.Types.{Subnet, SubnetSlice, Error}
use hybridnet.Ipam.Classify.Groups.{classify-Paired}
use hybridnet.Ipam.SubnetSlice.{
  get_subnet, move_to, choose, choose_pair, get_available_ipv4_subnet, get_available_ipv6_subnet,
  get_available_paired_dual_stack_subnets,
}
use hybridnet.Ipam.SubnetSlice.Available.{IsCounted, at_index}

-- The names of the index are subnets of the slice.
abbrev pub IsIndexed : SubnetSlice → Type 0
IsIndexed s =
    (name : String) (i : ℕ) → lookup name s.subnet_index_map ≡ some i → i < length s.subnets

-- The slice with its cursor in range.
abbrev pub Moved : SubnetSlice → SubnetSlice → Type 0
Moved s u = (j : ℕ) × (u ≡ at_index s j) × (0 < s.subnet_count → j < s.subnet_count)

abbrev pub Has : SubnetSlice → ℕ → Type 0
Has s i = (t : Subnet) × (get_elem? s.subnets i ≡ some t)

abbrev pub HasBoth : SubnetSlice → ℕ × ℕ → Type 0
HasBoth s p = Has s p.0 × Has s p.1

module _ (s : SubnetSlice) (counted : IsCounted s) (indexed : IsIndexed s) where
  pub unmoved : Moved s s
  unmoved = (s.subnet_index, refl, counted.cursor)

  pub named-Moved :
      (name : String) (u : SubnetSlice)
      → Moved s u
      → Ends (Moved s) (λ u i. Moved s u × Has s i) (get_subnet name u)
  unfolding get_subnet
  named-Moved name u (j, e, lt) =
      subst (λ u. Ends (Moved s) (λ u i. Moved s u × Has s i) (get_subnet name u)) (sym e)
        (elim (Option-cases (lookup name s.subnet_index_map)) [
          | inl no_ ↦ rw (get_subnet, no_) (j, refl, lt)
          | inr (i, found) ↦
              let (t, at) = get_elem?-lt s.subnets i (indexed name i found) in
              rw (get_subnet, found, at) ((j, refl, lt), (t, at))
        ])

  move_to-Moved : (name : String) → 0 < s.subnet_count → Moved s (move_to name s)
  unfolding move_to
  move_to-Moved name h = elim (Option-cases (lookup name s.subnet_index_map)) [
    | inl no_ ↦ (0, rw (move_to, no_) refl, λ _. h)
    | inr (i, found) ↦
        (i, rw (move_to, found) refl, λ _. omega (arith, indexed name i found, counted.counted))
  ]

  choose-Moved :
      (xs ys : List String)
      → 0 < s.subnet_count
      → Ends (Moved s) (λ u i. Moved s u × Has s i) (choose xs ys s)
  unfolding choose
  choose-Moved [] [] h = unmoved
  choose-Moved [] (name ∷ ys) h = named-Moved name (move_to name s) (move_to-Moved name h)
  choose-Moved (name ∷ xs) ys h = named-Moved name (move_to name s) (move_to-Moved name h)

  abbrev pub PairEnds : Outcome SubnetSlice Error (ℕ × ℕ) → Type 0
  PairEnds = Ends (Moved s) (λ u p. Moved s u × HasBoth s p)

  choose_pair-Moved :
      (xs ys : List String)
      → 0 < s.subnet_count
      → (length ys ≡ 0 → length xs ≡ 0)
      → PairEnds (choose_pair xs ys s)
  unfolding choose_pair
  choose_pair-Moved [] ys h p = unmoved
  choose_pair-Moved (x ∷ xs) [] h p = absurd (omega (arith, p refl))
  choose_pair-Moved (x ∷ xs) (y ∷ ys) h p =
      Ends-bind (Moved s) (λ u i. Moved s u × Has s i) (λ u p. Moved s u × HasBoth s p)
        (get_subnet x (move_to x s)) _ (named-Moved x (move_to x s) (move_to-Moved x h))
        (λ u i h4.
          Ends-bind (Moved s) (λ u i. Moved s u × Has s i) (λ u p. Moved s u × HasBoth s p)
            (get_subnet y u) _ (named-Moved y u h4.0) (λ w k h6. (h6.0, (h4.1, h6.1))))

  pub ipv4-Moved : Ends (Moved s) (λ u i. Moved s u × Has s i) (get_available_ipv4_subnet s)
  unfolding get_available_ipv4_subnet
  ipv4-Moved = elim (Bool-cases (s.subnet_count == 0)) [
    | inl e ↦ rw (get_available_ipv4_subnet, e) unmoved
    | inr e ↦
        let pos : 0 < s.subnet_count = ground (arith, e) in
        let (c, found, _) = classify-Paired s counted.counted pos in
        rw (get_available_ipv4_subnet, e, found) (choose-Moved c.only_ipv4 c.paired_ipv4 pos)
  ]

  pub ipv6-Moved : Ends (Moved s) (λ u i. Moved s u × Has s i) (get_available_ipv6_subnet s)
  unfolding get_available_ipv6_subnet
  ipv6-Moved = elim (Bool-cases (s.subnet_count == 0)) [
    | inl e ↦ rw (get_available_ipv6_subnet, e) unmoved
    | inr e ↦
        let pos : 0 < s.subnet_count = ground (arith, e) in
        let (c, found, _) = classify-Paired s counted.counted pos in
        rw (get_available_ipv6_subnet, e, found) (choose-Moved c.only_ipv6 c.paired_ipv6 pos)
  ]

  pub pair-Moved : PairEnds (get_available_paired_dual_stack_subnets s)
  unfolding get_available_paired_dual_stack_subnets
  pair-Moved = elim (Bool-cases (s.subnet_count == 0)) [
    | inl e ↦ rw (get_available_paired_dual_stack_subnets, e) unmoved
    | inr e ↦
        let pos : 0 < s.subnet_count = ground (arith, e) in
        let (c, found, both) = classify-Paired s counted.counted pos in
        rw (get_available_paired_dual_stack_subnets, e, found)
          (choose_pair-Moved c.paired_ipv4 c.paired_ipv6 pos both)
  ]
