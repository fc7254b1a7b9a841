-- ===== src/Ipam/Network/Ready.antt =====
-- A network whose subnets are synced and whose index is in order, and how its methods keep it so
-- (pkg/ipam/types/network.go).
use native.Mathlib.Decide.{ℕ_discrete}
use hybridnet.Base.{
  ℕ, ◌∙◌, ◌<◌, ◌≡◌, refl, sym, subst, inl, inr, true, false, Bool-cases, Option-cases, some, String,
  length, get_elem?, set, is_empty, length-set, get_elem?-set_self, get_elem?-set_ne, get_elem?-lt,
  lt_of_get_elem?, arith, str_eq,
}
use hybridnet.Base.Dict.{lookup, insert, lookup-insert}
use hybridnet.Base.Outcome.{M, Outcome, ok, err, fault}
use hybridnet.Base.Outcome.Ends.{Ends, Ends-mono, Ends-put, zoom-Ends}
use hybridnet.Ipam.Types.{Subnet, SubnetSlice, Network, NetworkSet, Error}
use hybridnet.Ipam.Subnet.Invariant.{IsSynced}
use hybridnet.Ipam.SubnetSlice
use hybridnet.Ipam.SubnetSlice.Available.{IsCounted, at_index, get_available_subnet-SearchAs}
use hybridnet.Ipam.Network.{get_subnet, at_network, at_subnet}

pub record IsReady (n : Network) : Type 0 where
  pub counted : IsCounted n.subnets
  pub indexed :
      (name : String) (i : ℕ)
      → lookup name n.subnets.subnet_index_map ≡ some i
      → i < length n.subnets.subnets
  pub synced : (i : ℕ) (t : Subnet) → get_elem? n.subnets.subnets i ≡ some t → IsSynced t

-- The network with its cursor at a place, and with a subnet in the place of another.
abbrev pub turned : Network → ℕ → Network
turned n j = record n { subnets = at_index n.subnets j }

-- The networks have the same subnets under the same names.
abbrev pub Alike : Network → Network → Type 0
Alike n m =
    (m.subnets.subnets ≡ n.subnets.subnets)
    × (m.subnets.subnet_index_map ≡ n.subnets.subnet_index_map)

abbrev pub replaced : Network → ℕ → Subnet → Network
replaced n i t = record n { subnets = record n.subnets { subnets = set n.subnets.subnets i t } }

pub turned-IsReady :
    (n : Network) (j : ℕ)
    → IsReady n
    → (0 < n.subnets.subnet_count → j < n.subnets.subnet_count)
    → IsReady (turned n j)
turned-IsReady n j r h = record {
  counted = record { counted = r.counted.counted; cursor = h };
  indexed = r.indexed;
  synced = r.synced;
}

pub replaced-IsReady :
    (n : Network) (i : ℕ) (t : Subnet) → IsReady n → IsSynced t → IsReady (replaced n i t)
replaced-IsReady n i t r v = record {
  counted = record {
    counted = omega (arith, r.counted.counted, length-set n.subnets.subnets i t);
    cursor = r.counted.cursor;
  };
  indexed = λ name k e. omega (arith, r.indexed name k e, length-set n.subnets.subnets i t);
  synced = λ k u e. elim (ℕ_discrete i k) [
    | yes same ↦
        let xs = n.subnets.subnets in
        let here : get_elem? (set xs i t) i ≡ some u =
          subst (λ x. get_elem? (set xs i t) x ≡ some u) (sym same) e in
        let lt : i < length xs =
          omega (arith, lt_of_get_elem? (set xs i t) i here, length-set xs i t) in
        let q : t ≡ u = cc (get_elem?-set_self xs i t lt) in subst IsSynced q v
    | no other ↦ r.synced k u (sym (get_elem?-set_ne n.subnets.subnets t other) ∙ e)
  ];
}

-- What a method that looks a subnet up leaves: the network with its cursor somewhere in range.
abbrev pub Turned : Network → Network → Type 0
Turned n m = (j : ℕ) × (m ≡ turned n j) × (0 < n.subnets.subnet_count → j < n.subnets.subnet_count)

-- And what it gives: a subnet of the network.
abbrev pub Located : Network → Network → ℕ → Type 0
Located n m i = Turned n m × ((t : Subnet) × (get_elem? n.subnets.subnets i ≡ some t))

module _ (n : Network) (r : IsReady n) where
  stay : Turned n n
  stay = (n.subnets.subnet_index, refl, r.counted.cursor)

  -- The postconditions, read for the slice of the network.
  abbrev SliceEnds : Outcome SubnetSlice Error ℕ → Type 0
  SliceEnds =
      Ends (λ s. Turned n (record n { subnets = s }))
        (λ s i. Located n (record n { subnets = s }) i)

  named_slice : (name : String) → SliceEnds (SubnetSlice.get_subnet name n.subnets)
  unfolding SubnetSlice.get_subnet
  named_slice name = elim (Option-cases (lookup name n.subnets.subnet_index_map)) [
    | inl no_ ↦ rw (no_, SubnetSlice.get_subnet) stay
    | inr (i, found) ↦
        let (t, at) = get_elem?-lt n.subnets.subnets i (r.indexed name i found) in
        rw (found, SubnetSlice.get_subnet, at) (stay, (t, at))
  ]

  any_slice : SliceEnds (SubnetSlice.get_available_subnet n.subnets)
  any_slice = elim (get_available_subnet-SearchAs n.subnets r.counted) [
    | inl (i, t, lt, at, _, run) ↦ rw run ((i, refl, λ _. lt), (t, at))
    | inr (_, run) ↦ rw run stay
  ]

  on_slice :
      (o : Outcome SubnetSlice Error ℕ)
      → SliceEnds o
      → Ends (Turned n) (Located n) (elim o [
        | ok s a ↦ ok (record n { subnets = s }) a
        | err s e ↦ err (record n { subnets = s }) e
        | fault x ↦ fault x
      ])
  on_slice o h = Ends-put (Turned n) (Located n) (λ s. record n { subnets = s }) o h

  named-Ends :
      (name : String) → is_empty name ≡ false → Ends (Turned n) (Located n) (get_subnet name n)
  unfolding get_subnet
  named-Ends name e = rw (e, get_subnet) (on_slice _ (named_slice name))

  any-Ends :
      (name : String) → is_empty name ≡ true → Ends (Turned n) (Located n) (get_subnet name n)
  unfolding get_subnet
  any-Ends name e = rw (e, get_subnet) (on_slice _ any_slice)

  -- `GetSubnet` on a ready network does not panic; what it gives is a subnet of the network, and only
  -- the cursor has moved, to a place in range.
  pub get_subnet-Ends : (name : String) → Ends (Turned n) (Located n) (get_subnet name n)
  get_subnet-Ends name = elim (Bool-cases (is_empty name)) [
    | inl e ↦ any-Ends name e
    | inr e ↦ named-Ends name e
  ]

abbrev pub AllReady : NetworkSet → Type 0
AllReady s = (name : String) (n : Network) → lookup name s ≡ some n → IsReady n

pub insert-AllReady :
    (name : String) (n : Network) (s : NetworkSet)
    → AllReady s
    → IsReady n
    → AllReady (insert name n s)
insert-AllReady name n s all r other m e = elim (Bool-cases (str_eq name other)) [
  | inl same ↦ let q : n ≡ m = ground (arith, lookup-insert name other n s) in subst IsReady q r
  | inr differs ↦ all other m (ground (arith, lookup-insert name other n s))
]

-- A method of a network of the set, by what it does to the network.
abbrev pub Changed :
    {A : Type 0} → (Network → Network → A → Type 0) → String → NetworkSet → NetworkSet → A → Type 0
Changed R name s s' a =
    (n : Network) × (m : Network) × (lookup name s ≡ some n) × (s' ≡ insert name m s) × R n m a

pub at_network-Ends :
    {A : Type 0} (R : Network → Network → A → Type 0) (missing : Error) (name : String)
    (m : M Network Error A) (s : NetworkSet)
    → AllReady s
    → ((n : Network) → IsReady n → Ends IsReady (λ n' a. IsReady n' × R n n' a) (m n))
    → Ends AllReady (λ s' a. AllReady s' × Changed R name s s' a) (at_network missing name m s)
at_network-Ends R missing name m s all body = elim (Option-cases (lookup name s)) [
  | inl no_ ↦ rw (no_, at_network) all
  | inr (n, found) ↦
      rw (found, at_network)
        (Ends-put AllReady _ (λ n'. insert name n' s) (m n)
          (Ends-mono IsReady _ _ _ (m n) (body n (all name n found))
            (λ n' r'. insert-AllReady name n' s all r')
            (λ n' a h. (insert-AllReady name n' s all h.0, (n, n', refl, refl, h.1)))))
]

-- A method of a subnet of the network.
pub at_subnet-Ends :
    {A : Type 0} (F : Network → Type 0) (Q : Network → A → Type 0) (i : ℕ) (m : M Subnet Error A)
    (n : Network) (t : Subnet)
    → get_elem? n.subnets.subnets i ≡ some t
    → Ends (λ u. F (replaced n i u)) (λ u. Q (replaced n i u)) (m t)
    → Ends F Q (at_subnet i m n)
at_subnet-Ends F Q i m n t e h =
    zoom-Ends F Q (λ n. get_elem? n.subnets.subnets i) (λ t n. replaced n i t) m n t e h
