-- ===== src/Ipam/DualStack/Payments.antt =====
-- How `Release` of pkg/ipam/allocator/dualstack_allocator.go takes back by name and text what `Allocate`
-- has given.
use mathlib.Core.Option
use native.Mathlib.Decide.{ℕ_discrete}
use hybridnet.Base.{
  ℕ, ◌≡◌, ◌∙◌, refl, ap, sym, subst, inl, inr, false, List, [], ◌∷◌, none, some, String, get_elem?,
  arith, is_empty, str_eq, eq_iff, contains, Bool-cases, Option-cases,
}
use hybridnet.Base.Dict.{lookup}
use hybridnet.Base.Outcome.{M, Outcome, ok, err, fault, ◌>>◌, modify, zoom}
use hybridnet.Net.{AddressLib}
use hybridnet.Ipam.Types.{IpInfo, Subnet, Network, Error, fail_subnet}
use hybridnet.Ipam.Subnet
use hybridnet.Ipam.Subnet.{new_ip}
use hybridnet.Ipam.Subnet.Changes.{lookup-release}
use hybridnet.Ipam.Network.{at_subnet, at_slice, get_subnet}
use hybridnet.Ipam.SubnetSlice
use hybridnet.Ipam.Network.Ready.{replaced}
use hybridnet.Ipam.DualStack.{release_all, release_ip}
use hybridnet.Ipam.Network.Records.{
  Profile, profile, profile_at, record_at, record_of, IsFit, set-SameShape, record_at_self,
  record_at_ne,
}
use hybridnet.Ipam.DualStack.Debts.{Debts, owes, Owing}

-- The names and the texts by which addresses are given back.
abbrev pub subnets_of : List IpInfo → List String
subnets_of [] = []
subnets_of (c ∷ cs) = c.subnet ∷ subnets_of cs

abbrev pub texts_of : AddressLib → List IpInfo → List String
texts_of lib [] = []
texts_of lib (c ∷ cs) = lib.ip_string c.address.ip ∷ texts_of lib cs

at_profile :
    (m : Network) (i : ℕ) (p : Profile)
    → profile_at m i ≡ some p
    → (u : Subnet) × (get_elem? m.subnets.subnets i ≡ some u) × (profile u ≡ p)
at_profile m i p e = elim (Option-cases (get_elem? m.subnets.subnets i)) [
  | inl no_ ↦ absurd (let b = ap (Option.map profile) no_ in cc (b, e))
  | inr (u, here) ↦ (u, here, (let b = ap (Option.map profile) here in cc (b, e)))
]

profile-release : (text : String) (u : Subnet) → profile (Subnet.release text u) ≡ profile u
unfolding Subnet.release Subnet.is_reserved_ip
profile-release text u = refl

-- A subnet is found by its name.
slice_run :
    (m : Network) (i : ℕ) (u : Subnet) (name : String)
    → get_elem? m.subnets.subnets i ≡ some u
    → lookup name m.subnets.subnet_index_map ≡ some i
    → SubnetSlice.get_subnet name m.subnets ≡ ok m.subnets i
unfolding SubnetSlice.get_subnet
slice_run m i u name here found = rw (SubnetSlice.get_subnet, found, here) refl

name_run :
    (m : Network) (i : ℕ) (u : Subnet) (name : String)
    → get_elem? m.subnets.subnets i ≡ some u
    → is_empty name ≡ false
    → lookup name m.subnets.subnet_index_map ≡ some i
    → get_subnet name m ≡ ok m i
unfolding get_subnet
name_run m i u name here word found =
    rw (word, get_subnet) (at_slice_run (slice_run m i u name here found))
  where
    at_slice_run :
        SubnetSlice.get_subnet name m.subnets ≡ ok m.subnets i
        → at_slice (SubnetSlice.get_subnet name) m ≡ ok m i
    at_slice_run e = rw (at_slice, zoom, e) refl

-- It takes an address back.
take_run :
    (m : Network) (i : ℕ) (u : Subnet) (text : String)
    → get_elem? m.subnets.subnets i ≡ some u
    → at_subnet i (modify (Subnet.release text)) m ≡ ok (replaced m i (Subnet.release text u)) tt
take_run m i u text here = rw (at_subnet, zoom, here) refl

-- What follows a call, and a call with its error under a heading.
abbrev after :
    {A B : Type 0} → Outcome Network Error A → (A → M Network Error B) → Outcome Network Error B
after o f = elim o [ ok t a ↦ f a t | err t e ↦ err t e | fault x ↦ fault x ]

abbrev wrapped : {A : Type 0} → Outcome Network Error A → Outcome Network Error A
wrapped o = elim o [ ok t a ↦ ok t a | err t e ↦ err t (fail_subnet e) | fault x ↦ fault x ]

module _ (lib : AddressLib) (n : Network) (f : IsFit lib n) where
  -- After a round one address less is owed.
  paid :
      (m : Network) (u : Subnet) (c : IpInfo) (cs : List IpInfo) (rest : List (ℕ × String)) (i : ℕ)
      (text : String) (p : Profile)
      → get_elem? m.subnets.subnets i ≡ some u
      → profile u ≡ p
      → contains text p.reserved ≡ false
      → record_at n i text ≡ none
      → Debts lib n cs rest
      → Owing lib n m (c ∷ cs) ((i, text) ∷ rest)
      → Owing lib n (replaced m i (Subnet.release text u)) cs rest
  paid m u c cs rest i text p here same unr free ds o =
      let k = replaced m i (Subnet.release text u) in
      let shape =
        set-SameShape m k i u (Subnet.release text u) here refl refl (profile-release text u) in
      record {
        shape = record {
          indexed = shape.indexed ∙ o.shape.indexed;
          profiles = λ j. shape.profiles j ∙ o.shape.profiles j;
        };
        debts = ds;
        others = λ j x none_left. elim (ℕ_discrete i j) [
          | yes at ↦
              subst (λ y. record_at k y x ≡ record_at n y x) at
                (record_at_self m k i u (Subnet.release text u) x here refl
                  ∙ lookup-release text x u
                  ∙ elim (Bool-cases (str_eq text x)) [
                    | inl e ↦
                        let q : text ≡ x = (eq_iff text x).0 e in
                        let r : contains text u.reserved_list ≡ false =
                          ap (λ y. contains text y.reserved) same ∙ unr in
                        let z : record_at n i x ≡ none =
                          subst (λ y. record_at n i y ≡ none) q free in
                        rw (e, r) (sym z)
                    | inr e ↦ rw (e) (
                        sym (ap (record_of x) here)
                        ∙ o.others i x (ground (arith, e, none_left, at)))
                  ])
          | no other ↦
              record_at_ne m k i j (Subnet.release text u) x other refl
              ∙ o.others j x (ground (arith, none_left, other))
        ];
      }

  -- The run of a round.
  pay_one :
      (m : Network) (c : IpInfo) (cs : List IpInfo) (rest : List (ℕ × String)) (i : ℕ)
      (text : String)
      → Owing lib n m (c ∷ cs) ((i, text) ∷ rest)
      → (k : Network) × (get_subnet c.subnet m ≡ ok m i)
        × (at_subnet i (modify (Subnet.release (lib.ip_string c.address.ip))) m ≡ ok k tt)
        × Owing lib n k cs rest
  pay_one m c cs rest i text o = elim o.debts [
    | owes i text p at sub id word unr free ds ↦
        let (u, here, same) = at_profile m i p (o.shape.profiles i ∙ at) in
        let (name, found) = f.named i p at in
        let found_ =
          name_run m i u c.subnet here (rw (sub) name)
            (ap (λ y. lookup c.subnet y) o.shape.indexed ∙ rw (sub) found) in
        (
          replaced m i (Subnet.release (lib.ip_string c.address.ip) u),
          found_,
          take_run m i u (lib.ip_string c.address.ip) here,
          subst (λ y. Owing lib n (replaced m i (Subnet.release y u)) cs rest) (sym word)
              (paid m u c cs rest i text p here same unr free ds o),
        )
  ]

  -- The loop pays all.
  pub release_all-Owing :
      (cs : List IpInfo) (rest : List (ℕ × String)) (m : Network)
      → Owing lib n m cs rest
      → (k : Network) × (release_all (subnets_of cs) (texts_of lib cs) m ≡ ok k tt)
        × Owing lib n k [] []
  unfolding release_all
  release_all-Owing [] [] m o = (m, refl, o)
  release_all-Owing [] (key ∷ rest) m o = elim o.debts [ ]
  release_all-Owing (c ∷ cs) [] m o = elim o.debts [ ]
  release_all-Owing (c ∷ cs) ((i, text) ∷ rest) m o =
      let (k, a, b, less) = pay_one m c cs rest i text o in
      let (l, runs, done) = release_all-Owing cs rest k less in
      (
        l,
        ap
              (λ x. after (wrapped x) (λ j.
                at_subnet j (modify (Subnet.release (lib.ip_string c.address.ip)))
                >> release_all (subnets_of cs) (texts_of lib cs)))
              a
            ∙ ap (λ x. after x (λ _. release_all (subnets_of cs) (texts_of lib cs))) b
            ∙ runs,
        done,
      )

  -- One address is paid alone.
  pub release_ip-Owing :
      (c : IpInfo) (rest : List (ℕ × String)) (m : Network)
      → Owing lib n m (c ∷ []) rest
      → (k : Network) × (release_ip (subnets_of (c ∷ [])) (texts_of lib (c ∷ [])) m ≡ ok k tt)
        × Owing lib n k [] []
  unfolding release_ip
  release_ip-Owing c [] m o = elim o.debts [ ]
  release_ip-Owing c ((i, text) ∷ []) m o =
      let (k, a, b, less) = pay_one m c [] [] i text o in
      (
        k,
        ap
              (λ x.
                after (wrapped x)
                  (λ j. at_subnet j (modify (Subnet.release (lib.ip_string c.address.ip)))))
              a
            ∙ b,
        less,
      )
  release_ip-Owing c ((i, text) ∷ key ∷ rest) m o = elim o.debts [
    | owes i text p at sub id word unr free ds ↦ elim ds [ ]
  ]
