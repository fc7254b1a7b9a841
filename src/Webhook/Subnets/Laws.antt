-- ===== src/Webhook/Subnets/Laws.antt =====
-- What `SubnetCreateValidation` of pkg/webhook/validating/subnet.go lets in.
use hybridnet.Base.{
  ◌≡◌, ◌⊎◌, refl, inl, inr, true, false, List, [], ◌∷◌, none, some, String, pos, ltb_ℤ, Bool-cases,
  Option-cases, arith,
}
use hybridnet.Net.{NetIp, Cidr, AddressLib, equal}
use hybridnet.Ipam.Types.{Subnet}
use hybridnet.Ipam.Subnet.{overlap}
use hybridnet.Api.Types.{ParseCidr, NetworkObject, SubnetObject, is_ipv6_subnet}
use hybridnet.Api.Range.{validate_address_range, calculate_capacity, signed64}
use hybridnet.Api.Valid.{IsValid, validate_address_range-IsValid}
use hybridnet.Api.Intersect.{intersect}
use hybridnet.Webhook.Cluster.{Got, got, not_found, failed, RemoteSubnet, Cluster, allowed}
use hybridnet.Webhook.Subnets.Fits.{Fits, check_net_id-Fits}
use hybridnet.Webhook.Subnets.{
  max_subnet_capacity, check_net_id, Canonical, canonicalized, rejected, crashed, canonical,
  overlapping, intersecting, check_remote, check_existing, check_overlap, check_capacity, check_new,
  subnet_create_validation,
}

module _ (lib : AddressLib) (parse_cidr : ParseCidr) where
  -- No existing subnet that can be canonicalized overlaps.
  abbrev pub NoOverlap : Subnet → List SubnetObject → Type 0
  NoOverlap t [] = Unit {0}
  NoOverlap t (o ∷ os) =
      ((u : Subnet) → canonical lib parse_cidr o ≡ canonicalized u → overlap lib u t ≡ false)
      × NoOverlap t os

  abbrev pub NoIntersect : SubnetObject → List RemoteSubnet → Type 0
  NoIntersect s [] = Unit {0}
  NoIntersect s (q ∷ qs) =
      (intersect lib parse_cidr s.range q.range ≡ some false) × NoIntersect s qs

  Canonical-cases :
      (c : Canonical)
      → ((u : Subnet) × (c ≡ canonicalized u)) ⊎ ((e : _) × (c ≡ rejected e)) ⊎ (c ≡ crashed)
  Canonical-cases (canonicalized u) = inl (u, refl)
  Canonical-cases (rejected e) = inr (inl (e, refl))
  Canonical-cases crashed = inr (inr refl)

  overlapping-NoOverlap :
      (t : Subnet) (os : List SubnetObject)
      → overlapping lib parse_cidr t os ≡ some none
      → NoOverlap t os
  unfolding overlapping
  overlapping-NoOverlap t [] h = tt
  overlapping-NoOverlap t (o ∷ os) h = elim (Canonical-cases (canonical lib parse_cidr o)) [
    | inl (u, e) ↦ elim (Bool-cases (overlap lib u t)) [
      | inl f ↦ absurd (ground (arith, e, f, h))
      | inr f ↦
          (λ w g. ground (arith, e, f, g), overlapping-NoOverlap t os (ground (arith, e, f, h)))
    ]
    | inr (inl (x, e)) ↦
        (λ w g. ground (arith, e, g), overlapping-NoOverlap t os (ground (arith, e, h)))
    | inr (inr e) ↦ absurd (ground (arith, e, h))
  ]

  intersecting-NoIntersect :
      (s : SubnetObject) (qs : List RemoteSubnet)
      → intersecting lib parse_cidr s.range qs ≡ some none
      → NoIntersect s qs
  unfolding intersecting
  intersecting-NoIntersect s [] h = tt
  intersecting-NoIntersect s (q ∷ qs) h =
      elim (Option-cases (intersect lib parse_cidr s.range q.range)) [
        | inl e ↦ absurd (ground (arith, e, h))
        | inr (b, e) ↦ elim (Bool-cases b) [
          | inl f ↦ absurd (ground (arith, e, f, h))
          | inr f ↦ (ground (arith, e, f), intersecting-NoIntersect s qs (ground (arith, e, f, h)))
        ]
      ]

  -- What the webhook has checked of a subnet that it lets in.
  pub record Admitted (k : Cluster) (s : SubnetObject) : Type 0 where
    pub parent : NetworkObject
    pub found : k.network s.network ≡ got parent
    pub fits : Fits parent s
    pub cidr : Cidr
    pub ip : NetIp
    pub parsed : (parse_cidr s.range.cidr ≡ some (ip, cidr)) × (equal cidr.ip ip ≡ true)
    pub range_IsValid : IsValid lib parse_cidr s.range cidr
    pub family : k.dual_stack ≡ false → is_ipv6_subnet parse_cidr (some s) ≡ false
    pub within_capacity :
        (w : _) × (calculate_capacity lib parse_cidr s.range ≡ some w)
        × (ltb_ℤ (pos max_subnet_capacity) (signed64 w) ≡ false)
    pub subnet : Subnet
    pub is_canonical : canonical lib parse_cidr s ≡ canonicalized subnet
    pub no_overlap : (os : List SubnetObject) × (k.subnets ≡ got os) × NoOverlap subnet os
    pub no_intersect :
        k.multi_cluster ≡ true
        → (qs : List RemoteSubnet) × (k.remote_subnets ≡ got qs) × NoIntersect s qs

  check_remote_lem :
      (s : SubnetObject) (g : Got (List RemoteSubnet))
      → check_remote lib parse_cidr s g ≡ allowed
      → (qs : List RemoteSubnet) × (g ≡ got qs) × NoIntersect s qs
  unfolding check_remote
  check_remote_lem s (got qs) h = elim (Option-cases (intersecting lib parse_cidr s.range qs)) [
    | inl e ↦ absurd (ground (arith, e, h))
    | inr (none, e) ↦ (qs, refl, intersecting-NoIntersect s qs e)
    | inr (some x, e) ↦ absurd (ground (arith, e, h))
  ]
  check_remote_lem s not_found h = absurd (ground (arith, h))
  check_remote_lem s (failed e) h = absurd (ground (arith, h))

  check_existing_lem :
      (k : Cluster) (s : SubnetObject) (t : Subnet) (g : Got (List SubnetObject))
      → check_existing lib parse_cidr k s t g ≡ allowed
      → ((os : List SubnetObject) × (g ≡ got os) × NoOverlap t os)
        × (k.multi_cluster ≡ true
            → (qs : List RemoteSubnet) × (k.remote_subnets ≡ got qs) × NoIntersect s qs)
  unfolding check_existing
  check_existing_lem k s t (got os) h = elim (Option-cases (overlapping lib parse_cidr t os)) [
    | inl e ↦ absurd (ground (arith, e, h))
    | inr (none, e) ↦ (
      (os, refl, overlapping-NoOverlap t os e),
      λ m. check_remote_lem s k.remote_subnets (ground (arith, e, h, m)),
    )
    | inr (some x, e) ↦ absurd (ground (arith, e, h))
  ]
  check_existing_lem k s t not_found h = absurd (ground (arith, h))
  check_existing_lem k s t (failed e) h = absurd (ground (arith, h))

  check_overlap_lem :
      (k : Cluster) (s : SubnetObject)
      → check_overlap lib parse_cidr k s ≡ allowed
      → (t : Subnet) × (canonical lib parse_cidr s ≡ canonicalized t)
        × (check_existing lib parse_cidr k s t k.subnets ≡ allowed)
  unfolding check_overlap
  check_overlap_lem k s h = elim (Canonical-cases (canonical lib parse_cidr s)) [
    | inl (t, e) ↦ (t, e, ground (arith, e, h))
    | inr (inl (x, e)) ↦ absurd (ground (arith, e, h))
    | inr (inr e) ↦ absurd (ground (arith, e, h))
  ]

  check_capacity_lem :
      (k : Cluster) (s : SubnetObject)
      → check_capacity lib parse_cidr k s ≡ allowed
      → ((w : _) × (calculate_capacity lib parse_cidr s.range ≡ some w)
          × (ltb_ℤ (pos max_subnet_capacity) (signed64 w) ≡ false))
        × (check_overlap lib parse_cidr k s ≡ allowed)
  unfolding check_capacity
  check_capacity_lem k s h = elim (Option-cases (calculate_capacity lib parse_cidr s.range)) [
    | inl e ↦ absurd (ground (arith, e, h))
    | inr (w, e) ↦ elim (Bool-cases (ltb_ℤ (pos max_subnet_capacity) (signed64 w))) [
      | inl f ↦ absurd (ground (arith, e, f, h))
      | inr f ↦ ((w, e, f), ground (arith, e, f, h))
    ]
  ]

  check_new_lem :
      (k : Cluster) (n : NetworkObject) (s : SubnetObject)
      → check_new lib parse_cidr k n s ≡ allowed
      → (check_net_id n s ≡ none)
        × (validate_address_range lib parse_cidr s.range ≡ none)
        × (k.dual_stack ≡ false → is_ipv6_subnet parse_cidr (some s) ≡ false)
        × (check_capacity lib parse_cidr k s ≡ allowed)
  unfolding check_new
  check_new_lem k n s h = elim (Option-cases (check_net_id n s)) [
    | inr (d, e) ↦ absurd (ground (arith, e, h))
    | inl e ↦ elim (Option-cases (validate_address_range lib parse_cidr s.range)) [
      | inr (d, f) ↦ absurd (ground (arith, e, f, h))
      | inl f ↦ (e, f, λ d. ground (arith, e, f, h, d), ground (arith, e, f, h))
    ]
  ]

  Got-cases :
      {A : Type 0} (g : Got A)
      → ((a : A) × (g ≡ got a)) ⊎ (g ≡ not_found) ⊎ ((e : String) × (g ≡ failed e))
  Got-cases (got a) = inl (a, refl)
  Got-cases not_found = inr (inl refl)
  Got-cases (failed e) = inr (inr (e, refl))

  parent_lem :
      (k : Cluster) (s : SubnetObject)
      → subnet_create_validation lib parse_cidr k (some s) ≡ allowed
      → (n : NetworkObject) × (k.network s.network ≡ got n)
        × (check_new lib parse_cidr k n s ≡ allowed)
  unfolding subnet_create_validation
  parent_lem k s h = elim (Got-cases (k.network s.network)) [
    | inl (n, e) ↦ (n, e, ground (arith, e, h))
    | inr (inl e) ↦ absurd (ground (arith, e, h))
    | inr (inr (x, e)) ↦ absurd (ground (arith, e, h))
  ]

  -- A subnet that SubnetCreateValidation lets in has a parent network whose mode its net ID and its
  -- gateway fit, a valid address range, IPv6 only if dual stack is enabled, a computed capacity of at
  -- most 2 ^ 16, can be canonicalized, overlaps no existing subnet that can be, and, with multicluster
  -- enabled, intersects no remote subnet.
  pub subnet_create_validation-Admitted :
      (k : Cluster) (s : SubnetObject)
      → subnet_create_validation lib parse_cidr k (some s) ≡ allowed
      → Admitted k s
  subnet_create_validation-Admitted k s h =
      let (n, found, new) = parent_lem k s h in
      let (net, range, family, capacity) = check_new_lem k n s new in
      let (ip, c, parsed, same, valid) =
        validate_address_range-IsValid lib parse_cidr s.range range in
      let (within, overlaps) = check_capacity_lem k s capacity in
      let (t, canon, existing) = check_overlap_lem k s overlaps in
      let (others, remote) = check_existing_lem k s t k.subnets existing in
      record {
        parent = n;
        found = found;
        fits = check_net_id-Fits n s net;
        cidr = c;
        ip = ip;
        parsed = (parsed, same);
        range_IsValid = valid;
        family = family;
        within_capacity = within;
        subnet = t;
        is_canonical = canon;
        no_overlap = others;
        no_intersect = remote;
      }
