-- ===== src/Ipam/Allocator/Finds.antt =====
-- The allocator of pkg/ipam/allocator/allocator.go finds an address where there is one.
use hybridnet.Base.{
  ◌⊎◌, ℕ, ◌≡◌, ◌∙◌, refl, ap, sym, inl, inr, true, false, Option, some, String, pos, get_elem?,
  contains, is_empty, arith, lt_of_get_elem?,
}
use hybridnet.Base.Dict.{lookup, insert}
use hybridnet.Base.Outcome.{M, ok, err, fault, zoom, wrap_err, ◌>>=◌}
use hybridnet.Net.{AddressLib}
use hybridnet.Ipam.Types.{
  IpInfo, Subnet, SubnetSlice, Network, NetworkSet, Error, status_using, fail_subnet,
}
use hybridnet.Ipam.IpSet
use hybridnet.Ipam.Subnet
use hybridnet.Ipam.Subnet.{new_ip, allocate_next}
use hybridnet.Ipam.Subnet.Allocate.{given, allocate_next-Allocates}
use hybridnet.Ipam.Subnet.Invariant.{IsSynced, free_counts, allocate_next_available}
use hybridnet.Ipam.SubnetSlice
use hybridnet.Ipam.SubnetSlice.Available.{get_available_subnet-SearchAs}
use hybridnet.Ipam.Network.{at_network, at_slice, at_subnet, get_subnet}
use hybridnet.Ipam.Network.Ready.{IsReady, AllReady, turned, replaced}
use hybridnet.Ipam.Allocator.{found, allocate, missing_network}

-- The subnet at a place of the network has an address that can be given out.
pub record HasFree (n : Network) (i : ℕ) (t : Subnet) : Type 0 where
  pub there : get_elem? n.subnets.subnets i ≡ some t
  pub ip : String
  pub available : contains ip t.available_ips.ips ≡ true
  pub unused : IpSet.has ip t.using_ips ≡ false

-- A chain of calls that succeed.
module _ {S E A : Type 0} where
  pub bind_ok :
      {B : Type 0} (m : M S E A) (f : A → M S E B) (s t : S) (a : A)
      → m s ≡ ok t a
      → (m >>= f) s ≡ f a t
  bind_ok m f s t a e =
      ap (λ o. elim o [ ok t a ↦ f a t | err t e ↦ err t e | fault x ↦ fault x ]) e

  pub wrap_err_ok :
      (w : E → E) (m : M S E A) (s t : S) (a : A) → m s ≡ ok t a → wrap_err w m s ≡ ok t a
  wrap_err_ok w m s t a e =
      ap (λ o. elim o [ ok t a ↦ ok t a | err t e ↦ err t (w e) | fault x ↦ fault x ]) e

zoom_ok :
    {S T E A : Type 0} (get : S → Option T) (put : T → S → S) (m : M T E A) (s : S) (t u : T)
    (a : A)
    → get s ≡ some t
    → m t ≡ ok u a
    → zoom get put m s ≡ ok (put u s) a
zoom_ok get put m s t u a there e = rw (there, zoom, e) refl

slice_ok :
    {A : Type 0} (m : M SubnetSlice Error A) (n : Network) (s : SubnetSlice) (a : A)
    → m n.subnets ≡ ok s a
    → at_slice m n ≡ ok (record n { subnets = s }) a
slice_ok m n s a e =
    zoom_ok (λ n. some n.subnets) (λ s n. record n { subnets = s }) m n n.subnets s a refl e

pub subnet_ok :
    {A : Type 0} (i : ℕ) (m : M Subnet Error A) (n : Network) (t u : Subnet) (a : A)
    → get_elem? n.subnets.subnets i ≡ some t
    → m t ≡ ok u a
    → at_subnet i m n ≡ ok (replaced n i u) a
subnet_ok i m n t u a at e =
    zoom_ok (λ n. get_elem? n.subnets.subnets i) (λ t n. replaced n i t) m n t u a at e

pub at_network_ok :
    {A : Type 0} (missing : Error) (name : String) (m : M Network Error A) (s : NetworkSet)
    (n n' : Network) (a : A)
    → lookup name s ≡ some n
    → m n ≡ ok n' a
    → at_network missing name m s ≡ ok (insert name n' s) a
at_network_ok missing name m s n n' a there e = rw (there, at_network, e) refl

pub named_lem :
    (n : Network) (i : ℕ) (t : Subnet) (name : String)
    → get_elem? n.subnets.subnets i ≡ some t
    → is_empty name ≡ false
    → lookup name n.subnets.subnet_index_map ≡ some i
    → get_subnet name n ≡ ok n i
unfolding get_subnet SubnetSlice.get_subnet
named_lem n i t name at e known =
    rw (e, get_subnet) (slice_ok (SubnetSlice.get_subnet name) n n.subnets i found_)
  where
    found_ : SubnetSlice.get_subnet name n.subnets ≡ ok n.subnets i
    found_ = rw (known, SubnetSlice.get_subnet, at) refl

-- An available subnet of the network, for the empty name.
any_lem :
    (n : Network) (i : ℕ) (t : Subnet)
    → (name : String) → is_empty name ≡ true
    → IsReady n
    → t.is_private ≡ false
    → HasFree n i t
    → (j : ℕ) × (u : Subnet) × (get_subnet name n ≡ ok (turned n j) j)
      × (get_elem? n.subnets.subnets j ≡ some u)
      × (Subnet.is_available u ≡ true)
unfolding get_subnet
any_lem n i t name e r open_ h = elim (get_available_subnet-SearchAs n.subnets r.counted) [
  | inl (j, u, _, at, free, run) ↦
      (j, u, rw (e, get_subnet) (slice_ok SubnetSlice.get_available_subnet n _ j run), at, free)
  | inr (none_free, _) ↦
      let lt = lt_of_get_elem? n.subnets.subnets i h.there in
      let full = none_free i (omega (arith, r.counted.counted, lt)) t h.there in
      let free = free_counts t (r.synced i t h.there) h.ip h.available h.unused open_ in
      absurd (cc (full, free))
]

module _ (lib : AddressLib) (pod_name pod_namespace : String) where
  -- A subnet that can give out an address does so.
  gives_lem :
      (n : Network) (i : ℕ) (t : Subnet)
      → IsReady n
      → HasFree n i t
      → (u : Subnet) × (c : IpInfo) × (allocate_next lib pod_name pod_namespace t ≡ ok u (some c))
  gives_lem n i t r h =
      elim (allocate_next-Allocates lib pod_name pod_namespace t (r.synced i t h.there).slice) [
        | inl (all, _, _, _) ↦
            let used = all h.ip h.available in absurd (let free = h.unused in cc (used, free))
        | inr (j, ip, _, _, _, run) ↦
            (given t (pos j) ip _, new_ip lib t ip pod_name pod_namespace status_using, run)
      ]

  -- And the record names the subnet.
  subnet_lem :
      (t u : Subnet) (c : IpInfo)
      → IsSynced t
      → allocate_next lib pod_name pod_namespace t ≡ ok u (some c)
      → c.subnet ≡ t.name
  unfolding new_ip
  subnet_lem t u c v e = elim (allocate_next-Allocates lib pod_name pod_namespace t v.slice) [
    | inl (_, _, _, run) ↦ cc
    | inr (j, ip, _, _, _, run) ↦
        let q : new_ip lib t ip pod_name pod_namespace status_using ≡ c = cc in
        sym (ap (λ (x : IpInfo). x.subnet) q)
  ]

  run_lem :
      (s : NetworkSet) (network subnet : String) (n m : Network) (i : ℕ) (t u : Subnet) (c : IpInfo)
      → lookup network s ≡ some n
      → get_subnet subnet n ≡ ok m i
      → get_elem? m.subnets.subnets i ≡ some t
      → allocate_next lib pod_name pod_namespace t ≡ ok u (some c)
      → allocate lib network subnet pod_name pod_namespace s
        ≡ ok (insert network (replaced m i u) s) c
  unfolding allocate
  run_lem s network subnet n m i t u c there located at given_ =
      at_network_ok missing_network network _ s n (replaced m i u) c there (
        bind_ok (wrap_err fail_subnet (get_subnet subnet)) _ n m i
          (wrap_err_ok fail_subnet (get_subnet subnet) n m i located)
        ∙ bind_ok (at_subnet i (allocate_next lib pod_name pod_namespace)) found m (replaced m i u)
            (some c)
            (subnet_ok i (allocate_next lib pod_name pod_namespace) m t u (some c) at given_))

  module _ (s : NetworkSet) (all : AllReady s) (network : String) (n : Network)
      (there : lookup network s ≡ some n) (i : ℕ) (t : Subnet) (free : HasFree n i t) where
    -- On a network set whose networks are ready, Allocate at a network of the set one of whose subnets has
    -- an available address that is not in use succeeds, if it names that subnet, as the index of the
    -- network has it, or if it names none and the subnet is public. The record that it gives is of the
    -- subnet that is named, and of some subnet of the network if none is.
    pub allocate-Finds :
        (subnet : String)
        → ((is_empty subnet ≡ false) × (lookup subnet n.subnets.subnet_index_map ≡ some i))
          ⊎ ((is_empty subnet ≡ true) × (t.is_private ≡ false))
        → (s' : NetworkSet) × (c : IpInfo) × (j : ℕ) × (u : Subnet) × (allocate lib network subnet
              pod_name pod_namespace s
            ≡ ok s' c)
          × (get_elem? n.subnets.subnets j ≡ some u)
          × (c.subnet ≡ u.name)
          × ((j ≡ i) ⊎ (is_empty subnet ≡ true))
    allocate-Finds subnet (inl (named, known)) =
        let ready = all network n there in
        let (u, c, run) = gives_lem n i t ready free in
        (
          _,
          c,
          i,
          t,
          run_lem s network subnet n n i t u c there (named_lem n i t subnet free.there named known)
              free.there run,
          free.there,
          subnet_lem t u c (ready.synced i t free.there) run,
          inl refl,
        )
    allocate-Finds subnet (inr (unnamed, public)) =
        let ready = all network n there in
        let (j, u, located, at, counts) = any_lem n i t subnet unnamed ready public free in
        let synced = ready.synced j u at in
        let (v, c, run) = allocate_next_available lib pod_name pod_namespace u synced counts in
        (
          _,
          c,
          j,
          u,
          run_lem s network subnet n (turned n j) j u v c there located at run,
          at,
          subnet_lem u v c synced run,
          inr unnamed,
        )
