-- ===== src/Ipam/Allocator/Safety.antt =====
-- What `Allocate` of pkg/ipam/allocator/allocator.go promises over a ready network set.
use hybridnet.Base.{
  ℕ, ◌<◌, ◌≡◌, ◌∙◌, refl, sym, subst, inl, inr, true, false, Option, none, some, String, pos,
  get_elem?, length, length-set, set, contains, contains_of_get_elem?, arith,
}
use hybridnet.Base.Dict.{insert}
use hybridnet.Base.Outcome.{M, ◌>>=◌, wrap_err}
use hybridnet.Base.Outcome.Ends.{Ends, Ends-mono, Ends-bind, Ends-wrap_err}
use hybridnet.Net.{AddressLib}
use hybridnet.Ipam.Types.{Subnet, IpInfo, Network, NetworkSet, Error, status_using, fail_subnet}
use hybridnet.Ipam.IpSet
use hybridnet.Ipam.Subnet.{new_ip, allocate_next}
use hybridnet.Ipam.Subnet.Allocate.{given, moved, allocate_next-Allocates}
use hybridnet.Ipam.Subnet.Invariant.{moved-IsSynced, added-IsSynced}
use hybridnet.Ipam.Network
use hybridnet.Ipam.Network.{at_network, at_subnet}
use hybridnet.Ipam.Network.Ready.{
  IsReady, turned-IsReady, replaced, replaced-IsReady, Alike, Turned, Located, get_subnet-Ends,
  AllReady, Changed, at_network-Ends, at_subnet-Ends,
}
use hybridnet.Ipam.Allocator.{found, allocate, missing_network}

-- An address of a subnet that was available and not in use is given out: the subnet now holds it, for
-- the pod, and holds what it held.
pub record Fresh (lib : AddressLib) (pod_name pod_namespace : String) (t u : Subnet) (c : IpInfo)
    : Type 0 where
  pub text : String
  pub was_available : contains text t.available_ips.ips ≡ true
  pub was_free : IpSet.has text t.using_ips ≡ false
  pub content : c ≡ new_ip lib t text pod_name pod_namespace status_using
  pub recorded : u.using_ips ≡ insert text c t.using_ips
  pub same_name : u.name ≡ t.name
  pub same_available : u.available_ips.ips ≡ t.available_ips.ips
  pub same_reserved : u.reserved_list ≡ t.reserved_list
  pub same_net_id : u.net_id ≡ t.net_id

-- The subnet at a place of the network gave out the address, and no other place has changed.
pub record GaveOut (lib : AddressLib) (pod_name pod_namespace : String) (n m : Network) (c : IpInfo)
    : Type 0 where
  pub place : ℕ
  pub before : Subnet
  pub after : Subnet
  pub stood : get_elem? n.subnets.subnets place ≡ some before
  pub stands : m.subnets.subnets ≡ set n.subnets.subnets place after
  pub indexed : m.subnets.subnet_index_map ≡ n.subnets.subnet_index_map
  pub fresh : Fresh lib pod_name pod_namespace before after c

module _ (lib : AddressLib) (pod_name pod_namespace : String) where
  -- `AllocateNext` at a subnet of the network, and the test of its result.
  give : ℕ → M Network Error IpInfo
  give i = at_subnet i (allocate_next lib pod_name pod_namespace) >>= found

  given_out :
      (n : Network) (i : ℕ) (t : Subnet) (j : ℕ) (ip : String)
      → IsReady n
      → get_elem? n.subnets.subnets i ≡ some t
      → j < t.available_ips.ip_count
      → get_elem? t.available_ips.ips j ≡ some ip
      → IpSet.has ip t.using_ips ≡ false
      → let c = new_ip lib t ip pod_name pod_namespace status_using in
        let m = replaced n i (given t (pos j) ip c) in
        IsReady m × GaveOut lib pod_name pod_namespace n m c
  given_out n i t j ip r at lt e free =
      let c = new_ip lib t ip pod_name pod_namespace status_using in
      let listed = contains_of_get_elem? ip t.available_ips.ips j e in
      (
        replaced-IsReady n i (given t (pos j) ip c) r (
            added-IsSynced (moved t (pos j)) ip c (moved-IsSynced t (pos j) (r.synced i t at) lt)
              (ground (arith, listed))),
        record {
          place = i;
          before = t;
          after = given t (pos j) ip c;
          stood = at;
          stands = refl;
          indexed = refl;
          fresh = record {
            text = ip;
            was_available = listed;
            was_free = free;
            content = refl;
            recorded = refl;
            same_name = refl;
            same_available = refl;
            same_reserved = refl;
            same_net_id = refl;
          };
        },
      )

  -- What `AllocateNext` at a subnet leaves: nil and a moved cursor, or an address given out.
  abbrev pub Offered : Network → Network → Option IpInfo → Type 0
  Offered n m none = IsReady m × (length m.subnets.subnets ≡ length n.subnets.subnets)
  Offered n m (some c) = IsReady m × GaveOut lib pod_name pod_namespace n m c

  pub offer-Ends :
      (n : Network) (i : ℕ) (t : Subnet)
      → IsReady n
      → get_elem? n.subnets.subnets i ≡ some t
      → Ends IsReady (Offered n) (at_subnet i (allocate_next lib pod_name pod_namespace) n)
  offer-Ends n i t r at =
      at_subnet-Ends IsReady (Offered n) i (allocate_next lib pod_name pod_namespace) n t at
        (elim (allocate_next-Allocates lib pod_name pod_namespace t (r.synced i t at).slice) [
          | inl (_, j, cur, run) ↦ rw run (
            replaced-IsReady n i (moved t j) r (moved-IsSynced t j (r.synced i t at) cur),
            length-set n.subnets.subnets i (moved t j),
          )
          | inr (j, ip, lt, e, free, run) ↦ rw run (given_out n i t j ip r at lt e free)
        ])

  found-Ends :
      (n m : Network) (o : Option IpInfo)
      → Offered n m o
      → Ends IsReady (λ m c. IsReady m × GaveOut lib pod_name pod_namespace n m c) (found o m)
  found-Ends n m none h = h.0
  found-Ends n m (some c) h = h

  give-Ends :
      (n : Network) (i : ℕ) (t : Subnet)
      → IsReady n
      → get_elem? n.subnets.subnets i ≡ some t
      → Ends IsReady (λ m c. IsReady m × GaveOut lib pod_name pod_namespace n m c) (give i n)
  unfolding give
  give-Ends n i t r at =
      Ends-bind IsReady (Offered n) (λ m c. IsReady m × GaveOut lib pod_name pod_namespace n m c)
        (at_subnet i (allocate_next lib pod_name pod_namespace) n) found (offer-Ends n i t r at)
        (found-Ends n)

  pub gave_from :
      (n m k : Network) (c : IpInfo)
      → Alike n m
      → GaveOut lib pod_name pod_namespace m k c
      → GaveOut lib pod_name pod_namespace n k c
  gave_from n m k c e g = record {
    place = g.place;
    before = g.before;
    after = g.after;
    stood = subst (λ x. get_elem? x g.place ≡ some g.before) e.0 g.stood;
    stands = subst (λ x. k.subnets.subnets ≡ set x g.place g.after) e.0 g.stands;
    indexed = g.indexed ∙ e.1;
    fresh = g.fresh;
  }

  gave_next :
      (n m : Network) (i : ℕ)
      → IsReady m
      → Alike n m
      → ((t : Subnet) × (get_elem? n.subnets.subnets i ≡ some t))
      → Ends IsReady (λ k c. IsReady k × GaveOut lib pod_name pod_namespace n k c) (give i m)
  gave_next n m i ready e (t, at) =
      Ends-mono IsReady _ IsReady _ (give i m)
        (give-Ends m i t ready (subst (λ x. get_elem? x i ≡ some t) (sym e.0) at)) (λ k h. h)
        (λ k c h. (h.0, gave_from n m k c e h.1))

  -- The lookup of `Allocate`, and what it does with the subnet that it finds.
  allocate_body-Ends :
      (subnet : String) (n : Network)
      → IsReady n
      → Ends IsReady
          (λ m c. IsReady m × GaveOut lib pod_name pod_namespace n m c)
          ((wrap_err fail_subnet (Network.get_subnet subnet) >>= give) n)
  allocate_body-Ends subnet n r =
      Ends-bind IsReady
        (λ m i. IsReady m × (Alike n m) × ((t : Subnet) × (get_elem? n.subnets.subnets i ≡ some t)))
        (λ m c. IsReady m × GaveOut lib pod_name pod_namespace n m c)
        (wrap_err fail_subnet (Network.get_subnet subnet) n) give
        (Ends-wrap_err IsReady _ fail_subnet (Network.get_subnet subnet n) (
          Ends-mono (Turned n) (Located n) IsReady _ (Network.get_subnet subnet n)
            (get_subnet-Ends n r subnet) (λ m h. turned_ready m h)
            (λ m i h. (turned_ready m h.0, same m h.0, h.1))))
        (λ m i h. gave_next n m i h.0 h.1 h.2)
    where
      turned_ready : (m : Network) → Turned n m → IsReady m
      turned_ready m (j, e, lt) = rw e (turned-IsReady n j r lt)

      same : (m : Network) → Turned n m → Alike n m
      same m (j, e, lt) = (rw e refl, rw e refl)

  -- On a network set whose networks are ready, Allocate does not panic, leaves every network ready
  -- whatever it answers, and an address that it gives was available and not in use in one subnet of
  -- the network, which now records it for the pod, while no other subnet or network has changed.
  pub allocate-Ends :
      (network subnet : String) (s : NetworkSet)
      → AllReady s
      → Ends AllReady
          (λ s' c. AllReady s' × Changed (GaveOut lib pod_name pod_namespace) network s s' c)
          (allocate lib network subnet pod_name pod_namespace s)
  unfolding allocate give
  allocate-Ends network subnet s all =
      at_network-Ends (GaveOut lib pod_name pod_namespace) missing_network network
        (wrap_err fail_subnet (Network.get_subnet subnet) >>= give) s all
        (allocate_body-Ends subnet)
