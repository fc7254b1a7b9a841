-- ===== src/Ipam/DualStack/Supply.antt =====
-- What `Allocate` of pkg/ipam/allocator/dualstack_allocator.go promises over a ready network set.
use hybridnet.Base.{
  ℕ, ◌<◌, ◌≡◌, ◌∙◌, refl, ap, sym, subst, List, [], ◌∷◌, Option, none, some, String, length,
  length-set, get_elem?, get_elem?-lt, lt_of_get_elem?, arith,
}
use hybridnet.Base.Outcome.{M, ◌>>=◌, return, wrap_err, modify}
use hybridnet.Base.Outcome.Ends.{Ends, Ends-mono, Ends-bind, Ends-wrap_err}
use hybridnet.Net.{AddressLib}
use hybridnet.Ipam.Types.{IpInfo, Network, NetworkSet, Error, fail_subnet, not_found_network}
use hybridnet.Ipam.Subnet
use hybridnet.Ipam.Network
use hybridnet.Ipam.Network.{at_subnet}
use hybridnet.Ipam.Network.Ready.{IsReady, Alike, Turned, AllReady, Changed, at_network-Ends}
use hybridnet.Ipam.Network.Families.{
  IsPlace, Both, get_ipv4_subnet-Ends, get_ipv6_subnet-Ends, paired-Ends,
}
use hybridnet.Ipam.SubnetSlice.Families.{Has}
use hybridnet.Ipam.Allocator.{found}
use hybridnet.Ipam.Allocator.Safety.{GaveOut, Offered, offer-Ends, gave_from}
use hybridnet.Ipam.Allocator.Returns.{give_back, give_back-Ends, turned_lem}
use hybridnet.Ipam.Family.{IpFamilyMode, ipv4_only, ipv6_only, dual_stack, other}
use hybridnet.Ipam.DualStack.{
  one_subnet, two_subnets, allocate_ipv4_only, allocate_ipv6_only, pair_or_recycle, allocate_pair,
  allocate_dual_stack, allocate,
}

module _ (lib : AddressLib) (pod_name pod_namespace : String) where
  -- The network gave out the addresses, one after the other.
  pub data GaveAll : List IpInfo → Network → Network → Type 0 where
    no_more : {n : Network} → GaveAll [] n n
    and_then :
        {c : IpInfo} {cs : List IpInfo} {n k m : Network}
        → GaveOut lib pod_name pod_namespace n k c
        → GaveAll cs k m
        → GaveAll (c ∷ cs) n m

  abbrev Supplied : Network → Network → List IpInfo → Type 0
  Supplied n m cs = IsReady m × GaveAll cs n m

  carry_offer :
      (n m : Network)
      → Alike n m
      → (k : Network) (o : Option IpInfo) → Offered lib pod_name pod_namespace m k o
      → Offered lib pod_name pod_namespace n k o
  carry_offer n m e k none h = (h.0, h.1 ∙ ap length e.0)
  carry_offer n m e k (some c) h = (h.0, gave_from lib pod_name pod_namespace n m k c e h.1)

  -- `AllocateNext` at a subnet of the network, whose cursor may have moved.
  offer_at-Ends :
      (n m : Network) (i : ℕ)
      → IsReady m
      → Alike n m
      → Has n.subnets i
      → Ends IsReady
          (Offered lib pod_name pod_namespace n)
          (at_subnet i (Subnet.allocate_next lib pod_name pod_namespace) m)
  offer_at-Ends n m i r e (t, at) =
      Ends-mono IsReady (Offered lib pod_name pod_namespace m) IsReady
        (Offered lib pod_name pod_namespace n)
        (at_subnet i (Subnet.allocate_next lib pod_name pod_namespace) m)
        (offer-Ends lib pod_name pod_namespace m i t r
          (subst (λ x. get_elem? x i ≡ some t) (sym e.0) at))
        (λ k h. h) (carry_offer n m e)

  one-Supplied :
      (n k : Network) (o : Option IpInfo)
      → Offered lib pod_name pod_namespace n k o
      → Ends IsReady (Supplied n) ((found o >>= λ ip. return (ip ∷ [])) k)
  one-Supplied n k none h = h.0
  one-Supplied n k (some c) h = (h.0, and_then h.1 no_more)

  at_place-Supplied :
      (n m : Network) (i : ℕ) (r : IsReady n)
      → IsPlace n r m i
      → Ends IsReady (Supplied n) (
          (at_subnet i (Subnet.allocate_next lib pod_name pod_namespace) >>= λ o.
          found o >>= λ ip. return (ip ∷ []))
            m)
  at_place-Supplied n m i r p =
      let (ready, same) = turned_lem n m r p.0 in
      Ends-bind IsReady (Offered lib pod_name pod_namespace n) (Supplied n)
        (at_subnet i (Subnet.allocate_next lib pod_name pod_namespace) m) _
        (offer_at-Ends n m i ready same p.1) (one-Supplied n)

  located-Supplied :
      (n : Network) (r : IsReady n) (look : M Network Error ℕ)
      → Ends (Turned n) (IsPlace n r) (look n)
      → Ends IsReady (Supplied n) (
          (wrap_err fail_subnet look >>= λ i.
          at_subnet i (Subnet.allocate_next lib pod_name pod_namespace) >>= λ o.
          found o >>= λ ip. return (ip ∷ []))
            n)
  located-Supplied n r look h =
      Ends-bind IsReady (IsPlace n r) (Supplied n) (wrap_err fail_subnet look n) _
        (Ends-wrap_err IsReady (IsPlace n r) fail_subnet (look n) (
          Ends-mono (Turned n) (IsPlace n r) IsReady (IsPlace n r) (look n) h
            (λ m t. (turned_lem n m r t).0) (λ m i q. q)))
        (λ m i p. at_place-Supplied n m i r p)

  ipv4_only-Supplied :
      (names : List String) (n : Network)
      → IsReady n
      → Ends IsReady (Supplied n) (allocate_ipv4_only lib names pod_name pod_namespace n)
  unfolding allocate_ipv4_only one_subnet
  ipv4_only-Supplied [] n r =
      located-Supplied n r (Network.get_ipv4_subnet "") (get_ipv4_subnet-Ends n r "")
  ipv4_only-Supplied (name ∷ []) n r =
      located-Supplied n r (Network.get_ipv4_subnet name) (get_ipv4_subnet-Ends n r name)
  ipv4_only-Supplied (name ∷ next ∷ names) n r = r

  ipv6_only-Supplied :
      (names : List String) (n : Network)
      → IsReady n
      → Ends IsReady (Supplied n) (allocate_ipv6_only lib names pod_name pod_namespace n)
  unfolding allocate_ipv6_only one_subnet
  ipv6_only-Supplied [] n r =
      located-Supplied n r (Network.get_ipv6_subnet "") (get_ipv6_subnet-Ends n r "")
  ipv6_only-Supplied (name ∷ []) n r =
      located-Supplied n r (Network.get_ipv6_subnet name) (get_ipv6_subnet-Ends n r name)
  ipv6_only-Supplied (name ∷ next ∷ names) n r = r

  -- A place of the network is one when another subnet has changed.
  still_there :
      (n m : Network) (c : IpInfo) (i : ℕ)
      → GaveOut lib pod_name pod_namespace n m c
      → Has n.subnets i
      → Has m.subnets i
  still_there n m c i g (t, at) = get_elem?-lt m.subnets.subnets i (
      subst (λ x. i < length x) (sym g.stands)
        (omega (
          arith,
          lt_of_get_elem? n.subnets.subnets i at,
          length-set n.subnets.subnets g.place g.after,
        )))

  -- What the IPv6 side comes to, after the IPv4 side gave an address.
  recycled :
      (n k m : Network) (v4 : ℕ) (c : IpInfo) (o : Option IpInfo)
      → GaveOut lib pod_name pod_namespace n k c
      → Has k.subnets v4
      → Offered lib pod_name pod_namespace k m o
      → Ends IsReady (Supplied n) (pair_or_recycle lib v4 c o m)
  unfolding pair_or_recycle give_back
  recycled n k m v4 c none g (t, at) (ready, same) =
      let (u, here) =
        get_elem?-lt m.subnets.subnets v4
          (omega (arith, lt_of_get_elem? k.subnets.subnets v4 at, same)) in
      Ends-bind IsReady (λ w x. IsReady w) (Supplied n)
        (at_subnet v4 (modify (Subnet.release (lib.ip_string c.address.ip))) m) _
        (Ends-mono IsReady _ IsReady (λ w x. IsReady w)
          (give_back (lib.ip_string c.address.ip) v4 m)
          (give_back-Ends (lib.ip_string c.address.ip) m m v4 u ready refl here) (λ w h. h)
          (λ w x h. h.0))
        (λ w x h. h)
  recycled n k m v4 c (some d) g at h = (h.0, and_then g (and_then h.1 no_more))

  after_v4 :
      (n k : Network) (v4 v6 : ℕ) (o : Option IpInfo)
      → Has n.subnets v4
      → Has n.subnets v6
      → Offered lib pod_name pod_namespace n k o
      → Ends IsReady (Supplied n) (
          (found o >>= λ v4_ip.
          at_subnet v6 (Subnet.allocate_next lib pod_name pod_namespace) >>= λ v6_candidate.
          pair_or_recycle lib v4 v4_ip v6_candidate)
            k)
  after_v4 n k v4 v6 none at4 at6 h = h.0
  after_v4 n k v4 v6 (some c) at4 at6 (ready, g) =
      Ends-bind IsReady (Offered lib pod_name pod_namespace k) (Supplied n)
        (at_subnet v6 (Subnet.allocate_next lib pod_name pod_namespace) k) _
        (offer_at-Ends k k v6 ready (refl, refl) (still_there n k c v6 g at6))
        (λ m o h. recycled n k m v4 c o g (still_there n k c v4 g at4) h)

  pair-Supplied :
      (n m : Network) (p : ℕ × ℕ) (r : IsReady n)
      → Both n r m p
      → Ends IsReady (Supplied n) (allocate_pair lib pod_name pod_namespace p m)
  unfolding allocate_pair
  pair-Supplied n m (v4, v6) r (turns, (at4, at6)) =
      let (ready, same) = turned_lem n m r turns in
      Ends-bind IsReady (Offered lib pod_name pod_namespace n) (Supplied n)
        (at_subnet v4 (Subnet.allocate_next lib pod_name pod_namespace) m) _
        (offer_at-Ends n m v4 ready same at4) (λ k o h. after_v4 n k v4 v6 o at4 at6 h)

  pair_located-Supplied :
      (n : Network) (r : IsReady n) (v4_name v6_name : String)
      → Ends IsReady (Supplied n) (
          (wrap_err fail_subnet (Network.get_paired_dual_stack_subnets v4_name v6_name)
              >>= allocate_pair lib pod_name pod_namespace)
            n)
  pair_located-Supplied n r v4_name v6_name =
      let look = Network.get_paired_dual_stack_subnets v4_name v6_name n in
      Ends-bind IsReady (Both n r) (Supplied n)
        (wrap_err fail_subnet (Network.get_paired_dual_stack_subnets v4_name v6_name) n) _
        (Ends-wrap_err IsReady (Both n r) fail_subnet look (
          Ends-mono (Turned n) (Both n r) IsReady (Both n r) look (paired-Ends n r v4_name v6_name)
            (λ m t. (turned_lem n m r t).0) (λ m p q. q)))
        (λ m p h. pair-Supplied n m p r h)

  dual_stack-Supplied :
      (names : List String) (n : Network)
      → IsReady n
      → Ends IsReady (Supplied n) (allocate_dual_stack lib names pod_name pod_namespace n)
  unfolding allocate_dual_stack two_subnets
  dual_stack-Supplied [] n r = pair_located-Supplied n r "" ""
  dual_stack-Supplied (name ∷ []) n r = r
  dual_stack-Supplied (v4 ∷ v6 ∷ []) n r = pair_located-Supplied n r v4 v6
  dual_stack-Supplied (v4 ∷ v6 ∷ next ∷ names) n r = r

  -- On a network set whose networks are ready, Allocate of the dual-stack allocator does not panic in any
  -- mode and on any list of subnets, leaves every network ready whatever it answers, and every address of
  -- its answer was given out in turn: available and not in use in one subnet of the network, which now
  -- records it for the pod; no other subnet or network has changed.
  pub allocate-Supplies :
      (mode : IpFamilyMode) (network : String) (subnets : List String) (s : NetworkSet)
      → AllReady s
      → Ends AllReady
          (λ s' cs. AllReady s' × Changed (λ n m cs. GaveAll cs n m) network s s' cs)
          (allocate lib mode network subnets pod_name pod_namespace s)
  unfolding allocate
  allocate-Supplies ipv4_only network subnets s all =
      at_network-Ends (λ n m cs. GaveAll cs n m) not_found_network network
        (allocate_ipv4_only lib subnets pod_name pod_namespace) s all (ipv4_only-Supplied subnets)
  allocate-Supplies ipv6_only network subnets s all =
      at_network-Ends (λ n m cs. GaveAll cs n m) not_found_network network
        (allocate_ipv6_only lib subnets pod_name pod_namespace) s all (ipv6_only-Supplied subnets)
  allocate-Supplies dual_stack network subnets s all =
      at_network-Ends (λ n m cs. GaveAll cs n m) not_found_network network
        (allocate_dual_stack lib subnets pod_name pod_namespace) s all (dual_stack-Supplied subnets)
  allocate-Supplies (other _) network subnets s all = all
