-- ===== src/Ipam/DualStack/Recovery.antt =====
-- What `Release` of pkg/ipam/allocator/dualstack_allocator.go promises over a ready network set.
use hybridnet.Base.{
  ◌≡◌, refl, subst, inl, inr, Bool-cases, List, [], ◌∷◌, String, length, ◌==◌, arith,
}
use hybridnet.Base.Outcome.{M, Outcome, ok, err, fault, ◌>>=◌, wrap_err}
use hybridnet.Base.Outcome.Ends.{Ends, Ends-mono, Ends-bind}
use hybridnet.Ipam.Types.{Network, NetworkSet, fail_subnet}
use hybridnet.Ipam.Network
use hybridnet.Ipam.Network.{at_subnet}
use hybridnet.Ipam.Network.Ready.{IsReady, AllReady, Changed, at_network-Ends}
use hybridnet.Ipam.Allocator.{missing_network}
use hybridnet.Ipam.Allocator.Returns.{TookBack, give_back, release_body-Ends}
use hybridnet.Ipam.Family.{IpFamilyMode, ipv4_only, ipv6_only, dual_stack, other}
use hybridnet.Ipam.DualStack.{release, release_ip, release_ips, release_all}

-- The network took the addresses back, one after the other.
pub data TookAll : List String → Network → Network → Type 0 where
  none_left : {n m : Network} → m.subnets.subnets ≡ n.subnets.subnets → TookAll [] n m
  one_more :
      {ip : String} {ips : List String} {n k m : Network}
      → TookBack ip n k tt
      → TookAll ips k m
      → TookAll (ip ∷ ips) n m

module _ {S E : Type 0} where
  abbrev after : {A B : Type 0} → Outcome S E A → (A → M S E B) → Outcome S E B
  after o f = elim o [ ok t a ↦ f a t | err t e ↦ err t e | fault x ↦ fault x ]

  after_assoc :
      {A B C : Type 0} (o : Outcome S E A) (f : A → M S E B) (g : B → M S E C)
      → after (after o f) g ≡ after o (λ a. f a >>= g)
  after_assoc (ok t a) f g = refl
  after_assoc (err t e) f g = refl
  after_assoc (fault x) f g = refl

release_all-Ends :
    (names ips : List String) (n : Network)
    → length names ≡ length ips
    → IsReady n
    → Ends IsReady (λ m x. IsReady m × TookAll ips n m) (release_all names ips n)
unfolding release_all give_back
release_all-Ends [] [] n e r = (r, none_left refl)
release_all-Ends [] (ip ∷ ips) n e r = absurd (omega arith)
release_all-Ends (name ∷ names) [] n e r = absurd (omega arith)
release_all-Ends (name ∷ names) (ip ∷ ips) n e r =
    subst (Ends IsReady (λ m x. IsReady m × TookAll (ip ∷ ips) n m))
      (after_assoc (wrap_err fail_subnet (Network.get_subnet name) n) (give_back ip)
        (λ _. release_all names ips))
      (Ends-bind IsReady (λ k x. IsReady k × TookBack ip n k x)
        (λ m x. IsReady m × TookAll (ip ∷ ips) n m)
        ((wrap_err fail_subnet (Network.get_subnet name) >>= give_back ip) n)
        (λ _. release_all names ips) (release_body-Ends ip name n r)
        (λ k x h.
          Ends-mono IsReady (λ m x. IsReady m × TookAll ips k m) IsReady
            (λ m x. IsReady m × TookAll (ip ∷ ips) n m) (release_all names ips k)
            (release_all-Ends names ips k (omega arith) h.0) (λ m f. f)
            (λ m y q. (q.0, one_more h.1 q.1))))

release_ips-Ends :
    (names ips : List String) (n : Network)
    → IsReady n
    → Ends IsReady (λ m x. IsReady m × TookAll ips n m) (release_ips names ips n)
unfolding release_ips
release_ips-Ends names ips n r = elim (Bool-cases (length names == length ips)) [
  | inl e ↦ rw (release_ips, e) (release_all-Ends names ips n (ground (arith, e)) r)
  | inr e ↦ rw (release_ips, e) r
]

release_ip-Ends :
    (names ips : List String) (n : Network)
    → IsReady n
    → Ends IsReady (λ m x. IsReady m × TookAll ips n m) (release_ip names ips n)
unfolding release_ip give_back
release_ip-Ends [] ips n r = r
release_ip-Ends (name ∷ []) [] n r = r
release_ip-Ends (name ∷ []) (ip ∷ []) n r =
    Ends-mono IsReady (λ m x. IsReady m × TookBack ip n m x) IsReady
      (λ m x. IsReady m × TookAll (ip ∷ []) n m)
      ((wrap_err fail_subnet (Network.get_subnet name) >>= give_back ip) n)
      (release_body-Ends ip name n r) (λ m f. f) (λ m x h. (h.0, one_more h.1 (none_left refl)))
release_ip-Ends (name ∷ []) (ip ∷ jp ∷ ips) n r = r
release_ip-Ends (name ∷ other_name ∷ names) ips n r = r

-- On a network set whose networks are ready, Release of the dual-stack allocator does not panic in any
-- mode and on any lists, leaves every network ready whatever it answers, and when it succeeds the network
-- has taken back every address of the list, one after the other, and no other network has changed.
pub release-Recovers :
    (mode : IpFamilyMode) (network : String) (subnets ips : List String) (s : NetworkSet)
    → AllReady s
    → Ends AllReady
        (λ s' x. AllReady s' × Changed (λ n m x. TookAll ips n m) network s s' x)
        (release mode network subnets ips s)
unfolding release
release-Recovers ipv4_only network subnets ips s all =
    at_network-Ends (λ n m x. TookAll ips n m) missing_network network (release_ip subnets ips) s
      all (release_ip-Ends subnets ips)
release-Recovers ipv6_only network subnets ips s all =
    at_network-Ends (λ n m x. TookAll ips n m) missing_network network (release_ip subnets ips) s
      all (release_ip-Ends subnets ips)
release-Recovers dual_stack network subnets ips s all =
    at_network-Ends (λ n m x. TookAll ips n m) missing_network network (release_ips subnets ips) s
      all (release_ips-Ends subnets ips)
release-Recovers (other _) network subnets ips s all = all
