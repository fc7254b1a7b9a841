-- ===== src/Ipam/Allocator/Returns.antt =====
-- What `Release` of pkg/ipam/allocator/allocator.go promises over a ready network set.
use mathlib.Core.Option
use hybridnet.Base.{
  ℕ, ◌≡◌, ◌≢◌, refl, sym, subst, true, false, none, some, String, get_elem?, set, contains, eq_iff,
  arith,
}
use hybridnet.Base.Dict.{lookup}
use hybridnet.Base.Outcome.{M, ◌>>=◌, wrap_err, modify}
use hybridnet.Base.Outcome.Ends.{Ends, Ends-mono, Ends-bind, Ends-wrap_err}
use hybridnet.Ipam.Types.{Subnet, Network, NetworkSet, Error, fail_subnet}
use hybridnet.Ipam.Subnet
use hybridnet.Ipam.Subnet.Changes.{as_reserved, release-IsSynced, lookup-release}
use hybridnet.Ipam.Network
use hybridnet.Ipam.Network.{at_network, at_subnet}
use hybridnet.Ipam.Network.Ready.{
  IsReady, turned-IsReady, replaced-IsReady, Alike, Turned, Located, get_subnet-Ends, AllReady,
  Changed, at_network-Ends, at_subnet-Ends,
}
use hybridnet.Ipam.Allocator.{release, missing_network}

-- The subnet at a place of the network took the address back, and no other place has changed. The
-- address is free, unless it is reserved; no other record has changed.
pub record TookBack (ip : String) (n m : Network) (x : Unit {0}) : Type 0 where
  pub place : ℕ
  pub before : Subnet
  pub after : Subnet
  pub stood : get_elem? n.subnets.subnets place ≡ some before
  pub stands : m.subnets.subnets ≡ set n.subnets.subnets place after
  pub freed : contains ip before.reserved_list ≡ false → lookup ip after.using_ips ≡ none
  pub reserved :
      contains ip before.reserved_list ≡ true
      → lookup ip after.using_ips ≡ Option.map as_reserved (lookup ip before.using_ips)
  pub kept : (j : String) → j ≢ ip → lookup j after.using_ips ≡ lookup j before.using_ips

pub turned_lem : (n m : Network) → IsReady n → Turned n m → IsReady m × (Alike n m)
turned_lem n m r (j, e, lt) = (rw e (turned-IsReady n j r lt), (rw e refl, rw e refl))

module _ (ip : String) where
  unfoldable pub give_back : ℕ → M Network Error (Unit {0})
  give_back i = at_subnet i (modify (Subnet.release ip))

  pub give_back-Ends :
      (n m : Network) (i : ℕ) (t : Subnet)
      → IsReady m
      → m.subnets.subnets ≡ n.subnets.subnets
      → get_elem? n.subnets.subnets i ≡ some t
      → Ends IsReady (λ k x. IsReady k × TookBack ip n k x) (give_back i m)
  unfolding give_back
  give_back-Ends n m i t r same at =
      let here = subst (λ x. get_elem? x i ≡ some t) (sym same) at in
      at_subnet-Ends IsReady (λ k x. IsReady k × TookBack ip n k x) i (modify (Subnet.release ip)) m
        t here
        (
          replaced-IsReady m i (Subnet.release ip t) r (release-IsSynced ip t (r.synced i t here)),
          record {
            place = i;
            before = t;
            after = Subnet.release ip t;
            stood = at;
            stands = rw same refl;
            freed = λ e. ground (arith, lookup-release ip ip t, eq_iff ip ip, e);
            reserved = λ e. ground (arith, lookup-release ip ip t, eq_iff ip ip, e);
            kept = λ j ne. ground (arith, lookup-release ip j t, eq_iff ip j);
          },
        )

  pub release_body-Ends :
      (subnet : String) (n : Network)
      → IsReady n
      → Ends IsReady
          (λ m x. IsReady m × TookBack ip n m x)
          ((wrap_err fail_subnet (Network.get_subnet subnet) >>= give_back) n)
  release_body-Ends subnet n r =
      Ends-bind IsReady (Located n) (λ m x. IsReady m × TookBack ip n m x)
        (wrap_err fail_subnet (Network.get_subnet subnet) n) give_back
        (Ends-wrap_err IsReady (Located n) fail_subnet (Network.get_subnet subnet n) (
          Ends-mono (Turned n) (Located n) IsReady (Located n) (Network.get_subnet subnet n)
            (get_subnet-Ends n r subnet) (λ m h. (turned_lem n m r h).0) (λ m i h. h)))
        (λ m i h.
          let (ready, same) = turned_lem n m r h.0 in give_back-Ends n m i h.1.0 ready same.0 h.1.1)

  -- On a network set whose networks are ready, Release does not panic, leaves every network ready
  -- whatever it answers, and when it succeeds one subnet of the network has taken the address back: the
  -- address is free there, or, if the subnet reserves it, its record stays as reserved; the records of
  -- all other addresses, the other subnets and the other networks are as they were.
  pub release-Ends :
      (network subnet : String) (s : NetworkSet)
      → AllReady s
      → Ends AllReady
          (λ s' x. AllReady s' × Changed (TookBack ip) network s s' x)
          (release network subnet ip s)
  unfolding release give_back
  release-Ends network subnet s all =
      at_network-Ends (TookBack ip) missing_network network
        (wrap_err fail_subnet (Network.get_subnet subnet) >>= give_back) s all
        (release_body-Ends subnet)
