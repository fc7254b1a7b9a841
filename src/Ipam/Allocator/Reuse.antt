-- ===== src/Ipam/Allocator/Reuse.antt =====
-- `Release` and then `Allocate` of pkg/ipam/allocator/allocator.go.
use hybridnet.Base.{
  ℕ, ◌≡◌, ◌∙◌, refl, ap, subst, ◌⊎◌, inl, inr, true, false, some, String, get_elem?,
  get_elem?-set_self, lt_of_get_elem?, contains, eq_iff, is_empty, arith,
}
use hybridnet.Base.Dict.{lookup, insert, lookup-insert}
use hybridnet.Base.Outcome.{ok, modify, wrap_err}
use hybridnet.Net.{AddressLib}
use hybridnet.Ipam.Types.{IpInfo, Subnet, Network, NetworkSet, fail_subnet}
use hybridnet.Ipam.Subnet
use hybridnet.Ipam.Subnet.Again.{has-release}
use hybridnet.Ipam.Subnet.Changes.{release-IsSynced}
use hybridnet.Ipam.Network.{get_subnet}
use hybridnet.Ipam.Network.Ready.{AllReady, replaced, replaced-IsReady, insert-AllReady}
use hybridnet.Ipam.Allocator.{allocate, release, missing_network}
use hybridnet.Ipam.Allocator.Finds.{
  HasFree, bind_ok, wrap_err_ok, subnet_ok, at_network_ok, named_lem, allocate-Finds,
}

module _ (s : NetworkSet) (all : AllReady s) (network : String) (n : Network)
    (there : lookup network s ≡ some n) (subnet : String) (i : ℕ) (t : Subnet)
    (named : is_empty subnet ≡ false) (known : lookup subnet n.subnets.subnet_index_map ≡ some i)
    (at : get_elem? n.subnets.subnets i ≡ some t) (ip : String) where
  -- The network and the set after the release.
  abbrev without : Network
  without = replaced n i (Subnet.release ip t)

  release_run : release network subnet ip s ≡ ok (insert network without s) tt
  unfolding release
  release_run = at_network_ok missing_network network _ s n without tt there (
      bind_ok (wrap_err fail_subnet (get_subnet subnet)) _ n n i
        (wrap_err_ok fail_subnet (get_subnet subnet) n n i (named_lem n i t subnet at named known))
      ∙ subnet_ok i (modify (Subnet.release ip)) n t (Subnet.release ip t) tt at refl)

  without-HasFree : contains ip t.available_ips.ips ≡ true → HasFree without i (Subnet.release ip t)
  unfolding Subnet.release
  without-HasFree there_ =
      let synced = (all network n there).synced i t at in
      record {
        there =
            get_elem?-set_self n.subnets.subnets i (Subnet.release ip t)
              (lt_of_get_elem? n.subnets.subnets i at);
        ip = ip;
        available = there_;
        unused = ground (arith, has-release ip ip t (synced.unreserved ip there_), eq_iff ip ip);
      }

  same_name :
      (j : ℕ) (u : Subnet)
      → get_elem? without.subnets.subnets j ≡ some u
      → (j ≡ i) ⊎ (is_empty subnet ≡ true)
      → u.name ≡ t.name
  unfolding Subnet.release
  same_name j u here (inr e) = absurd (cc (e, named))
  same_name j u here (inl q) =
      let lt = lt_of_get_elem? n.subnets.subnets i at in
      let first = get_elem?-set_self n.subnets.subnets i (Subnet.release ip t) lt in
      let e : get_elem? without.subnets.subnets i ≡ some u =
        subst (λ x. get_elem? without.subnets.subnets x ≡ some u) q here in
      let same : u ≡ Subnet.release ip t = cc (e, first) in ap (λ (x : Subnet). x.name) same

  -- On a network set whose networks are ready, Release of an available address of a subnet that it names,
  -- as the index of its network has it, succeeds; an Allocate after it that names the same subnet
  -- succeeds too, whoever held the address before, with a record of that subnet.
  pub allocate-release :
      (lib : AddressLib) (pod_name pod_namespace : String)
      → contains ip t.available_ips.ips ≡ true
      → (s' : NetworkSet) × (s'' : NetworkSet) × (c : IpInfo) × (release network subnet ip s
          ≡ ok s' tt)
        × (allocate lib network subnet pod_name pod_namespace s' ≡ ok s'' c)
        × (c.subnet ≡ t.name)
  allocate-release lib pod_name pod_namespace there_ =
      let r = all network n there in
      let ready =
        replaced-IsReady n i (Subnet.release ip t) r (release-IsSynced ip t (r.synced i t at)) in
      let now : lookup network (insert network without s) ≡ some without =
        lookup-insert network network without s ∙ ground (arith, eq_iff network network) in
      let (s'', c, j, u, run, here, of_subnet, same) =
        allocate-Finds lib pod_name pod_namespace (insert network without s)
          (insert-AllReady network without s all ready) network without now i (Subnet.release ip t)
          (without-HasFree there_) subnet (inl (named, known)) in
      (_, s'', c, release_run, run, of_subnet ∙ same_name j u here same)
