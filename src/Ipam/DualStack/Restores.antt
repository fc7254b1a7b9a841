-- ===== src/Ipam/DualStack/Restores.antt =====
-- `Release` of pkg/ipam/allocator/dualstack_allocator.go right after `Allocate`, over the network set.
use hybridnet.Base.{
  ℕ, suc, ◌≡◌, ◌∙◌, refl, ap, sym, subst, inl, inr, true, List, [], ◌∷◌, some, String, length, ◌==◌,
  str_eq, eq_iff, arith, Bool-cases, Option-cases,
}
use hybridnet.Base.Dict.{lookup, insert, lookup-insert}
use hybridnet.Base.Outcome.{M, Outcome, ok, err, fault, wrap_err}
use hybridnet.Base.Outcome.Ends.{Ends-ok}
use hybridnet.Net.{AddressLib}
use hybridnet.Ipam.Types.{IpInfo, Network, NetworkSet, Error, fail_subnet, not_found_network}
use hybridnet.Ipam.Subnet
use hybridnet.Ipam.Network
use hybridnet.Ipam.Network.{at_network, at_subnet}
use hybridnet.Ipam.Network.Ready.{AllReady, Changed}
use hybridnet.Ipam.Family.{IpFamilyMode, ipv4_only, ipv6_only, dual_stack, other}
use hybridnet.Ipam.Allocator.{found, missing_network}
use hybridnet.Ipam.DualStack.{
  one_subnet, allocate_ipv4_only, allocate_ipv6_only, allocate, release_ip, release_ips, release,
}
use hybridnet.Ipam.DualStack.Supply.{GaveAll, allocate-Supplies}
use hybridnet.Ipam.DualStack.Debts.{Owing, GaveAll-Owing, Numbered, Debts-Numbered}
use hybridnet.Ipam.Network.Records.{network_record, IsFit, AllFit, SameRecords}
use hybridnet.Ipam.DualStack.Payments.{subnets_of, texts_of, release_ip-Owing, release_all-Owing}

-- A postcondition of the results of successes alone.
abbrev Yields : {S E A : Type 0} → (A → Type 0) → Outcome S E A → Type 0
Yields Q (ok s a) = Q a
Yields Q (err s e) = Unit {0}
Yields Q (fault x) = Unit {0}

Yields-bind :
    {S E A B : Type 0} (Q : B → Type 0) (o : Outcome S E A) (f : A → M S E B)
    → ((s : S) (a : A) → Yields Q (f a s))
    → Yields Q (elim o [ ok t a ↦ f a t | err t e ↦ err t e | fault x ↦ fault x ])
Yields-bind Q (ok s a) f h = h s a
Yields-bind Q (err s e) f h = tt
Yields-bind Q (fault x) f h = tt

abbrev Single : List IpInfo → Type 0
Single cs = (c : IpInfo) × (cs ≡ c ∷ [])

module _ (lib : AddressLib) (pod_name pod_namespace : String) where
  ipv4_only-Single :
      (names : List String) (n : Network)
      → Yields Single (allocate_ipv4_only lib names pod_name pod_namespace n)
  unfolding allocate_ipv4_only
  ipv4_only-Single names n = Yields-bind Single (one_subnet names n) _ (λ a name.
      Yields-bind Single (wrap_err fail_subnet (Network.get_ipv4_subnet name) a) _ (λ b i.
        Yields-bind Single (at_subnet i (Subnet.allocate_next lib pod_name pod_namespace) b) _
          (λ c o. Yields-bind Single (found o c) _ (λ d ip. (ip, refl)))))

  ipv6_only-Single :
      (names : List String) (n : Network)
      → Yields Single (allocate_ipv6_only lib names pod_name pod_namespace n)
  unfolding allocate_ipv6_only
  ipv6_only-Single names n = Yields-bind Single (one_subnet names n) _ (λ a name.
      Yields-bind Single (wrap_err fail_subnet (Network.get_ipv6_subnet name) a) _ (λ b i.
        Yields-bind Single (at_subnet i (Subnet.allocate_next lib pod_name pod_namespace) b) _
          (λ c o. Yields-bind Single (found o c) _ (λ d ip. (ip, refl)))))

at_network-Yields :
    {A : Type 0} (Q : A → Type 0) (missing : Error) (name : String) (m : M Network Error A)
    (s : NetworkSet)
    → ((n : Network) → Yields Q (m n))
    → Yields Q (at_network missing name m s)
at_network-Yields {A = A} Q missing name m s h = elim (Option-cases (lookup name s)) [
  | inl no_ ↦ rw (no_, at_network) tt
  | inr (n, there) ↦ rw (there, at_network) (of (m n) (h n))
]
  where
    of :
        (o : Outcome Network Error A)
        → Yields Q o
        → Yields Q (elim o [
          | ok n' a ↦ ok (insert name n' s) a
          | err n' e ↦ err (insert name n' s) e
          | fault x ↦ fault x
        ])
    of (ok n a) k = k
    of (err n e) k = k
    of (fault x) k = k

lengths : (lib : AddressLib) (cs : List IpInfo) → length (subnets_of cs) ≡ length (texts_of lib cs)
lengths lib [] = refl
lengths lib (c ∷ cs) = ap suc (lengths lib cs)

module _ (lib : AddressLib) (n : Network) (f : IsFit lib n) where
  release_ips-Owing :
      (cs : List IpInfo) (rest : List (ℕ × String)) (m : Network)
      → Owing lib n m cs rest
      → (k : Network) × (release_ips (subnets_of cs) (texts_of lib cs) m ≡ ok k tt)
        × Owing lib n k [] []
  unfolding release_ips
  release_ips-Owing cs rest m o =
      let (k, run, done) = release_all-Owing lib n f cs rest m o in
      let e : (length (subnets_of cs) == length (texts_of lib cs)) ≡ true =
        ground (arith, lengths lib cs) in
      (k, rw (release_ips, e) run, done)

-- A method of a network that is there and that it changes.
at_network_run :
    (missing : Error) (name : String) (m : M Network Error (Unit {0})) (s : NetworkSet)
    (n k : Network)
    → m n ≡ ok k tt
    → at_network missing name m (insert name n s) ≡ ok (insert name k (insert name n s)) tt
at_network_run missing name m s n k e =
    let there : lookup name (insert name n s) ≡ some n =
      lookup-insert name name n s ∙ ground (arith, eq_iff name name) in
    rw (there, at_network, e) refl

-- A network set with the network put back has the records that it had.
same_records :
    (lib : AddressLib) (name : String) (s : NetworkSet) (n m k : Network)
    → lookup name s ≡ some n
    → Owing lib n k [] []
    → SameRecords s (insert name k (insert name m s))
same_records lib name s n m k there o key i text = elim (Bool-cases (str_eq name key)) [
  | inl e ↦
      let q : name ≡ key = (eq_iff name key).0 e in
      let now : lookup key (insert name k (insert name m s)) ≡ some k =
        lookup-insert name key k (insert name m s) ∙ rw (e) refl in
      let before : lookup key s ≡ some n = subst (λ x. lookup x s ≡ some n) q there in
      ap (λ x. network_record x i text) now
      ∙ o.others i text refl
      ∙ sym (ap (λ x. network_record x i text) before)
  | inr e ↦
      ap (λ x. network_record x i text)
        (lookup-insert name key k (insert name m s)
          ∙ rw (e) (lookup-insert name key m s ∙ rw (e) refl))
]

module _ (lib : AddressLib) (pod_name pod_namespace network : String) (s : NetworkSet)
    (all : AllReady s) (fit : AllFit lib s) (names : List String) where
  -- What a release after an allocation comes to.
  abbrev Restored : IpFamilyMode → NetworkSet → List IpInfo → Type 0
  Restored mode t cs =
      (u : NetworkSet) × (release mode network (subnets_of cs) (texts_of lib cs) t ≡ ok u tt)
      × SameRecords s u

  given :
      (mode : IpFamilyMode) (t : NetworkSet) (cs : List IpInfo)
      → allocate lib mode network names pod_name pod_namespace s ≡ ok t cs
      → AllReady t × Changed (λ n m cs. GaveAll lib pod_name pod_namespace cs n m) network s t cs
  given mode t cs e =
      Ends-ok AllReady
        (λ s' cs.
          AllReady s'
          × Changed (λ n m cs. GaveAll lib pod_name pod_namespace cs n m) network s s' cs)
        (allocate lib mode network names pod_name pod_namespace s)
        (allocate-Supplies lib pod_name pod_namespace mode network names s all) e

  single-Restored :
      (t : NetworkSet) (c : IpInfo)
      → Changed (λ n m cs. GaveAll lib pod_name pod_namespace cs n m) network s t (c ∷ [])
      → (u : NetworkSet) × (at_network missing_network network
            (release_ip (c.subnet ∷ []) (lib.ip_string c.address.ip ∷ []))
            t
          ≡ ok u tt)
        × SameRecords s u
  single-Restored t c (n, m, there, now, gs) =
      let (rest, o) =
        GaveAll-Owing lib pod_name pod_namespace (c ∷ []) n m (fit network n there) gs in
      let (k, run, done) = release_ip-Owing lib n (fit network n there) c rest m o in
      (
        insert network k (insert network m s),
        ap
              (at_network missing_network network
                (release_ip (c.subnet ∷ []) (lib.ip_string c.address.ip ∷ [])))
              now
            ∙ at_network_run missing_network network
                (release_ip (c.subnet ∷ []) (lib.ip_string c.address.ip ∷ [])) s m k run,
        same_records lib network s n m k there done,
      )

  pair-Restored :
      (t : NetworkSet) (cs : List IpInfo)
      → Changed (λ n m cs. GaveAll lib pod_name pod_namespace cs n m) network s t cs
      → Restored dual_stack t cs
  unfolding release
  pair-Restored t cs (n, m, there, now, gs) =
      let (rest, o) = GaveAll-Owing lib pod_name pod_namespace cs n m (fit network n there) gs in
      let (k, run, done) = release_ips-Owing lib n (fit network n there) cs rest m o in
      (
        insert network k (insert network m s),
        ap (at_network missing_network network (release_ips (subnets_of cs) (texts_of lib cs))) now
            ∙ at_network_run missing_network network (release_ips (subnets_of cs) (texts_of lib cs))
                s m k run,
        same_records lib network s n m k there done,
      )

  one_of :
      (mode : IpFamilyMode) (t : NetworkSet) (cs : List IpInfo)
      → allocate lib mode network names pod_name pod_namespace s ≡ ok t cs
      → Yields Single (allocate lib mode network names pod_name pod_namespace s)
      → Single cs
  one_of mode t cs e h = rw e at h

  -- After a successful allocation, a release of the addresses of the answer succeeds, and every subnet
  -- records what it recorded before.
  pub release-allocate :
      (mode : IpFamilyMode) (t : NetworkSet) (cs : List IpInfo)
      → allocate lib mode network names pod_name pod_namespace s ≡ ok t cs
      → Restored mode t cs
  unfolding allocate release
  release-allocate ipv4_only t cs e =
      let (c, one) = one_of ipv4_only t cs e (
        at_network-Yields Single not_found_network network
          (allocate_ipv4_only lib names pod_name pod_namespace) s
          (ipv4_only-Single lib pod_name pod_namespace names)) in
      subst (Restored ipv4_only t) (sym one) (
        single-Restored t c (
          subst (Changed (λ n m cs. GaveAll lib pod_name pod_namespace cs n m) network s t) one
            (given ipv4_only t cs e).1))
  release-allocate ipv6_only t cs e =
      let (c, one) = one_of ipv6_only t cs e (
        at_network-Yields Single not_found_network network
          (allocate_ipv6_only lib names pod_name pod_namespace) s
          (ipv6_only-Single lib pod_name pod_namespace names)) in
      subst (Restored ipv6_only t) (sym one) (
        single-Restored t c (
          subst (Changed (λ n m cs. GaveAll lib pod_name pod_namespace cs n m) network s t) one
            (given ipv6_only t cs e).1))
  release-allocate dual_stack t cs e = pair-Restored t cs (given dual_stack t cs e).1
  release-allocate (other _) t cs e = cc

  -- The addresses of an answer have network numbers.
  pub allocate-Numbered :
      (mode : IpFamilyMode) (t : NetworkSet) (cs : List IpInfo)
      → allocate lib mode network names pod_name pod_namespace s ≡ ok t cs
      → Numbered cs
  allocate-Numbered mode t cs e =
      let (n, m, there, now, gs) = (given mode t cs e).1 in
      let (rest, o) = GaveAll-Owing lib pod_name pod_namespace cs n m (fit network n there) gs in
      Debts-Numbered lib n (fit network n there) cs rest o.debts
