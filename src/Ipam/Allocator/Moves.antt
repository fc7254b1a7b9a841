-- ===== src/Ipam/Allocator/Moves.antt =====
-- What `AllocateNext` and `Release` of pkg/ipam/types/subnet.go, called by the allocator, do to the pool of
-- addresses of a network.
use mathlib.Core.Option
use hybridnet.Base.{
  ℕ, ◌≡◌, ◌∙◌, refl, ap, sym, inl, inr, false, Option, none, some, String, pos, get_elem?, str_eq,
  eq_iff, contains, arith, Bool-cases, Option-cases,
}
use hybridnet.Base.Dict.{lookup, lookup-insert, has, has_of_lookup}
use hybridnet.Base.Outcome.{M, ◌>>=◌, wrap_err, modify}
use hybridnet.Base.Outcome.Ends.{Ends, Ends-mono, Ends-bind, Ends-wrap_err}
use hybridnet.Net.{AddressLib}
use hybridnet.Ipam.Types.{Map, IpInfo, Subnet, Network, Error, status_using, fail_subnet}
use hybridnet.Ipam.Subnet
use hybridnet.Ipam.Subnet.{new_ip, allocate_next}
use hybridnet.Ipam.Subnet.Allocate.{given, moved, allocate_next-Allocates}
use hybridnet.Ipam.Subnet.Changes.{as_reserved, lookup-release}
use hybridnet.Ipam.Network
use hybridnet.Ipam.Network.{at_network, at_subnet}
use hybridnet.Ipam.Network.Ready.{
  IsReady, replaced, Turned, Located, get_subnet-Ends, at_subnet-Ends,
}
use hybridnet.Ipam.Allocator.{found}
use hybridnet.Ipam.Allocator.Returns.{turned_lem}
use hybridnet.Ipam.Allocator.Pool.{
  entry_of, given_back, Unchanged, Took, Back, stood, self_entry, before_entry, kept, one_changed,
}

lookup_of_not_has :
    (ip : String) (using : Map IpInfo) → has ip using ≡ false → lookup ip using ≡ none
lookup_of_not_has ip using free = elim (Option-cases (lookup ip using)) [
  | inl no_ ↦ no_
  | inr (d, there) ↦ let a = has_of_lookup ip using d there in absurd (cc (a, free))
]

entry_self :
    (ip : String) (t : Subnet)
    → entry_of ip (some (Subnet.release ip t)) ≡ given_back (entry_of ip (some t))
unfolding Subnet.release
entry_self ip t = elim (Bool-cases (contains ip t.reserved_list)) [
  | inl r ↦
      let q : lookup ip (Subnet.release ip t).using_ips
          ≡ Option.map as_reserved (lookup ip t.using_ips) =
        lookup-release ip ip t ∙ ground (arith, eq_iff ip ip, r) in
      ap (λ x. (x, contains ip t.reserved_list)) q ∙ rw (r) refl
  | inr r ↦
      let q : lookup ip (Subnet.release ip t).using_ips ≡ none =
        lookup-release ip ip t ∙ ground (arith, eq_iff ip ip, r) in
      ap (λ x. (x, contains ip t.reserved_list)) q ∙ rw (r) refl
]

entry_ne :
    (ip : String) (t : Subnet) (x : String)
    → str_eq ip x ≡ false
    → entry_of x (some (Subnet.release ip t)) ≡ entry_of x (some t)
unfolding Subnet.release
entry_ne ip t x ne =
    ap (λ y. (y, contains x t.reserved_list)) (lookup-release ip x t ∙ rw (ne) refl)

module _ (lib : AddressLib) (pod_name pod_namespace : String) where
  -- The record is one for the pod.
  abbrev pub ForPod : IpInfo → Type 0
  ForPod c = (c.pod_name ≡ pod_name) × (c.pod_namespace ≡ pod_namespace) × (c.status ≡ status_using)

  -- `AllocateNext` at a subnet of the network, whose cursor may have moved.
  pub allocate_next-Took :
      (n m : Network) (i : ℕ) (t : Subnet)
      → IsReady m
      → m.subnets.subnets ≡ n.subnets.subnets
      → get_elem? n.subnets.subnets i ≡ some t
      → Ends
          (Unchanged n)
          (λ k c. Took n k c × ForPod c)
          ((at_subnet i (allocate_next lib pod_name pod_namespace) >>= found) m)
  unfolding new_ip
  allocate_next-Took n m i t r e at =
      Ends-bind (Unchanged n) Offer (λ k c. Took n k c × ForPod c)
        (at_subnet i (allocate_next lib pod_name pod_namespace) m) found
        (at_subnet-Ends (Unchanged n) Offer i (allocate_next lib pod_name pod_namespace) m t
          (stood n m i t t at e)
          (elim (allocate_next-Allocates lib pod_name pod_namespace t
            (r.synced i t (stood n m i t t at e)).slice) [
              | inl (_, j, _, run) ↦ rw run (λ x. kept n m i t (moved t j) at e x.0 x.1 (λ _. refl))
              | inr (j, ip, _, _, free, run) ↦
                  let c = new_ip lib t ip pod_name pod_namespace status_using in
                  rw run (taken j ip free, (refl, refl, refl))
            ]))
        offered
    where
      Offer : Network → Option IpInfo → Type 0
      Offer k none = Unchanged n k
      Offer k (some c) = Took n k c × ForPod c

      offered :
          (k : Network) (o : Option IpInfo)
          → Offer k o
          → Ends (Unchanged n) (λ k c. Took n k c × ForPod c) (found o k)
      offered k none h = h
      offered k (some c) h = h

      taken :
          (j : ℕ) (ip : String)
          → has ip t.using_ips ≡ false
          → let c = new_ip lib t ip pod_name pod_namespace status_using in
            Took n (replaced m i (given t (pos j) ip c)) c
      taken j ip free =
          let c = new_ip lib t ip pod_name pod_namespace status_using in
          let u = given t (pos j) ip c in
          let reserved = contains ip t.reserved_list in
          record {
            key = (i, ip);
            reserved = reserved;
            free =
                before_entry n m i t t at e ip
                ∙ ap (λ x. (x, reserved)) (lookup_of_not_has ip t.using_ips free);
            held =
                self_entry n m i t u at e ip
                ∙ ap (λ x. (x, reserved))
                    (lookup-insert ip ip c t.using_ips ∙ ground (arith, eq_iff ip ip));
            others = one_changed n m i t u at e ip (λ x ne.
                ap (λ y. (y, contains x t.reserved_list))
                  (lookup-insert ip x c t.using_ips ∙ rw (ne) refl));
          }

-- `Release` at a subnet.
pub release-Back :
    (ip : String) (n m : Network) (i : ℕ) (t : Subnet)
    → m.subnets.subnets ≡ n.subnets.subnets
    → get_elem? n.subnets.subnets i ≡ some t
    → Ends (Unchanged n) (λ k _. Back ip n k) (at_subnet i (modify (Subnet.release ip)) m)
release-Back ip n m i t e at =
    at_subnet-Ends (Unchanged n) (λ k _. Back ip n k) i (modify (Subnet.release ip)) m t
      (stood n m i t t at e)
      (record {
        place = i;
        back =
            self_entry n m i t (Subnet.release ip t) at e ip
            ∙ entry_self ip t
            ∙ ap given_back (sym (before_entry n m i t t at e ip));
        others = one_changed n m i t (Subnet.release ip t) at e ip (entry_ne ip t);
      })

-- A call that looks a subnet up.
pub located-Ends :
    {A : Type 0} (Q : Network → A → Type 0) (name : String) (f : ℕ → M Network Error A)
    (n : Network)
    → IsReady n
    → ((m : Network) (i : ℕ) (t : Subnet)
        → IsReady m
        → m.subnets.subnets ≡ n.subnets.subnets
        → get_elem? n.subnets.subnets i ≡ some t
        → Ends (Unchanged n) Q (f i m))
    → Ends (Unchanged n) Q ((wrap_err fail_subnet (Network.get_subnet name) >>= f) n)
located-Ends Q name f n r step =
    Ends-bind (Unchanged n) (Located n) Q (wrap_err fail_subnet (Network.get_subnet name) n) f
      (Ends-wrap_err (Unchanged n) (Located n) fail_subnet (Network.get_subnet name n) (
        Ends-mono (Turned n) (Located n) (Unchanged n) (Located n) (Network.get_subnet name n)
          (get_subnet-Ends n r name)
          (λ m h j. ap (λ x. entry_of j.1 (get_elem? x j.0)) (turned_lem n m r h).1.0)
          (λ m i h. h)))
      (λ m i h. let (ready, same) = turned_lem n m r h.0 in step m i h.1.0 ready same.0 h.1.1)
