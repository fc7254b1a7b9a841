-- ===== src/Ipam/Network/Families.antt =====
-- `GetIPv4Subnet`, `GetIPv6Subnet` and `GetPairedDualStackSubnets` of pkg/ipam/types/network.go on a
-- ready network.
use hybridnet.Base.{
  ℕ, zero, suc, ◌≡◌, refl, sym, ap, subst, Bool, Bool-cases, not, ◌&&◌, inl, inr, List, [], ◌∷◌,
  some, String, is_empty, get_elem?, set, ◌==◌, if◌then◌else◌, if_rule,
}
use hybridnet.Base.Outcome.{M, ◌>>=◌, ◌>>◌, asks, throw, return}
use hybridnet.Base.Outcome.Ends.{Ends, Ends-bind, Ends-mono, Ends-put}
use hybridnet.Ipam.Types.{
  Subnet, SubnetSlice, Network, Error, is_ipv6_family, is_ipv4_family, mismatched_net_id,
}
use hybridnet.Ipam.Subnet
use hybridnet.Ipam.SubnetSlice
use hybridnet.Ipam.SubnetSlice.Families.{
  Moved, Has, HasBoth, named-Moved, ipv4-Moved, ipv6-Moved, pair-Moved,
}
use hybridnet.Ipam.Network.{
  at_slice, at_subnet, get_ipv4_subnet, get_ipv6_subnet, named_pair, get_paired_dual_stack_subnets,
}
use hybridnet.Ipam.Network.Ready.{IsReady, Turned, at_subnet-Ends}

set_same : (xs : List Subnet) (i : ℕ) (t : Subnet) → get_elem? xs i ≡ some t → set xs i t ≡ xs
set_same [] i t e = refl
set_same (x ∷ xs) zero t e = cc
set_same (x ∷ xs) (suc i) t e = ap (λ ys. x ∷ ys) (set_same xs i t e)

module _ (n : Network) (r : IsReady n) where
  -- Two subnets of the network.
  abbrev pub Both : Network → ℕ × ℕ → Type 0
  Both m p = Turned n m × HasBoth n.subnets p

  lifted :
      (k : Network)
      → Turned n k
      → (u : SubnetSlice) → Moved n.subnets u
      → Turned n (record k { subnets = u })
  lifted k (i, e, lt) u (j, f, lt') = (j, rw (e, f) refl, lt')

  slice-Ends :
      {A : Type 0} (R : A → Type 0) (m : M SubnetSlice Error A) (k : Network)
      → Turned n k
      → Ends (Moved n.subnets) (λ u a. Moved n.subnets u × R a) (m k.subnets)
      → Ends (Turned n) (λ w a. Turned n w × R a) (at_slice m k)
  slice-Ends R m k t h =
      Ends-put (Turned n) (λ w a. Turned n w × R a) (λ u. record k { subnets = u }) (m k.subnets)
        (Ends-mono (Moved n.subnets) (λ u a. Moved n.subnets u × R a)
          (λ u. Turned n (record k { subnets = u }))
          (λ u a. Turned n (record k { subnets = u }) × R a) (m k.subnets) h (λ u f. lifted k t u f)
          (λ u a q. (lifted k t u q.0, q.1)))

  slice-Moved : (k : Network) → Turned n k → Moved n.subnets k.subnets
  slice-Moved k (j, e, lt) = (j, rw (e) refl, lt)

  start : Turned n n
  start = (n.subnets.subnet_index, refl, r.counted.cursor)

  named-Ends :
      (name : String) (k : Network)
      → Turned n k
      → Ends
          (Turned n)
          (λ w i. Turned n w × Has n.subnets i)
          (at_slice (SubnetSlice.get_subnet name) k)
  named-Ends name k t =
      slice-Ends (Has n.subnets) (SubnetSlice.get_subnet name) k t
        (named-Moved n.subnets r.counted r.indexed name k.subnets (slice-Moved k t))

  -- A read of a subnet leaves the network as it is.
  read-Ends :
      {A : Type 0} (Q : Network → A → Type 0) (f : Subnet → A) (i : ℕ) (m : Network)
      → Turned n m
      → Has n.subnets i
      → ((a : A) → Q m a)
      → Ends (Turned n) Q (at_subnet i (asks f) m)
  read-Ends Q f i m (j, e, lt) (t, at) q =
      let here : get_elem? m.subnets.subnets i ≡ some t = rw (e) at in
      at_subnet-Ends (Turned n) Q i (asks f) m t here (
        subst (λ w. Q w (f t))
          (ap (λ xs. record m { subnets = record m.subnets { subnets = xs } })
            (sym (set_same m.subnets.subnets i t here)))
          (q (f t)))

  abbrev pub IsPlace : Network → ℕ → Type 0
  IsPlace w i = Turned n w × Has n.subnets i

  -- A subnet that the caller has named is given or refused by its family.
  family-Ends :
      (refuse : Bool → M Network Error ℕ) (i : ℕ) (k : Network)
      → Turned n k
      → Has n.subnets i
      → ((b : Bool) (w : Network) → Turned n w → Ends (Turned n) IsPlace (refuse b w))
      → Ends (Turned n) IsPlace ((at_subnet i (asks Subnet.is_ipv6) >>= refuse) k)
  family-Ends refuse i k t at q =
      Ends-bind (Turned n) (λ w a. Turned n w) IsPlace (at_subnet i (asks Subnet.is_ipv6) k) refuse
        (read-Ends (λ w a. Turned n w) Subnet.is_ipv6 i k t at (λ a. t)) (λ w a h. q a w h)

  pub get_ipv4_subnet-Ends : (name : String) → Ends (Turned n) IsPlace (get_ipv4_subnet name n)
  unfolding get_ipv4_subnet
  get_ipv4_subnet-Ends name = elim (Bool-cases (is_empty name)) [
    | inl e ↦
        rw (get_ipv4_subnet, e)
          (slice-Ends (Has n.subnets) SubnetSlice.get_available_ipv4_subnet n start
            (ipv4-Moved n.subnets r.counted r.indexed))
    | inr e ↦
        rw (get_ipv4_subnet, e)
          (Ends-bind (Turned n) IsPlace IsPlace (at_slice (SubnetSlice.get_subnet name) n) _
            (named-Ends name n start)
            (λ k i h. family-Ends _ i k h.0 h.1 (λ b w t.
              if_rule (λ m. Ends (Turned n) IsPlace (m w)) {b = b} {x = throw is_ipv6_family}
                {y = return i} (λ _. t) (λ _. (t, h.1)))))
  ]

  pub get_ipv6_subnet-Ends : (name : String) → Ends (Turned n) IsPlace (get_ipv6_subnet name n)
  unfolding get_ipv6_subnet
  get_ipv6_subnet-Ends name = elim (Bool-cases (is_empty name)) [
    | inl e ↦
        rw (get_ipv6_subnet, e)
          (slice-Ends (Has n.subnets) SubnetSlice.get_available_ipv6_subnet n start
            (ipv6-Moved n.subnets r.counted r.indexed))
    | inr e ↦
        rw (get_ipv6_subnet, e)
          (Ends-bind (Turned n) IsPlace IsPlace (at_slice (SubnetSlice.get_subnet name) n) _
            (named-Ends name n start)
            (λ k i h. family-Ends _ i k h.0 h.1 (λ b w t.
              if_rule (λ m. Ends (Turned n) IsPlace (m w)) {b = b} {x = return i}
                {y = throw is_ipv4_family} (λ _. (t, h.1)) (λ _. t))))
  ]

  abbrev Turns : {A : Type 0} → Network → A → Type 0
  Turns w a = Turned n w

  -- A test between two steps.
  check-Ends :
      {B : Type 0} (Q : Network → B → Type 0) (test : M Network Error (Unit {0}))
      (next : M Network Error B) (k : Network)
      → Ends (Turned n) (Turns {A = Unit {0}}) (test k)
      → ((w : Network) → Turned n w → Ends (Turned n) Q (next w))
      → Ends (Turned n) Q ((test >> next) k)
  check-Ends Q test next k h q =
      Ends-bind (Turned n) Turns Q (test k) (λ _. next) h (λ w x t. q w t)

  named_pair-Ends : (v4_name v6_name : String) → Ends (Turned n) Both (named_pair v4_name v6_name n)
  unfolding named_pair
  named_pair-Ends v4_name v6_name =
      Ends-bind (Turned n) IsPlace Both (at_slice (SubnetSlice.get_subnet v4_name) n) _
        (named-Ends v4_name n start)
        (λ k i h.
          Ends-bind (Turned n) Turns Both (at_subnet i (asks Subnet.is_ipv6) k) _
            (read-Ends Turns Subnet.is_ipv6 i k h.0 h.1 (λ a. h.0))
            (λ k b t.
              check-Ends Both (if b then throw is_ipv6_family else return tt) _ k
                (if_rule (λ m. Ends (Turned n) (Turns {A = Unit {0}}) (m k)) {b = b}
                  {x = throw is_ipv6_family} {y = return tt} (λ _. t) (λ _. t))
                (λ k t.
                  Ends-bind (Turned n) IsPlace Both (at_slice (SubnetSlice.get_subnet v6_name) k) _
                    (named-Ends v6_name k t)
                    (λ k j g.
                      Ends-bind (Turned n) Turns Both (at_subnet j (asks Subnet.is_ipv6) k) _
                        (read-Ends Turns Subnet.is_ipv6 j k g.0 g.1 (λ a. g.0))
                        (λ k b t.
                          check-Ends Both (if b then return tt else throw is_ipv4_family) _ k
                            (if_rule (λ m. Ends (Turned n) (Turns {A = Unit {0}}) (m k)) {b = b}
                              {x = return tt} {y = throw is_ipv4_family} (λ _. t) (λ _. t))
                            (λ k t. ids i j k h.1 g.1 t))))))
    where
      ids :
          (i j : ℕ) (k : Network)
          → Has n.subnets i
          → Has n.subnets j
          → Turned n k
          → Ends (Turned n) Both (
              (at_subnet i (asks (λ t. Subnet.unify_net_id t.net_id)) >>= λ v4_id.
              at_subnet j (asks (λ t. Subnet.unify_net_id t.net_id)) >>= λ v6_id.
              if v4_id == v6_id then return (i, j) else throw mismatched_net_id)
                k)
      ids i j k at_i at_j t =
          Ends-bind (Turned n) Turns Both (at_subnet i (asks (λ t. Subnet.unify_net_id t.net_id)) k)
            _ (read-Ends Turns (λ t. Subnet.unify_net_id t.net_id) i k t at_i (λ a. t))
            (λ k a t.
              Ends-bind (Turned n) Turns Both
                (at_subnet j (asks (λ t. Subnet.unify_net_id t.net_id)) k) _
                (read-Ends Turns (λ t. Subnet.unify_net_id t.net_id) j k t at_j (λ b. t))
                (λ k b t.
                  if_rule (λ m. Ends (Turned n) Both (m k)) {b = a == b} {x = return (i, j)}
                    {y = throw mismatched_net_id} (λ _. (t, (at_i, at_j))) (λ _. t)))

  pub paired-Ends :
      (v4_name v6_name : String)
      → Ends (Turned n) Both (get_paired_dual_stack_subnets v4_name v6_name n)
  unfolding get_paired_dual_stack_subnets
  paired-Ends v4_name v6_name =
      if_rule (λ m. Ends (Turned n) Both (m n))
        {b = not (is_empty v4_name) && not (is_empty v6_name)} {x = named_pair v4_name v6_name}
        {y = at_slice SubnetSlice.get_available_paired_dual_stack_subnets}
        (λ _. named_pair-Ends v4_name v6_name)
        (λ _.
          slice-Ends (HasBoth n.subnets) SubnetSlice.get_available_paired_dual_stack_subnets n start
            (pair-Moved n.subnets r.counted r.indexed))
