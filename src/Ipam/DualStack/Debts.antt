-- ===== src/Ipam/DualStack/Debts.antt =====
-- The addresses that the dual-stack allocator has given out of a network, and their return by name and
-- text (pkg/ipam/allocator/dualstack_allocator.go).
use mathlib.Core.Option
use native.Mathlib.Decide.{ℕ_discrete}
use hybridnet.Base.{
  ℕ, ◌≡◌, ◌∙◌, refl, ap, sym, subst, inl, inr, Bool, false, ◌&&◌, ◌||◌, List, [], ◌∷◌, none, some,
  String, ◌==◌, arith, str_eq, eq_iff, contains, Bool-cases, Option-cases,
}
use hybridnet.Base.Dict.{lookup, lookup-insert, has_of_lookup}
use hybridnet.Net.{AddressLib}
use hybridnet.Ipam.Types.{IpInfo, Network}
use hybridnet.Ipam.Subnet.{new_ip}
use hybridnet.Ipam.Allocator.Safety.{GaveOut}
use hybridnet.Ipam.DualStack.Supply.{GaveAll, no_more, and_then}
use hybridnet.Ipam.Network.Records.{
  Profile, profile, record_of, profile_at, record_at, SameShape, IsFit, SameShape-IsFit,
  set-SameShape, record_at_self, record_at_ne,
}

-- The places and texts that are owed.
abbrev pub owed : List (ℕ × String) → ℕ → String → Bool
owed [] i text = false
owed ((j, other) ∷ rest) i text = j == i && str_eq other text || owed rest i text

-- Each address belongs to a subnet of the network, in which it was free and is not reserved.
pub data Debts (lib : AddressLib) (n : Network) : List IpInfo → List (ℕ × String) → Type 0 where
  none_owed : Debts lib n [] []
  owes :
      {c : IpInfo} {cs : List IpInfo} {rest : List (ℕ × String)} (i : ℕ) (text : String)
      (p : Profile)
      → profile_at n i ≡ some p
      → c.subnet ≡ p.name
      → c.net_id ≡ p.net_id
      → lib.ip_string c.address.ip ≡ text
      → contains text p.reserved ≡ false
      → record_at n i text ≡ none
      → Debts lib n cs rest
      → Debts lib n (c ∷ cs) ((i, text) ∷ rest)

-- What has been given out of the network `n`, and what `m` still records of it.
pub record Owing (lib : AddressLib) (n m : Network) (cs : List IpInfo) (rest : List (ℕ × String))
    : Type 0 where
  pub shape : SameShape n m
  pub debts : Debts lib n cs rest
  pub others :
      (i : ℕ) (text : String) → owed rest i text ≡ false → record_at m i text ≡ record_at n i text

-- Every address has the number of its network.
abbrev pub Numbered : List IpInfo → Type 0
Numbered [] = Unit {0}
Numbered (ip ∷ ips) = (n : ℕ) × (ip.net_id ≡ some n) × Numbered ips

module _ (lib : AddressLib) where
  pub Debts-Numbered :
      (n : Network)
      → IsFit lib n
      → (cs : List IpInfo) (rest : List (ℕ × String)) → Debts lib n cs rest
      → Numbered cs
  Debts-Numbered n f [] rest none_owed = tt
  Debts-Numbered n f (c ∷ cs) rest (owes {rest = left} i text p at sub id word unr free ds) =
      let (k, numbered) = f.numbered i p at in (k, id ∙ numbered, Debts-Numbered n f cs left ds)

  -- Debts to a network are debts to one of its shape that records no more.
  Debts-back :
      (n k : Network) (cs : List IpInfo) (rest : List (ℕ × String))
      → SameShape n k
      → ((i : ℕ) (text : String) → record_at k i text ≡ none → record_at n i text ≡ none)
      → Debts lib k cs rest
      → Debts lib n cs rest
  Debts-back n k cs rest same less none_owed = none_owed
  Debts-back n k cs rest same less (owes {rest = left} i text p at sub id word unr free ds) =
      owes i text p (sym (same.profiles i) ∙ at) sub id word unr (less i text free)
        (Debts-back n k _ left same less ds)

  module _ (pod_name pod_namespace : String) (n k : Network) (c : IpInfo) (f : IsFit lib n)
      (g : GaveOut lib pod_name pod_namespace n k c) where
    open g use {place, before, after, stood, stands, fresh}

    gave-SameShape : SameShape n k
    gave-SameShape =
        set-SameShape n k place before after stood stands g.indexed
          (record_path fresh.same_name fresh.same_available fresh.same_reserved fresh.same_net_id)
      where
        record_path :
            after.name ≡ before.name
            → after.available_ips.ips ≡ before.available_ips.ips
            → after.reserved_list ≡ before.reserved_list
            → after.net_id ≡ before.net_id
            → profile after ≡ profile before
        record_path a b c d = cc (a, b, c, d)

    profile_before : profile_at n place ≡ some (profile before)
    profile_before = ap (Option.map profile) stood

    -- The records of the other addresses.
    gave_others :
        (i : ℕ) (text : String)
        → (place == i && str_eq fresh.text text) ≡ false
        → record_at k i text ≡ record_at n i text
    gave_others i text ne = elim (ℕ_discrete place i) [
      | yes same ↦
          subst (λ x. record_at k x text ≡ record_at n x text) same
            (record_at_self n k place before after text stood stands
              ∙ ap (lookup text) fresh.recorded
              ∙ lookup-insert fresh.text text c before.using_ips
              ∙ ground (arith, ne, same)
              ∙ sym (ap (record_of text) stood))
      | no other ↦ record_at_ne n k place i after text other stands
    ]

    free_before : record_at n place fresh.text ≡ none
    free_before =
        ap (record_of fresh.text) stood ∙ elim (Option-cases (lookup fresh.text before.using_ips)) [
          | inl no_ ↦ no_
          | inr (d, there) ↦
              let a = has_of_lookup fresh.text before.using_ips d there in
              absurd (ground (arith, a, fresh.was_free))
        ]

    less_before : (i : ℕ) (text : String) → record_at k i text ≡ none → record_at n i text ≡ none
    less_before i text h = elim (Bool-cases (place == i && str_eq fresh.text text)) [
      | inl e ↦
          let p : place ≡ i = ground (arith, e) in
          let q : fresh.text ≡ text = (eq_iff fresh.text text).0 (ground (arith, e)) in
          subst (λ x. record_at n x text ≡ none) p
            (subst (λ x. record_at n place x ≡ none) q free_before)
      | inr ne ↦ sym (gave_others i text ne) ∙ h
    ]

    -- The debt of one address more.
    gave-Owing :
        (m : Network) (cs : List IpInfo) (rest : List (ℕ × String))
        → Owing lib k m cs rest
        → Owing lib n m (c ∷ cs) ((place, fresh.text) ∷ rest)
    unfolding new_ip
    gave-Owing m cs rest o =
        let fit = f.written place (profile before) fresh.text profile_before fresh.was_available in
        record {
          shape = record {
            indexed = o.shape.indexed ∙ gave-SameShape.indexed;
            profiles = λ i. o.shape.profiles i ∙ gave-SameShape.profiles i;
          };
          debts =
              owes place fresh.text (profile before) profile_before (rw (fresh.content) refl)
                (rw (fresh.content) refl) (rw (fresh.content) fit.1) fit.0 free_before
                (Debts-back n k cs rest gave-SameShape less_before o.debts);
          others = λ i text free.
              o.others i text (ground (arith, free)) ∙ gave_others i text (ground (arith, free));
        }

  -- What the allocator has given is owed.
  pub GaveAll-Owing :
      (pod_name pod_namespace : String) (cs : List IpInfo) (n m : Network)
      → IsFit lib n
      → GaveAll lib pod_name pod_namespace cs n m
      → (rest : List (ℕ × String)) × Owing lib n m cs rest
  GaveAll-Owing pod_name pod_namespace [] n m f no_more = (
    [],
    record {
      shape = record { indexed = refl; profiles = λ i. refl };
      debts = none_owed;
      others = λ i text h. refl;
    },
  )
  GaveAll-Owing pod_name pod_namespace (c ∷ cs) n m f (and_then {k = k} g gs) =
      let same = gave-SameShape pod_name pod_namespace n k c f g in
      let (rest, o) =
        GaveAll-Owing pod_name pod_namespace cs k m (SameShape-IsFit lib n k f same) gs in
      ((g.place, g.fresh.text) ∷ rest, gave-Owing pod_name pod_namespace n k c f g m cs rest o)
