-- ===== src/Ipam/Allocator/Pool.antt =====
-- The allocator of pkg/ipam/allocator/allocator.go as a pool of addresses, which forgets cursors,
-- availability, indexes and networks' own data.
use mathlib.Core.Option
use native.Mathlib.Decide.{ℕ_discrete}
use hybridnet.Base.{
  ℕ, ◌≡◌, ◌∙◌, ap, sym, subst, Bool, false, ◌&&◌, Option, none, some, String, ◌==◌, get_elem?,
  get_elem?-set_self, get_elem?-set_ne, lt_of_get_elem?, ◌≢◌, true, str_eq, contains, arith,
}
use hybridnet.Base.Dict.{lookup}
use hybridnet.Ipam.Types.{IpInfo, Subnet, Network}
use hybridnet.Ipam.Subnet.Changes.{as_reserved}
use hybridnet.Ipam.Network.Ready.{replaced}

-- What a pool keeps of an address: its record, and whether it is reserved.
abbrev pub Entry : Type 0
Entry = Option IpInfo × Bool

abbrev pub entry_of : String → Option Subnet → Entry
entry_of text none = (none, false)
entry_of text (some t) = (lookup text t.using_ips, contains text t.reserved_list)

abbrev pub entries : Network → ℕ × String → Entry
entries n k = entry_of k.1 (get_elem? n.subnets.subnets k.0)

-- An entry whose address is given back: a reserved address keeps its record, as reserved.
abbrev pub given_back : Entry → Entry
given_back (c, true) = (Option.map as_reserved c, true)
given_back (c, false) = (none, false)

-- Every entry but that of the key is as it was.
abbrev pub Others : {K : Type 0} → (K → K → Bool) → K → (K → Entry) → (K → Entry) → Type 0
Others {K = K} same k p q = (j : K) → same k j ≡ false → q j ≡ p j

abbrev pub same_address : ℕ × String → ℕ × String → Bool
same_address k j = k.0 == j.0 && str_eq k.1 j.1

-- Calls at a network: nothing changes; an address without a record gets one; an address is given back.
abbrev pub Unchanged : Network → Network → Type 0
Unchanged n m = (j : ℕ × String) → entries m j ≡ entries n j

pub record Took (n m : Network) (c : IpInfo) : Type 0 where
  pub key : ℕ × String
  pub reserved : Bool
  pub free : entries n key ≡ (none, reserved)
  pub held : entries m key ≡ (some c, reserved)
  pub others : Others same_address key (entries n) (entries m)

pub record Back (ip : String) (n m : Network) : Type 0 where
  pub place : ℕ
  pub back : entries m (place, ip) ≡ given_back (entries n (place, ip))
  pub others : Others same_address (place, ip) (entries n) (entries m)

-- A subnet in the place of another, by what it records.
module _ (n m : Network) (i : ℕ) (t u : Subnet) (at : get_elem? n.subnets.subnets i ≡ some t)
    (e : m.subnets.subnets ≡ n.subnets.subnets) where
  pub stood : get_elem? m.subnets.subnets i ≡ some t
  stood = ap (λ x. get_elem? x i) e ∙ at

  pub self_entry : (text : String) → entries (replaced m i u) (i, text) ≡ entry_of text (some u)
  self_entry text =
      ap (entry_of text)
        (get_elem?-set_self m.subnets.subnets i u (lt_of_get_elem? m.subnets.subnets i stood))

  other_entry :
      (j : ℕ) (text : String) → i ≢ j → entries (replaced m i u) (j, text) ≡ entries n (j, text)
  other_entry j text other =
      ap (entry_of text) (get_elem?-set_ne m.subnets.subnets u other)
      ∙ ap (λ x. entry_of text (get_elem? x j)) e

  pub before_entry : (text : String) → entries n (i, text) ≡ entry_of text (some t)
  before_entry text = ap (entry_of text) at

  -- An entry that the two subnets share.
  pub kept :
      (j : ℕ) (x : String)
      → (i ≡ j → entry_of x (some u) ≡ entry_of x (some t))
      → entries (replaced m i u) (j, x) ≡ entries n (j, x)
  kept j x keep = elim (ℕ_discrete i j) [
    | yes same ↦
        subst (λ y. entries (replaced m i u) (y, x) ≡ entries n (y, x)) same
          (self_entry x ∙ keep same ∙ sym (before_entry x))
    | no other ↦ other_entry j x other
  ]

  -- One address of the subnet has changed.
  pub one_changed :
      (text : String)
      → ((x : String) → str_eq text x ≡ false → entry_of x (some u) ≡ entry_of x (some t))
      → Others same_address (i, text) (entries n) (entries (replaced m i u))
  one_changed text keep (j, x) ne = kept j x (λ same. keep x (ground (arith, ne, same)))
