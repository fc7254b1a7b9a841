-- ===== src/Ipam/Network/Records.antt =====
-- The records and the shape of a network (pkg/ipam/types/network.go): what its methods change, and what stays.
use mathlib.Core.Option
use native.Mathlib.Decide.{ℕ_discrete}
use hybridnet.Base.{
  ℕ, ◌≡◌, ◌≢◌, ◌∙◌, refl, ap, sym, subst, inl, inr, true, false, List, Option, none, some, String,
  set, get_elem?, get_elem?-set_self, get_elem?-set_ne, lt_of_get_elem?, is_empty, contains,
  Option-cases,
}
use hybridnet.Base.Dict.{lookup}
use hybridnet.Net.{AddressLib}
use hybridnet.Ipam.Types.{IpInfo, Subnet, Network, NetworkSet}

-- What a subnet is apart from its records.
pub record Profile : Type 0 where
  pub name : String
  pub available : List String
  pub reserved : List String
  pub net_id : Option ℕ

abbrev pub profile : Subnet → Profile
profile t = record {
  name = t.name;
  available = t.available_ips.ips;
  reserved = t.reserved_list;
  net_id = t.net_id;
}

abbrev pub profile_at : Network → ℕ → Option Profile
profile_at n i = Option.map profile (get_elem? n.subnets.subnets i)

abbrev pub record_of : String → Option Subnet → Option IpInfo
record_of text none = none
record_of text (some t) = lookup text t.using_ips

-- The record of an address in the subnet at a place.
abbrev pub record_at : Network → ℕ → String → Option IpInfo
record_at n i text = record_of text (get_elem? n.subnets.subnets i)

-- The networks differ in records only.
pub record SameShape (n m : Network) : Type 0 where
  pub indexed : m.subnets.subnet_index_map ≡ n.subnets.subnet_index_map
  pub profiles : (i : ℕ) → profile_at m i ≡ profile_at n i

pub profile_there :
    (n m : Network) (i : ℕ) (t : Subnet)
    → profile_at m i ≡ profile_at n i
    → get_elem? n.subnets.subnets i ≡ some t
    → (u : Subnet) × (get_elem? m.subnets.subnets i ≡ some u) × (profile u ≡ profile t)
profile_there n m i t e at = elim (Option-cases (get_elem? m.subnets.subnets i)) [
  | inl no_ ↦
      absurd
        (let a = ap (Option.map profile) at in let b = ap (Option.map profile) no_ in cc (a, b, e))
  | inr (u, here) ↦ (
    u,
    here,
    (let a = ap (Option.map profile) at in let b = ap (Option.map profile) here in cc (a, b, e)),
  )
]

-- Every subnet of the network is indexed by its name and has the number of a network; its available
-- addresses are not reserved, and written as the library writes them.
pub record IsFit (lib : AddressLib) (n : Network) : Type 0 where
  pub named :
      (i : ℕ) (p : Profile)
      → profile_at n i ≡ some p
      → (is_empty p.name ≡ false) × (lookup p.name n.subnets.subnet_index_map ≡ some i)
  pub numbered : (i : ℕ) (p : Profile) → profile_at n i ≡ some p → (k : ℕ) × (p.net_id ≡ some k)
  pub written :
      (i : ℕ) (p : Profile) (text : String)
      → profile_at n i ≡ some p
      → contains text p.available ≡ true
      → (contains text p.reserved ≡ false) × (lib.ip_string (lib.parse_ip text) ≡ text)

pub SameShape-IsFit : (lib : AddressLib) (n m : Network) → IsFit lib n → SameShape n m → IsFit lib m
SameShape-IsFit lib n m f same = record {
  named = λ i p e.
      subst (λ x. (is_empty p.name ≡ false) × (lookup p.name x ≡ some i)) (sym same.indexed)
        (f.named i p (sym (same.profiles i) ∙ e));
  numbered = λ i p e. f.numbered i p (sym (same.profiles i) ∙ e);
  written = λ i p text e. f.written i p text (sym (same.profiles i) ∙ e);
}

-- A subnet in the place of one with its profile.
pub set-SameShape :
    (n m : Network) (i : ℕ) (t u : Subnet)
    → get_elem? n.subnets.subnets i ≡ some t
    → m.subnets.subnets ≡ set n.subnets.subnets i u
    → m.subnets.subnet_index_map ≡ n.subnets.subnet_index_map
    → profile u ≡ profile t
    → SameShape n m
set-SameShape n m i t u at e ei p = record {
  indexed = ei;
  profiles = λ k. elim (ℕ_discrete i k) [
    | yes same ↦
        subst (λ x. profile_at m x ≡ profile_at n x) same
          (ap (λ x. Option.map profile (get_elem? x i)) e
            ∙ ap (Option.map profile)
                (get_elem?-set_self n.subnets.subnets i u (lt_of_get_elem? n.subnets.subnets i at))
            ∙ ap some p
            ∙ sym (ap (Option.map profile) at))
    | no other ↦
        ap (λ x. Option.map profile (get_elem? x k)) e
        ∙ ap (Option.map profile) (get_elem?-set_ne n.subnets.subnets u other)
  ];
}

-- The records at a place that is written, and at the others.
pub record_at_self :
    (n m : Network) (i : ℕ) (t u : Subnet) (text : String)
    → get_elem? n.subnets.subnets i ≡ some t
    → m.subnets.subnets ≡ set n.subnets.subnets i u
    → record_at m i text ≡ lookup text u.using_ips
record_at_self n m i t u text at e =
    ap (λ x. record_of text (get_elem? x i)) e
    ∙ ap (record_of text)
        (get_elem?-set_self n.subnets.subnets i u (lt_of_get_elem? n.subnets.subnets i at))

pub record_at_ne :
    (n m : Network) (i k : ℕ) (u : Subnet) (text : String)
    → i ≢ k
    → m.subnets.subnets ≡ set n.subnets.subnets i u
    → record_at m k text ≡ record_at n k text
record_at_ne n m i k u text ne e = rw (e, get_elem?-set_ne n.subnets.subnets u ne) refl

-- The record of an address in the subnet at a place of a network.
abbrev pub network_record : Option Network → ℕ → String → Option IpInfo
network_record none i text = none
network_record (some n) i text = record_at n i text

abbrev pub record_in : NetworkSet → String → ℕ → String → Option IpInfo
record_in s name = network_record (lookup name s)

abbrev pub AllFit : AddressLib → NetworkSet → Type 0
AllFit lib s = (name : String) (n : Network) → lookup name s ≡ some n → IsFit lib n

-- Every subnet records what it recorded.
abbrev pub SameRecords : NetworkSet → NetworkSet → Type 0
SameRecords s t =
    (name : String) (i : ℕ) (text : String) → record_in t name i text ≡ record_in s name i text
