-- ===== src/Ipam/Subnet/Contains.antt =====
-- `Contains` of pkg/ipam/types/subnet.go.
use hybridnet.Base.{◌≡◌, refl, inl, inr, true, false, none, some, pos, ltb_ℤ, arith, Option-cases}
use hybridnet.Net.{
  NetIp, Ip, Cidr, AddressLib, short, equal, cidr_contains, network_number_and_mask,
}
use hybridnet.Ipam.Types.{Subnet}
use hybridnet.Ipam.Subnet.{contains_addr, not_below, not_above, is_gateway}

-- Two addresses of one CIDR are of one length.
pub cidr_size :
    (c : Cidr) (a b : Ip)
    → cidr_contains c (some a) ≡ true
    → cidr_contains c (some b) ≡ true
    → (short a).size ≡ (short b).size
unfolding cidr_contains
cidr_size c a b h k = elim (Option-cases (network_number_and_mask c)) [
  | inl e ↦ ground (arith, e)
  | inr (n, e) ↦ ground (arith, e)
]

-- A CIDR that contains an address does not contain nil.
pub cidr_nil : (c : Cidr) (a : Ip) → cidr_contains c (some a) ≡ true → cidr_contains c none ≡ false
unfolding cidr_contains
cidr_nil c a h = elim (Option-cases (network_number_and_mask c)) [
  | inl e ↦ ground (arith, e)
  | inr (n, e) ↦ ground (arith, e)
]

cidr_contains-same :
    (c : Cidr) (a b : Ip) → short a ≡ short b → cidr_contains c (some a) ≡ cidr_contains c (some b)
unfolding cidr_contains
cidr_contains-same c a b e = ground (arith, e)

module _ (lib : AddressLib) (s : Subnet) where
  -- What a contained address satisfies, test by test.
  pub contains_addr-parts :
      (a : Ip) → contains_addr lib s (some a) ≡ true → cidr_contains s.cidr (some a) ≡ true
  unfolding contains_addr
  contains_addr-parts a h = ground arith

  pub contains_addr-not_below :
      (a b : Ip)
      → contains_addr lib s (some a) ≡ true
      → s.start ≡ some b
      → ltb_ℤ (lib.cmp (some a) (some b)) (pos 0) ≡ false
  unfolding contains_addr not_below
  contains_addr-not_below a b h e = ground arith

  pub contains_addr-not_above :
      (a b : Ip)
      → contains_addr lib s (some a) ≡ true
      → s.end ≡ some b
      → ltb_ℤ (pos 0) (lib.cmp (some a) (some b)) ≡ false
  unfolding contains_addr not_above
  contains_addr-not_above a b h e = ground arith

  not_below-same :
      (a b : Ip)
      → ((x : NetIp) → lib.cmp (some a) x ≡ lib.cmp (some b) x)
      → (x : NetIp) → not_below lib (some a) x ≡ not_below lib (some b) x
  unfolding not_below
  not_below-same a b c none = refl
  not_below-same a b c (some x) = rw (c (some x)) refl

  not_above-same :
      (a b : Ip)
      → ((x : NetIp) → lib.cmp (some a) x ≡ lib.cmp (some b) x)
      → (x : NetIp) → not_above lib (some a) x ≡ not_above lib (some b) x
  unfolding not_above
  not_above-same a b c none = refl
  not_above-same a b c (some x) = rw (c (some x)) refl

  is_gateway-same :
      (a b : Ip)
      → short a ≡ short b
      → (x : NetIp) → is_gateway lib x (some a) ≡ is_gateway lib x (some b)
  unfolding is_gateway equal
  is_gateway-same a b e none = refl
  is_gateway-same a b e (some x) = rw e refl

  -- The two forms of an address are one to `Contains`, if they are to `Cmp` and `String`.
  pub contains_addr-same :
      (a b : Ip)
      → short a ≡ short b
      → ((x : NetIp) → lib.cmp (some a) x ≡ lib.cmp (some b) x)
      → lib.ip_string (some a) ≡ lib.ip_string (some b)
      → contains_addr lib s (some a) ≡ contains_addr lib s (some b)
  unfolding contains_addr
  contains_addr-same a b e c t =
      rw
        (
          cidr_contains-same s.cidr a b e,
          not_below-same a b c s.start,
          not_above-same a b c s.end,
          is_gateway-same a b e s.gateway,
          t,
        )
        refl
