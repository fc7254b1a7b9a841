-- ===== src/Api/Valid.antt =====
-- What `ValidateAddressRange` of pkg/apis/networking/v1/utils.go accepts.
use hybridnet.Base.{
  ◌≡◌, ◌≢◌, ◌⊎◌, refl, sym, subst, inl, inr, true, false, List, [], ◌∷◌, none, some, String, pos,
  ltb_ℤ, str_eq, eq_iff, is_empty, Bool-cases, Option-cases, arith, if◌then◌else◌,
}
use hybridnet.Net.{Ip, NetIp, Cidr, AddressLib, equal, cidr_contains}
use hybridnet.Api.Types.{AddressRange, ParseCidr, version_ipv4, version_ipv6, is_not_v4}
use hybridnet.Api.Range.{
  RangeError, bad_text, given_outside, all_ones, check_listed, check_lists, check_gateway,
  check_cidr, check_texts, validate_address_range, invalid_reserved_ip, reserved_ip_not_in_cidr,
  invalid_excluded_ip, excluded_ip_not_in_cidr,
}

module _ (lib : AddressLib) (parse_cidr : ParseCidr) where
  open lib use {parse_ip, cmp}

  -- The text is an address of the CIDR.
  abbrev pub Inside : Cidr → String → Type 0
  Inside c t = (a : Ip) × (parse_ip t ≡ some a) × (cidr_contains c (some a) ≡ true)

  abbrev pub AllInside : Cidr → List String → Type 0
  AllInside c [] = Unit {0}
  AllInside c (t ∷ ts) = Inside c t × AllInside c ts

  check_listed_lem :
      (invalid outside : String → RangeError) (c : Cidr) (ts : List String)
      → check_listed lib parse_cidr invalid outside c ts ≡ none
      → AllInside c ts
  unfolding check_listed
  check_listed_lem invalid outside c [] h = tt
  check_listed_lem invalid outside c (t ∷ ts) h = elim (Option-cases (parse_ip t)) [
    | inl e ↦ ground (arith, e, h)
    | inr (a, e) ↦ elim (Bool-cases (cidr_contains c (some a))) [
      | inl i ↦ ((a, e, i), check_listed_lem invalid outside c ts (ground (arith, e, i, h)))
      | inr o ↦ ground (arith, e, o, h)
    ]
  ]

  -- The gateway is an address of the CIDR, of the family of the version.
  abbrev pub GatewayInside : AddressRange → Cidr → Type 0
  GatewayInside r c =
      (a : Ip) × (parse_ip r.gateway ≡ some a)
      × (is_not_v4 (some a) ≡ str_eq r.version version_ipv6)
      × (cidr_contains c (some a) ≡ true)

  -- A range that starts and ends in the CIDR, not in the wrong order, with a gateway of its family in
  -- the CIDR if it has one, and reserved and excluded addresses in the CIDR.
  pub record IsValid (r : AddressRange) (c : Cidr) : Type 0 where
    pub known_version : (r.version ≡ version_ipv4) ⊎ (r.version ≡ version_ipv6)
    pub not_single : all_ones c.mask ≡ false
    pub start_inside : r.start ≢ "" → Inside c r.start
    pub end_inside : r.end ≢ "" → Inside c r.end
    pub ordered :
        r.start ≢ "" → r.end ≢ "" → ltb_ℤ (pos 0) (cmp (parse_ip r.start) (parse_ip r.end)) ≡ false
    pub gateway_inside : r.gateway ≢ "" → GatewayInside r c
    pub reserved_inside : AllInside c r.reserved_ips
    pub excluded_inside : AllInside c r.exclude_ips

  check_lists_lem :
      (r : AddressRange) (c : Cidr)
      → check_lists lib parse_cidr r c ≡ none
      → AllInside c r.reserved_ips × AllInside c r.exclude_ips
  unfolding check_lists
  check_lists_lem r c h =
      let first =
        check_listed lib parse_cidr invalid_reserved_ip reserved_ip_not_in_cidr c r.reserved_ips in
      elim (Option-cases first) [
        | inl e ↦ (
          check_listed_lem _ _ c r.reserved_ips e,
          check_listed_lem invalid_excluded_ip excluded_ip_not_in_cidr c r.exclude_ips
              (ground (arith, e, h)),
        )
        | inr (x, e) ↦ absurd (ground (arith, e, h))
      ]

  given_lem :
      (c : Cidr) (t : String)
      → bad_text t (parse_ip t) ≡ false
      → given_outside c t (parse_ip t) ≡ false
      → t ≢ ""
      → Inside c t
  unfolding bad_text given_outside
  given_lem c t b g ne = elim (Option-cases (parse_ip t)) [
    | inl e ↦ absurd (ground (arith, e, eq_iff t "", b))
    | inr (a, e) ↦ (a, e, ground (arith, e, eq_iff t "", g))
  ]

  check_gateway_lem :
      (r : AddressRange) (c : Cidr)
      → check_gateway lib parse_cidr r (str_eq r.version version_ipv6) c ≡ none
      → (r.gateway ≢ "" → GatewayInside r c) × (check_lists lib parse_cidr r c ≡ none)
  unfolding check_gateway
  check_gateway_lem r c h = elim (Bool-cases (is_empty r.gateway)) [
    | inl e ↦ (λ ne. absurd (ne ((eq_iff r.gateway "").0 e)), ground (arith, e, h))
    | inr e ↦ elim (Option-cases (parse_ip r.gateway)) [
      | inl p ↦ absurd (ground (arith, e, p, h))
      | inr (g, p) ↦
          (λ ne. (g, p, ground (arith, e, p, h), ground (arith, e, p, h)), ground (arith, e, p, h))
    ]
  ]

  -- The tests that follow the parsing of the CIDR.
  check_cidr_lem :
      (r : AddressRange) (ip : NetIp) (c : Cidr)
      → check_cidr lib parse_cidr r (str_eq r.version version_ipv6) ip c ≡ none
      → (equal c.ip ip ≡ true)
        × (all_ones c.mask ≡ false)
        × (given_outside c r.start (parse_ip r.start) ≡ false)
        × (given_outside c r.end (parse_ip r.end) ≡ false)
        × (r.start ≢ ""
            → r.end ≢ ""
            → ltb_ℤ (pos 0) (cmp (parse_ip r.start) (parse_ip r.end)) ≡ false)
        × (check_gateway lib parse_cidr r (str_eq r.version version_ipv6) c ≡ none)
  unfolding check_cidr
  check_cidr_lem r ip c h = (
    ground (arith, h),
    ground (arith, h),
    ground (arith, h),
    ground (arith, h),
    λ s e. ground (arith, h, eq_iff r.start "", eq_iff r.end ""),
    ground (arith, h),
  )

  check_texts_lem :
      (r : AddressRange)
      → (r.version ≡ version_ipv4) ⊎ (r.version ≡ version_ipv6)
      → check_texts lib parse_cidr r (str_eq r.version version_ipv6) ≡ none
      → (ip : NetIp) × (c : Cidr) × (parse_cidr r.cidr ≡ some (ip, c))
        × (equal c.ip ip ≡ true)
        × IsValid r c
  unfolding check_texts
  check_texts_lem r v h = elim (Option-cases (parse_cidr r.cidr)) [
    | inl e ↦ absurd (ground (arith, e, h))
    | inr ((ip, c), e) ↦
        let bad_start : bad_text r.start (parse_ip r.start) ≡ false = ground (arith, e, h) in
        let bad_end : bad_text r.end (parse_ip r.end) ≡ false = ground (arith, e, h) in
        let (same, single, start, end, order, rest) =
          check_cidr_lem r ip c (ground (arith, e, h)) in
        let (gateway, lists) = check_gateway_lem r c rest in
        let (reserved, excluded) = check_lists_lem r c lists in
        (
          ip,
          c,
          e,
          same,
          record {
            known_version = v;
            not_single = single;
            start_inside = given_lem c r.start bad_start start;
            end_inside = given_lem c r.end bad_end end;
            ordered = order;
            gateway_inside = gateway;
            reserved_inside = reserved;
            excluded_inside = excluded;
          },
        )
  ]

  first_version :
      (r : AddressRange)
      → str_eq r.version version_ipv4 ≡ true
      → validate_address_range lib parse_cidr r ≡ none
      → check_texts lib parse_cidr r false ≡ none
  unfolding validate_address_range
  first_version r e h = rw (e, if◌then◌else◌) at h

  second_version :
      (r : AddressRange)
      → str_eq r.version version_ipv4 ≡ false
      → str_eq r.version version_ipv6 ≡ true
      → validate_address_range lib parse_cidr r ≡ none
      → check_texts lib parse_cidr r true ≡ none
  unfolding validate_address_range
  second_version r e f h = rw (e, f, if◌then◌else◌) at h

  -- A range that ValidateAddressRange accepts has a CIDR that parses and is written with its network
  -- address, and is valid for it.
  pub validate_address_range-IsValid :
      (r : AddressRange)
      → validate_address_range lib parse_cidr r ≡ none
      → (ip : NetIp) × (c : Cidr) × (parse_cidr r.cidr ≡ some (ip, c))
        × (equal c.ip ip ≡ true)
        × IsValid r c
  unfolding validate_address_range
  validate_address_range-IsValid r h = elim (Bool-cases (str_eq r.version version_ipv4)) [
    | inl e ↦
        let v = (eq_iff r.version version_ipv4).0 e in
        let f : str_eq r.version version_ipv6 ≡ false = rw v refl in
        check_texts_lem r (inl v)
          (subst (λ b. check_texts lib parse_cidr r b ≡ none) (sym f) (first_version r e h))
    | inr e ↦ elim (Bool-cases (str_eq r.version version_ipv6)) [
      | inl f ↦
          check_texts_lem r (inr ((eq_iff r.version version_ipv6).0 f))
            (subst (λ b. check_texts lib parse_cidr r b ≡ none) (sym f) (second_version r e f h))
      | inr f ↦ absurd (ground (arith, e, f, h))
    ]
  ]
