-- ===== src/Ipam/Subnet/Changes.antt =====
-- `Assign` and `Release` of pkg/ipam/types/subnet.go.
use mathlib.Core.Option
use hybridnet.Base.{
  ◌∙◌, ◌≡◌, ◌≢◌, ◌⊎◌, refl, inl, inr, ◌||◌, ◌&&◌, true, false, Bool, Option, none, some, String,
  contains, eq_iff, Bool-cases, Option-cases, str_eq, arith, if◌then◌else◌,
}
use hybridnet.Base.Dict.{lookup, lookup-insert, lookup-delete, has-delete, delete-Distinct}
use hybridnet.Base.Outcome.{Fault, Outcome, ok, err, fault, left_by}
use hybridnet.Net.{AddressLib}
use hybridnet.Ipam.Types.{Subnet, IpInfo, status_using, status_reserved, not_available_assigned_ip}
use hybridnet.Ipam.IpSet
use hybridnet.Ipam.IpSet.Keys.{keys-update, lookup-update}
use hybridnet.Ipam.Subnet.{new_ip, is_reserved_ip, contains_addr, assign_contained, assign, release}
use hybridnet.Ipam.Subnet.Invariant.{IsSynced, using-IsSynced, added-IsSynced}

-- An update of an entry leaves a synced subnet.
updated-IsSynced :
    (ip : String) (s : Subnet)
    → IsSynced s
    → (pod_name pod_namespace status : String)
    → IsSynced (record s { using_ips = IpSet.update ip pod_name pod_namespace status s.using_ips })
updated-IsSynced ip s v pod_name pod_namespace status =
    let e = keys-update ip pod_name pod_namespace status s.using_ips in
    using-IsSynced s _ v (rw e v.using_distinct) (rw e v.reserved_using) (rw e v.accounted)

module _ (ip : String) (s : Subnet) (v : IsSynced s) where
  -- `Release` leaves a synced subnet.
  pub release-IsSynced : IsSynced (release ip s)
  unfolding release
  release-IsSynced = elim (Bool-cases (contains ip s.reserved_list)) [
    | inl r ↦ rw (r, release, is_reserved_ip) (updated-IsSynced ip s v "" "" status_reserved)
    | inr r ↦
        rw (r, release, is_reserved_ip)
          (using-IsSynced s _ v (delete-Distinct ip s.using_ips v.using_distinct)
            (λ k m. ground (arith, v.reserved_using k m, has-delete ip k s.using_ips, eq_iff ip k))
            (λ k m. ground (arith, v.accounted k, has-delete ip k s.using_ips)))
  ]

-- A call that returns, with a state left behind of which `P` holds.
abbrev pub Settles : {S E A : Type 0} → (S → Type 0) → S → Outcome S E A → Type 0
Settles P s o = P (left_by s o) × ((x : Fault) → o ≢ fault x)

Settles-either :
    {S E A : Type 0} (s t : S) (r : A) (e : E) (P : S → Type 0)
    → P t
    → P s
    → (a b : Bool) → Settles P s (if a then ok t r else if b then ok t r else err s e)
Settles-either s t r e P p q true b = (p, λ x h. cc)
Settles-either s t r e P p q false true = (p, λ x h. cc)
Settles-either s t r e P p q false false = (q, λ x h. cc)

-- Who may take an address: nobody holds it, the pod itself does, or it is reserved and the pod forces it.
abbrev pub MayTake : String → String → String → Bool → Subnet → Type 0
MayTake pod_name pod_namespace ip forced s =
    (lookup ip s.using_ips ≡ none)
    ⊎ ((c : IpInfo) × (lookup ip s.using_ips ≡ some c)
        × (((c.pod_namespace ≡ pod_namespace) × (c.pod_name ≡ pod_name))
            ⊎ ((forced ≡ true) × (c.status ≡ status_reserved))))

module _ (lib : AddressLib) (pod_name pod_namespace ip : String) (forced : Bool) where
  -- What `Assign` answers to a pod with a name and a namespace when it succeeds: the address is one
  -- of the subnet, the pod may take it, it is now recorded for the pod as in use, the answer is that
  -- record, and the record of no other address has changed.
  abbrev pub Taken : Subnet → Subnet → Option IpInfo → Type 0
  Taken s t r =
      (contains_addr lib s (lib.parse_ip ip) ≡ true)
      × MayTake pod_name pod_namespace ip forced s
      × ((c : IpInfo) × (r ≡ some c)
          × (lookup ip t.using_ips ≡ some c)
          × (c.pod_name ≡ pod_name)
          × (c.pod_namespace ≡ pod_namespace)
          × (c.status ≡ status_using))
      × ((j : String) → j ≢ ip → lookup j t.using_ips ≡ lookup j s.using_ips)

  assign-eq-ok :
      (s t : Subnet) (r : Option IpInfo)
      → assign lib pod_name pod_namespace ip forced s ≡ ok t r
      → (contains_addr lib s (lib.parse_ip ip) ≡ true)
        × (assign_contained lib pod_name pod_namespace ip forced s ≡ ok t r)
  unfolding assign
  assign-eq-ok s t r h = ground arith

  free_Taken :
      (s t : Subnet) (r : Option IpInfo)
      → contains_addr lib s (lib.parse_ip ip) ≡ true
      → lookup ip s.using_ips ≡ none
      → assign_contained lib pod_name pod_namespace ip forced s ≡ ok t r
      → Taken s t r
  unfolding assign_contained new_ip
  free_Taken s t r inside e h =
      let c = new_ip lib s ip pod_name pod_namespace status_using in
      let self = lookup-insert ip ip c s.using_ips in
      (
        inside,
        inl e,
        (
          c,
          ground (arith, self, eq_iff ip ip),
          ground (arith, self, eq_iff ip ip),
          refl,
          refl,
          refl,
        ),
        λ j ne. ground (arith, lookup-insert ip j c s.using_ips, eq_iff ip j),
      )

  held-MayTake :
      (s t : Subnet) (r : Option IpInfo) (c : IpInfo)
      → lookup ip s.using_ips ≡ some c
      → assign_contained lib pod_name pod_namespace ip forced s ≡ ok t r
      → MayTake pod_name pod_namespace ip forced s
        × (t ≡ record s {
          using_ips = IpSet.update ip pod_name pod_namespace status_using s.using_ips;
        })
        × (r ≡ lookup ip t.using_ips)
  unfolding assign_contained
  held-MayTake s t r c e h =
      let same_ns = eq_iff c.pod_namespace pod_namespace in
      let same_name = eq_iff c.pod_name pod_name in
      let reserved = eq_iff c.status status_reserved in
      (inr (c, e, ground (arith, same_ns, same_name, reserved)), ground arith, ground arith)

  held_Taken :
      (s t : Subnet) (r : Option IpInfo) (c : IpInfo)
      → pod_name ≢ ""
      → pod_namespace ≢ ""
      → contains_addr lib s (lib.parse_ip ip) ≡ true
      → lookup ip s.using_ips ≡ some c
      → MayTake pod_name pod_namespace ip forced s
      → t ≡ record s { using_ips = IpSet.update ip pod_name pod_namespace status_using s.using_ips }
      → r ≡ lookup ip t.using_ips
      → Taken s t r
  unfolding IpSet.updated
  held_Taken s t r c n m inside e may te re =
      let c' = IpSet.updated pod_name pod_namespace status_using c in
      let at = lookup-update ip pod_name pod_namespace status_using s.using_ips in
      let here : lookup ip t.using_ips ≡ some c' = ground (arith, te, e, at ip, eq_iff ip ip) in
      (
        inside,
        may,
        (
          c',
          re ∙ here,
          here,
          ground (arith, eq_iff pod_name ""),
          ground (arith, eq_iff pod_namespace ""),
          refl,
        ),
        λ j ne. ground (arith, te, at j, eq_iff ip j),
      )

  -- When Assign succeeds for a pod with a name and a namespace, the subnet contains the address,
  -- nobody else held it (unless it was reserved and the pod forces it), it is now recorded for the
  -- pod as in use, the answer is that record, and the record of no other address has changed.
  pub assign-Taken :
      (s t : Subnet) (r : Option IpInfo)
      → pod_name ≢ ""
      → pod_namespace ≢ ""
      → assign lib pod_name pod_namespace ip forced s ≡ ok t r
      → Taken s t r
  assign-Taken s t r n m h =
      let (inside, run) = assign-eq-ok s t r h in
      elim (Option-cases (lookup ip s.using_ips)) [
        | inl e ↦ free_Taken s t r inside e run
        | inr (c, e) ↦
            let (may, te, re) = held-MayTake s t r c e run in
            held_Taken s t r c n m inside e may te re
      ]

  -- If the address is available or reserved in a synced subnet, `Assign` does not panic, and leaves a
  -- synced subnet, whatever it answers.
  pub assign-Settles :
      (s : Subnet)
      → IsSynced s
      → contains ip s.available_ips.ips || contains ip s.reserved_list ≡ true
      → Settles IsSynced s (assign lib pod_name pod_namespace ip forced s)
  unfolding assign assign_contained
  assign-Settles s v a = elim (Bool-cases (contains_addr lib s (lib.parse_ip ip))) [
    | inr out ↦ rw (out, assign) (v, λ x h. cc)
    | inl inside ↦ elim (Option-cases (lookup ip s.using_ips)) [
      | inl e ↦ rw (inside, assign, e, assign_contained) (added-IsSynced s ip _ v a, λ x h. cc)
      | inr (c, e) ↦
          let using = IpSet.update ip pod_name pod_namespace status_using s.using_ips in
          rw (inside, assign, e, assign_contained)
            (Settles-either s _ (IpSet.get ip using) not_available_assigned_ip IsSynced
              (updated-IsSynced ip s v pod_name pod_namespace status_using) v
              (str_eq c.pod_namespace pod_namespace && str_eq c.pod_name pod_name)
              (forced && str_eq c.status status_reserved))
    ]
  ]

-- A record with the status of a reserved address.
abbrev pub as_reserved : IpInfo → IpInfo
as_reserved c = record c { status = status_reserved }

-- What `Release` leaves of the record of each address: that of the released address goes, but a
-- reserved one stays with its pod, as reserved; every other is as it was.
pub lookup-release :
    (ip j : String) (s : Subnet)
    → lookup j (release ip s).using_ips ≡ (
        if str_eq ip j
        then (if contains ip s.reserved_list
            then Option.map as_reserved (lookup j s.using_ips)
            else none)
        else lookup j s.using_ips)
unfolding release IpSet.updated
lookup-release ip j s = elim (Bool-cases (contains ip s.reserved_list)) [
  | inl r ↦ rw (r, release, is_reserved_ip) (lookup-update ip "" "" status_reserved s.using_ips j)
  | inr r ↦ rw (r, release, is_reserved_ip) (lookup-delete ip j s.using_ips)
]

-- To assign an address that nobody holds and that is not reserved, and to release it, leaves the
-- record of every address as it was.
pub release-assign :
    (lib : AddressLib) (pod_name pod_namespace ip : String) (forced : Bool) (s t : Subnet)
    (r : Option IpInfo)
    → lookup ip s.using_ips ≡ none
    → contains ip s.reserved_list ≡ false
    → assign lib pod_name pod_namespace ip forced s ≡ ok t r
    → (j : String) → lookup j (release ip t).using_ips ≡ lookup j s.using_ips
unfolding assign assign_contained
release-assign lib pod_name pod_namespace ip forced s t r e u h j =
    let c = new_ip lib s ip pod_name pod_namespace status_using in
    ground (arith, lookup-release ip j t, lookup-insert ip j c s.using_ips, eq_iff ip j)
