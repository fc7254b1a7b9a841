-- ===== src/Ipam/Subnet/Allocate.antt =====
-- `AllocateNext` of pkg/ipam/types/subnet.go.
use native.Mathlib.Nat.{mod-lt, mod-add-mod, add-mod-mod, add-mod_right, mod-eq_of_lt}
use native.Mathlib.Decide.{dec_lt}
use hybridnet.Base.{
  subst, ℕ, zero, suc, ◌+◌, ◌-◌, ◌%◌, ◌<◌, ◌≡◌, refl, ap, ◌∙◌, sym, ◌⊎◌, inl, inr, true, false,
  none, some, String, ℤ, pos, get_elem?, Included, get_elem?_of_contains, Bool-cases, arith,
}
use hybridnet.Base.Dict.{keys}
use hybridnet.Base.Outcome.{ok}
use hybridnet.Net.{AddressLib}
use hybridnet.Ipam.Types.{Subnet, IpInfo, status_using}
use hybridnet.Ipam.IpSlice.Cursor
use hybridnet.Ipam.IpSlice.Cursor.{slot, next_lem, mod-suc-mod}
use hybridnet.Ipam.IpSet
use hybridnet.Ipam.Subnet.{new_ip, allocate_rounds, allocate_next}

-- The subnet with its cursor at a place.
abbrev pub moved : Subnet → ℤ → Subnet
moved s i = record s { available_ips = record s.available_ips { ip_index = i } }

-- The subnet after an address is given out.
abbrev pub given : Subnet → ℤ → String → IpInfo → Subnet
given s i ip content = record s {
  available_ips = record s.available_ips { ip_index = i };
  using_ips = IpSet.add ip content s.using_ips;
}

-- The address at a place of the slice is in use.
abbrev UsedAt : Subnet → ℕ → Type 0
UsedAt s i =
    (ip : String) → get_elem? s.available_ips.ips i ≡ some ip → IpSet.has ip s.using_ips ≡ true

-- What a run of rounds from slot `k` comes to: every address that it met is in use, or the first that
-- is not is given out.
abbrev Rounds : AddressLib → String → String → Subnet → ℕ → ℕ → Type 0
Rounds lib pod_name pod_namespace s k n =
    ((i : ℤ) × Cursor.IsCursor i s.available_ips.ip_count
      × (allocate_rounds lib n pod_name pod_namespace s ≡ ok (moved s i) none)
      × ((j : ℕ) → j < n → UsedAt s ((k + j) % s.available_ips.ip_count)))
    ⊎ ((i : ℕ) × (ip : String) × (i < s.available_ips.ip_count)
        × (get_elem? s.available_ips.ips i ≡ some ip)
        × (IpSet.has ip s.using_ips ≡ false)
        × (allocate_rounds lib n pod_name pod_namespace s ≡ (
            let content = new_ip lib s ip pod_name pod_namespace status_using in
            ok (given s (pos i) ip content) (some content))))

-- The places met from slot `k` are the place of `k` and those met from the slot behind it.
used_shift :
    (s : Subnet) (k n : ℕ)
    → UsedAt s (k % s.available_ips.ip_count)
    → ((j : ℕ)
        → j < n
        → UsedAt s ((suc (k % s.available_ips.ip_count) + j) % s.available_ips.ip_count))
    → (j : ℕ) → j < suc n
    → UsedAt s ((k + j) % s.available_ips.ip_count)
used_shift s k n first rest zero h = let e : k + 0 ≡ k = omega arith in rw e first
used_shift s k n first rest (suc j) h =
    rw (← mod-suc-mod k s.available_ips.ip_count j) (rest j (omega arith))

module _ (lib : AddressLib) (pod_name pod_namespace : String) where
  UsedAt-one :
      (s : Subnet) (i : ℕ) (ip : String)
      → get_elem? s.available_ips.ips i ≡ some ip
      → IpSet.has ip s.using_ips ≡ true
      → UsedAt s i
  UsedAt-one s i ip e used other e' =
      let q : ip ≡ other = cc in subst (λ x. IpSet.has x s.using_ips ≡ true) q used

  rounds_lem :
      (n : ℕ) (s : Subnet)
      → Cursor.IsValid s.available_ips
      → 0 < s.available_ips.ip_count
      → Rounds lib pod_name pod_namespace s (slot s.available_ips.ip_index) n
  unfolding allocate_rounds new_ip
  rounds_lem zero s v p = inl (s.available_ips.ip_index, v.cursor, refl, λ j h. elim h [ ])
  rounds_lem (suc n) s v p =
      let c : ℕ = s.available_ips.ip_count in
      let k : ℕ = slot s.available_ips.ip_index in
      let (ip, at, step) = next_lem s.available_ips v p in
      let rest =
        rounds_lem n (moved s (pos (k % c))) (record { counted = v.counted; cursor = mod-lt k p })
          p in
      elim (Bool-cases (IpSet.has ip s.using_ips)) [
        | inl used ↦ elim rest [
          | inl (i, cur, run, all) ↦ inl (
            i,
            cur,
            rw (step, allocate_rounds, used) run,
            used_shift s k n (UsedAt-one s (k % c) ip at used) all,
          )
          | inr (i, other, lt, e, free, run) ↦
              inr (i, other, lt, e, free, rw (step, allocate_rounds, used) run)
        ]
        | inr free ↦ inr (k % c, ip, mod-lt k p, at, free, rw (step, allocate_rounds, free) refl)
      ]

-- The round in which place `i` is met, from slot `k`.
meeting : (k i c : ℕ) → i < c → (j : ℕ) × (j < c) × ((k + j) % c ≡ i)
meeting k i c h =
    let p : 0 < c = omega arith in
    let r = k % c in
    let d = i + c - r in
    (
      d % c,
      mod-lt d p,
      add-mod-mod k d c
          ∙ sym (mod-add-mod k c d)
          ∙ ap (λ (x : ℕ). x % c) (omega (arith, mod-lt k p))
          ∙ add-mod_right i c
          ∙ mod-eq_of_lt h,
    )

-- What `AllocateNext` comes to. Either every available address is in use, only the cursor has moved,
-- and the result is nil; or an available address that was not in use is given out.
abbrev pub Allocates : AddressLib → String → String → Subnet → Type 0
Allocates lib pod_name pod_namespace s =
    (Included s.available_ips.ips (keys s.using_ips)
      × (i : ℤ) × Cursor.IsCursor i s.available_ips.ip_count
      × (allocate_next lib pod_name pod_namespace s ≡ ok (moved s i) none))
    ⊎ ((i : ℕ) × (ip : String) × (i < s.available_ips.ip_count)
        × (get_elem? s.available_ips.ips i ≡ some ip)
        × (IpSet.has ip s.using_ips ≡ false)
        × (allocate_next lib pod_name pod_namespace s ≡ (
            let content = new_ip lib s ip pod_name pod_namespace status_using in
            ok (given s (pos i) ip content) (some content))))

module _ (lib : AddressLib) (pod_name pod_namespace : String) where
  all_used :
      (s : Subnet) (k : ℕ)
      → Cursor.IsValid s.available_ips
      → ((j : ℕ) → j < s.available_ips.ip_count → UsedAt s ((k + j) % s.available_ips.ip_count))
      → Included s.available_ips.ips (keys s.using_ips)
  all_used s k v all ip m =
      let (i, lt, at) = get_elem?_of_contains ip s.available_ips.ips m in
      let (j, below, e) = meeting k i s.available_ips.ip_count (omega (arith, v.counted)) in
      subst (UsedAt s) e (all j below) ip at

  allocate_pos :
      (s : Subnet)
      → Cursor.IsValid s.available_ips
      → 0 < s.available_ips.ip_count
      → Allocates lib pod_name pod_namespace s
  unfolding allocate_next
  allocate_pos s v p = elim (rounds_lem lib pod_name pod_namespace s.available_ips.ip_count s v p) [
    | inl (i, cur, run, all) ↦ inl (all_used s _ v all, i, cur, run)
    | inr found ↦ inr found
  ]

  -- On a subnet whose address slice is well formed `AllocateNext` does not panic. If every available
  -- address is in use, its result is nil and only the cursor moves, to a place in range. Otherwise it
  -- gives out an available address that was not in use, records it for the pod as in use, and leaves
  -- the cursor at it.
  pub allocate_next-Allocates :
      (s : Subnet) → Cursor.IsValid s.available_ips → Allocates lib pod_name pod_namespace s
  unfolding allocate_next allocate_rounds
  allocate_next-Allocates s v = elim (dec_lt 0 s.available_ips.ip_count) [
    | yes p ↦ allocate_pos s v p
    | no z ↦ inl (
      λ ip m. absurd (omega (arith, v.counted, get_elem?_of_contains ip s.available_ips.ips m)),
      s.available_ips.ip_index,
      v.cursor,
      ground arith,
    )
  ]
