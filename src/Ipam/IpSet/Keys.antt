-- ===== src/Ipam/IpSet/Keys.antt =====
-- `Update` of pkg/ipam/types/ip.go, seen by keys and entries.
use mathlib.Core.Option
use hybridnet.Base.{◌≡◌, refl, inl, inr, String, Option-cases, str_eq, if◌then◌else◌, arith, eq_iff}
use hybridnet.Base.Dict.{keys, lookup, lookup-insert, keys-insert_old, has_of_lookup}
use hybridnet.Ipam.Types.{IpSet}
use hybridnet.Ipam.IpSet.{update, updated}

module _ (ip pod_name pod_namespace status : String) (s : IpSet) where
  pub keys-update : keys (update ip pod_name pod_namespace status s) ≡ keys s
  unfolding update
  keys-update = elim (Option-cases (lookup ip s)) [
    | inl e ↦ rw (e, update) refl
    | inr (c, e) ↦ rw (e, update) (keys-insert_old ip _ s (has_of_lookup ip s c e))
  ]

  -- The entry of the address is updated, and no other is.
  pub lookup-update :
      (j : String)
      → lookup j (update ip pod_name pod_namespace status s) ≡ (
          if str_eq ip j
          then Option.map (updated pod_name pod_namespace status) (lookup j s)
          else lookup j s)
  unfolding update
  lookup-update j = elim (Option-cases (lookup ip s)) [
    | inl e ↦ rw (e, update) (ground (arith, e, eq_iff ip j))
    | inr (c, e) ↦
        rw (e, update)
          (rw (lookup-insert ip j (updated pod_name pod_namespace status c) s)
            (ground (arith, e, eq_iff ip j)))
  ]
