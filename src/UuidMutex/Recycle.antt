-- ===== src/UuidMutex/Recycle.antt =====
-- pkg/controllers/multicluster/remotecluster_controller.go: how the reconciler of a remote cluster
-- gives back the UUIDs that the cluster no longer has. `kill_daemon` says if the kill of the daemon
-- of a UUID succeeds; the daemons themselves are not modelled.
use hybridnet.Base.{
  ◌≡◌, ◌≢◌, ◌↔◌, ◌⊎◌, subst, refl, inl, inr, ◌&&◌, not, Bool, true, false, List, [], ◌∷◌, Option,
  none, some, String, str_eq, eq_iff, Bool-cases, contains, arith, if◌then◌else◌,
}
use hybridnet.Base.Outcome.{M, ok, err, ◌>>◌, return, throw}
use hybridnet.Base.Outcome.Ends.{Ends, Ends-mono}
use hybridnet.UuidMutex.{UuidMutex, unlock, get_uuids, get_latest_uuid}
use hybridnet.UuidMutex.Holders.{holder, Reached, IsConsistent, unlock-Unlocks}
use hybridnet.UuidMutex.Histories.{Reached-IsConsistent, get_uuids_lem}

pub data RecycleError : Type 0 where
  unable_to_kill_daemon : String → RecycleError
  not_owning_uuid out_of_date_uuid : RecycleError

-- The call of `Unlock`, its answer dropped.
unlock_it : String → M UuidMutex RecycleError (Unit {0})
unlock_it uuid u = ok (unlock uuid u).0 tt

abbrev pub is_kept : Option String → String → Bool
is_kept none uuid = false
is_kept (some latest) uuid = str_eq uuid latest

module _ (kill_daemon : String → Bool) where
  -- The loops over the UUIDs of the cluster; `keep` is the latest one, if it is to stay.
  recycle : Option String → List String → M UuidMutex RecycleError (Unit {0})
  unfolding unlock_it
  recycle keep [] = return tt
  recycle keep (uuid ∷ uuids) =
      let rest = recycle keep uuids in
      if is_kept keep uuid
      then rest
      else if kill_daemon uuid
      then unlock_it uuid >> rest
      else throw (unable_to_kill_daemon uuid)

  -- A cluster that is deleted, or that has no UUID, gives all of its UUIDs back.
  pub recycle_all : String → M UuidMutex RecycleError (Unit {0})
  unfolding recycle
  recycle_all name u = recycle none (get_uuids name u) u

  check_latest : String → String → Option String → M UuidMutex RecycleError (Unit {0})
  unfolding recycle
  check_latest name status_uuid none u = err u not_owning_uuid
  check_latest name status_uuid (some latest) u =
      if str_eq latest status_uuid
      then recycle (some latest) (get_uuids name u) u
      else err u out_of_date_uuid

  -- Any other cluster must have its latest UUID, and gives the others back.
  pub recycle_orphans : String → String → M UuidMutex RecycleError (Unit {0})
  unfolding check_latest
  recycle_orphans name status_uuid u = check_latest name status_uuid (get_latest_uuid name u) u

  -- What a loop leaves.
  abbrev Recycled : Option String → List String → UuidMutex → UuidMutex → Type 0
  Recycled keep uuids u v =
      IsConsistent v
      × ((id : String)
          → holder id v
            ≡ (if contains id uuids && not (is_kept keep id) then none else holder id u))

  abbrev Stuck : Option String → List String → Type 0
  Stuck keep uuids =
      (id : String) × (contains id uuids ≡ true)
      × (is_kept keep id ≡ false)
      × (kill_daemon id ≡ false)

  later_Stuck :
      (keep : Option String) (uuid : String) (uuids : List String)
      → Stuck keep uuids
      → Stuck keep (uuid ∷ uuids)
  unfolding contains
  later_Stuck keep uuid uuids (id, at, k, d) = (id, ground (arith, at), k, d)

  recycle-Ends :
      (keep : Option String) (uuids : List String) (u : UuidMutex)
      → IsConsistent u
      → Ends
          (λ v. IsConsistent v × Stuck keep uuids)
          (λ v x. Recycled keep uuids u v)
          (recycle keep uuids u)
  unfolding recycle unlock_it contains
  recycle-Ends keep [] u c = (c, λ id. refl)
  recycle-Ends keep (uuid ∷ uuids) u c = elim (Bool-cases (is_kept keep uuid)) [
    | inl k ↦
        rw (k, if◌then◌else◌)
          (Ends-mono (λ v. IsConsistent v × Stuck keep uuids) (λ v x. Recycled keep uuids u v)
            (λ v. IsConsistent v × Stuck keep (uuid ∷ uuids))
            (λ v x. Recycled keep (uuid ∷ uuids) u v) (recycle keep uuids u)
            (recycle-Ends keep uuids u c) (λ v h. (h.0, later_Stuck keep uuid uuids h.1))
            (λ v x h. (h.0, λ id. ground (arith, h.1 id, eq_iff uuid id, k))))
    | inr k ↦ elim (Bool-cases (kill_daemon uuid)) [
      | inr d ↦ rw (k, if◌then◌else◌, d) (c, (uuid, ground (arith, eq_iff uuid uuid), k, d))
      | inl d ↦
          let l = unlock-Unlocks uuid u c in
          rw (k, if◌then◌else◌, d)
            (Ends-mono (λ v. IsConsistent v × Stuck keep uuids)
              (λ v x. Recycled keep uuids (unlock uuid u).0 v)
              (λ v. IsConsistent v × Stuck keep (uuid ∷ uuids))
              (λ v x. Recycled keep (uuid ∷ uuids) u v) (recycle keep uuids (unlock uuid u).0)
              (recycle-Ends keep uuids (unlock uuid u).0 l.consistent)
              (λ v h. (h.0, later_Stuck keep uuid uuids h.1))
              (λ v x h.
                (h.0, λ id. ground (arith, h.1 id, eq_iff uuid id, k, l.kept id, l.released))))
    ]
  ]

  -- Each other name holds what it held.
  abbrev pub OthersKept : String → UuidMutex → UuidMutex → Type 0
  OthersKept name u v = (id n : String) → n ≢ name → holder id u ≡ some n ↔ holder id v ≡ some n

  -- A daemon that should go has not been killed.
  abbrev pub Unkilled : String → UuidMutex → Type 0
  Unkilled name u = (id : String) × (holder id u ≡ some name) × (kill_daemon id ≡ false)

  module _ (name : String) (u : UuidMutex) (r : Reached u) where
    others_lem :
        (keep : Option String) (v : UuidMutex)
        → Recycled keep (get_uuids name u) u v
        → OthersKept name u v
    others_lem keep v h id n ne = (
      λ e. ground (arith, h.1 id, (get_uuids_lem u name r).1 id, e),
      λ e. ground (arith, h.1 id, (get_uuids_lem u name r).1 id, e),
    )

    -- On a mutex that calls of Lock and Unlock lead to, the recycling of a deleted cluster fails only if
    -- the daemon of one of its UUIDs is not killed, and else leaves a consistent mutex in which the
    -- cluster holds no UUID and every other cluster holds what it held.
    pub recycle_all-Ends :
        Ends
          (λ v. IsConsistent v × Unkilled name u)
          (λ v x. IsConsistent v × ((id : String) → holder id v ≢ some name) × OthersKept name u v)
          (recycle_all name u)
    unfolding recycle_all
    recycle_all-Ends =
        Ends-mono (λ v. IsConsistent v × Stuck none (get_uuids name u))
          (λ v x. Recycled none (get_uuids name u) u v) (λ v. IsConsistent v × Unkilled name u) _
          (recycle none (get_uuids name u) u)
          (recycle-Ends none (get_uuids name u) u (Reached-IsConsistent u r))
          (λ v h. (h.0, (h.1.0, ((get_uuids_lem u name r).1 h.1.0).0 h.1.1, h.1.3)))
          (λ v x h. (
            h.0,
            λ id e. ground (arith, h.1 id, (get_uuids_lem u name r).1 id, e),
            others_lem none v h,
          ))

    -- What the recycling of a cluster that is there leaves.
    abbrev pub Cleaned : String → UuidMutex → Type 0
    Cleaned status_uuid v =
        IsConsistent v
        × (get_latest_uuid name u ≡ some status_uuid)
        × ((id : String) → holder id v ≡ some name ↔ id ≡ status_uuid)
        × OthersKept name u v

    abbrev pub Unclean : String → UuidMutex → Type 0
    Unclean status_uuid v =
        IsConsistent v × ((get_latest_uuid name u ≢ some status_uuid) ⊎ Unkilled name u)

    kept_Ends :
        (latest : String)
        → get_latest_uuid name u ≡ some latest
        → Ends
            (Unclean latest)
            (λ v x. Cleaned latest v)
            (recycle (some latest) (get_uuids name u) u)
    kept_Ends latest e =
        Ends-mono (λ v. IsConsistent v × Stuck (some latest) (get_uuids name u))
          (λ v x. Recycled (some latest) (get_uuids name u) u v) (Unclean latest)
          (λ v x. Cleaned latest v) (recycle (some latest) (get_uuids name u) u)
          (recycle-Ends (some latest) (get_uuids name u) u (Reached-IsConsistent u r))
          (λ v h. (h.0, inr (h.1.0, ((get_uuids_lem u name r).1 h.1.0).0 h.1.1, h.1.3)))
          (λ v x h. (
            h.0,
            e,
            λ id. (
              λ q. ground (arith, h.1 id, (get_uuids_lem u name r).1 id, eq_iff id latest, q),
              λ q. ground (
                arith,
                h.1 id,
                (get_uuids_lem u name r).1 latest,
                (get_uuids_lem u name r).2 latest e,
                eq_iff id latest,
                q,
              ),
            ),
            others_lem (some latest) v h,
          ))

    check_Ends :
        (status_uuid : String) (o : Option String)
        → get_latest_uuid name u ≡ o
        → Ends
            (Unclean status_uuid)
            (λ v x. Cleaned status_uuid v)
            (check_latest name status_uuid o u)
    unfolding check_latest
    check_Ends status_uuid none e = (Reached-IsConsistent u r, inl (λ q. ground (arith, e, q)))
    check_Ends status_uuid (some latest) e = elim (Bool-cases (str_eq latest status_uuid)) [
      | inl same ↦
          let q : latest ≡ status_uuid = (eq_iff latest status_uuid).0 same in
          rw (same, if◌then◌else◌)
            (subst
              (λ x.
                Ends (Unclean x) (λ v y. Cleaned x v) (recycle (some latest) (get_uuids name u) u))
              q (kept_Ends latest e))
      | inr differs ↦
          rw (differs, if◌then◌else◌)
            (Reached-IsConsistent u r, inl (λ q. ground (arith, e, q, eq_iff latest status_uuid)))
    ]

    -- On a mutex that calls of Lock and Unlock lead to, the recycling of a cluster that is there fails
    -- only if the UUID of its status is not its latest, or the daemon of one of its UUIDs is not killed,
    -- and else leaves a consistent mutex in which the cluster holds exactly the UUID of its status and
    -- every other cluster holds what it held.
    pub recycle_orphans-Ends :
        (status_uuid : String)
        → Ends
            (Unclean status_uuid)
            (λ v x. Cleaned status_uuid v)
            (recycle_orphans name status_uuid u)
    unfolding recycle_orphans
    recycle_orphans-Ends status_uuid = check_Ends status_uuid (get_latest_uuid name u) refl
