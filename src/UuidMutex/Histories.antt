-- ===== src/UuidMutex/Histories.antt =====
-- The registry of pkg/controllers/multicluster/uuid_mutex.go over a sequence of calls, its listing of
-- the UUIDs of a name, and its start from the cluster's objects.
use hybridnet.Base.{
  ◌≡◌, ◌≢◌, ◌↔◌, sym, ◌∙◌, inl, inr, Bool, true, List, [], ◌∷◌, some, String, eq_iff, str_eq,
  Bool-cases, contains, Distinct, arith, if◌then◌else◌,
}
use hybridnet.Base.Dict.{Dict, keys, lookup}
use hybridnet.Base.Outcome.{Outcome}
use hybridnet.Base.Outcome.Ends.{Ends, Ends-bind, Ends-mono, Ends-ok}
use hybridnet.UuidMutex.{
  UuidMutex, Error, lock, get_latest_uuid, get_uuids, uuids_of, new_uuid_mutex, RemoteCluster,
  lock_clusters, lift, answer, Reader, new_uuid_mutex_from_client, get_cluster_uuid,
  list_remote_clusters,
}
use hybridnet.UuidMutex.Holders.{
  holder, IsConsistent, Reached, created, locked, unlocked, new-IsConsistent, Locks, Refused,
  lock-Ends, unlock-Unlocks,
}

pub Reached-IsConsistent : (u : UuidMutex) → Reached u → IsConsistent u
Reached-IsConsistent u created = new-IsConsistent
Reached-IsConsistent u (locked t u' uuid name fresh r e) =
    let c = Reached-IsConsistent t r in
    (Ends-ok (Refused uuid name t) (Locks uuid name t) (lock uuid name t) (lock-Ends uuid name t c)
      e).consistent
Reached-IsConsistent u (unlocked t uuid r) =
    (unlock-Unlocks uuid t (Reached-IsConsistent t r)).consistent

contains-uuids_of :
    (name uuid : String) (ids : Dict String)
    → contains uuid (uuids_of name ids) ≡ true
    → contains uuid (keys ids) ≡ true
unfolding uuids_of contains
contains-uuids_of name uuid [] h = h
contains-uuids_of name uuid ((id, n) ∷ ids) h = ground (arith, contains-uuids_of name uuid ids, h)

uuids_of_iff :
    (name uuid : String) (ids : Dict String)
    → Distinct (keys ids)
    → contains uuid (uuids_of name ids) ≡ true ↔ lookup uuid ids ≡ some name
unfolding uuids_of contains lookup
uuids_of_iff name uuid [] d = (λ h. ground (arith, h), λ h. ground (arith, h))
uuids_of_iff name uuid ((id, n) ∷ ids) d = (
  λ h. ground (
    arith,
    uuids_of_iff name uuid ids d.1,
    contains-uuids_of name uuid ids,
    eq_iff n name,
    eq_iff id uuid,
    h,
  ),
  λ h. ground (arith, uuids_of_iff name uuid ids d.1, eq_iff n name, eq_iff id uuid, h),
)

uuids_of-Distinct :
    (name : String) (ids : Dict String) → Distinct (keys ids) → Distinct (uuids_of name ids)
unfolding uuids_of
uuids_of-Distinct name [] d = tt
uuids_of-Distinct name ((id, n) ∷ ids) d =
    ground (arith, uuids_of-Distinct name ids d.1, contains-uuids_of name id ids)

-- After any calls of Lock and Unlock on a new mutex, GetUUIDs of a name lists each UUID at most once,
-- and lists exactly those that the name holds, so that no UUID is listed for two names; and the
-- latest UUID of a name, if it has one, is among them.
pub get_uuids_lem :
    (u : UuidMutex) (name : String)
    → Reached u
    → Distinct (get_uuids name u)
      × ((uuid : String) → contains uuid (get_uuids name u) ≡ true ↔ holder uuid u ≡ some name)
      × ((uuid : String)
          → get_latest_uuid name u ≡ some uuid
          → contains uuid (get_uuids name u) ≡ true)
unfolding get_uuids get_latest_uuid
get_uuids_lem u name r =
    let c = Reached-IsConsistent u r in
    let lists = λ (uuid : String). uuids_of_iff name uuid u.id_name_map c.listed_once in
    (
      uuids_of-Distinct name u.id_name_map c.listed_once,
      lists,
      λ uuid e. (lists uuid).1 (c.latest_held name uuid e),
    )

-- Every cluster of the list that has a UUID holds it.
abbrev pub Hold : List RemoteCluster → UuidMutex → Type 0
Hold [] v = Unit {0}
Hold (c ∷ cs) v = (c.uuid ≢ "" → holder c.uuid v ≡ some c.name) × Hold cs v

-- What the holders were, they are still.
abbrev pub Keeps : UuidMutex → UuidMutex → Type 0
Keeps u v = (uuid name : String) → holder uuid u ≡ some name → holder uuid v ≡ some name

Locks-Keeps :
    (uuid name : String) (u v : UuidMutex) (fresh : Bool) → Locks uuid name u v fresh → Keeps u v
Locks-Keeps uuid name u v fresh l id n h = elim (Bool-cases (str_eq id uuid)) [
  | inl e ↦ elim (Bool-cases fresh) [
    | inl f ↦ ground (arith, l.was_free f, eq_iff id uuid, e, h)
    | inr f ↦ ground (arith, l.was_held f, l.holds, eq_iff id uuid, e, h)
  ]
  | inr e ↦ ground (arith, l.kept id, eq_iff id uuid, e, h)
]

-- An assignment of owners to UUIDs that the clusters of the list and the holders agree with.
abbrev pub Owned : (String → String) → List RemoteCluster → Type 0
Owned owner [] = Unit {0}
Owned owner (c ∷ cs) = (c.uuid ≢ "" → owner c.uuid ≡ c.name) × Owned owner cs

abbrev pub Agrees : (String → String) → UuidMutex → Type 0
Agrees owner u = (id n : String) → holder id u ≡ some n → owner id ≡ n

abbrev Clashes : List RemoteCluster → UuidMutex → Type 0
Clashes cs u = (owner : String → String) → Agrees owner u → Owned owner cs → ⊥

abbrev AllHeld : List RemoteCluster → UuidMutex → UuidMutex → Type 0
AllHeld cs u v = IsConsistent v × Keeps u v × Hold cs v

Locks-Agrees :
    (uuid name : String) (u v : UuidMutex) (fresh : Bool) (owner : String → String)
    → Locks uuid name u v fresh
    → Agrees owner u
    → owner uuid ≡ name
    → Agrees owner v
Locks-Agrees uuid name u v fresh owner l a o id n h = elim (Bool-cases (str_eq id uuid)) [
  | inl e ↦ ground (arith, l.holds, eq_iff id uuid, e, h, o)
  | inr e ↦ ground (arith, l.kept id, eq_iff id uuid, e, h, a id n)
]

Refused-Clashes :
    (r : RemoteCluster) (cs : List RemoteCluster) (u v : UuidMutex)
    → r.uuid ≢ ""
    → Refused r.uuid r.name u v
    → Clashes (r ∷ cs) u
Refused-Clashes r cs u v ne (_, inl e) owner a o = ne e
Refused-Clashes r cs u v ne (_, inr (n, other, h)) owner a o = other (sym (a r.uuid n h) ∙ o.0 ne)

after_lock :
    (r : RemoteCluster) (cs : List RemoteCluster) (u v : UuidMutex) (b : Bool)
    → r.uuid ≢ ""
    → Locks r.uuid r.name u v b
    → (o : Outcome UuidMutex Error (Unit {0})) → Ends (λ w. Clashes cs v) (λ w x. AllHeld cs v w) o
    → Ends (λ w. Clashes (r ∷ cs) u) (λ w x. AllHeld (r ∷ cs) u w) o
after_lock r cs u v b ne l o ends =
    Ends-mono (λ w. Clashes cs v) (λ w x. AllHeld cs v w) (λ w. Clashes (r ∷ cs) u)
      (λ w x. AllHeld (r ∷ cs) u w) o ends
      (λ w h owner a o. h owner (Locks-Agrees r.uuid r.name u v b owner l a (o.0 ne)) o.1)
      (λ w x h. (
        h.0,
        λ id n q. h.1 id n (Locks-Keeps r.uuid r.name u v b l id n q),
        (λ _. h.1 r.uuid r.name l.holds, h.2),
      ))

lock_clusters-Ends :
    (cs : List RemoteCluster) (u : UuidMutex)
    → IsConsistent u
    → Ends (λ v. Clashes cs u) (λ v x. AllHeld cs u v) (lock_clusters cs u)
unfolding lock_clusters
lock_clusters-Ends [] u c = (c, λ id n h. h, tt)
lock_clusters-Ends (r ∷ cs) u c = elim (Bool-cases (str_eq r.uuid "")) [
  | inl e ↦
      rw (e, if◌then◌else◌)
        (Ends-mono (λ v. Clashes cs u) (λ v x. AllHeld cs u v) (λ v. Clashes (r ∷ cs) u)
          (λ v x. AllHeld (r ∷ cs) u v) (lock_clusters cs u) (lock_clusters-Ends cs u c)
          (λ v h owner a o. h owner a o.1)
          (λ v x h. (h.0, h.1, (λ ne. absurd (ne ((eq_iff r.uuid "").0 e)), h.2))))
  | inr e ↦
      let ne : r.uuid ≢ "" = ground (arith, eq_iff r.uuid "") in
      rw (e, if◌then◌else◌)
        (Ends-bind (λ v. Clashes (r ∷ cs) u) (Locks r.uuid r.name u) (λ v x. AllHeld (r ∷ cs) u v)
          (lock r.uuid r.name u) (λ b. lock_clusters cs)
          (Ends-mono (Refused r.uuid r.name u) (Locks r.uuid r.name u) (λ v. Clashes (r ∷ cs) u)
            (Locks r.uuid r.name u) (lock r.uuid r.name u) (lock-Ends r.uuid r.name u c)
            (λ v h. Refused-Clashes r cs u v ne h) (λ v b h. h))
          (λ v b l.
            after_lock r cs u v b ne l (lock_clusters cs v) (lock_clusters-Ends cs v l.consistent)))
]

-- The registry can hold what the cluster's objects say: some assignment of one owner to each UUID
-- agrees with all of them, and the local cluster has a UUID.
abbrev pub Assignable : String → List RemoteCluster → Type 0
Assignable local cs =
    (local ≢ "") × ((owner : String → String) × (owner local ≡ "LocalCluster") × Owned owner cs)

nobody_holds : (id n : String) → holder id new_uuid_mutex ≡ some n → ⊥
unfolding new_uuid_mutex lookup
nobody_holds id n h = ground (arith, h)

module _ (c : Reader) (local : String) (cs : List RemoteCluster) where
  unassignable :
      (v : UuidMutex) → Refused local "LocalCluster" new_uuid_mutex v → Assignable local cs → ⊥
  unassignable v (_, inl e) a = a.0 e
  unassignable v (_, inr (n, _, h)) a = nobody_holds local n h

  others :
      (v : UuidMutex) (b : Bool)
      → Locks local "LocalCluster" new_uuid_mutex v b
      → Ends
          (λ w. Assignable local cs → ⊥)
          (λ w x. IsConsistent w × (holder local w ≡ some "LocalCluster") × Hold cs w)
          (lock_clusters cs v)
  others v b l =
      Ends-mono (λ w. Clashes cs v) (λ w x. AllHeld cs v w) (λ w. Assignable local cs → ⊥) _
        (lock_clusters cs v) (lock_clusters-Ends cs v l.consistent)
        (λ w h a.
          h a.1.0
            (Locks-Agrees local "LocalCluster" new_uuid_mutex v b a.1.0 l
              (λ id n q. absurd (nobody_holds id n q)) a.1.1)
            a.1.2)
        (λ w x h. (h.0, h.1 local "LocalCluster" l.holds, h.2))

  -- Given a reader that answers with a UUID of the local cluster and with a list of remote clusters,
  -- the start of the registry does not fault; it fails only if a UUID is claimed by two names or the
  -- local one is empty, and else it leaves a consistent mutex in which the local cluster and every
  -- remote cluster with a UUID hold theirs.
  pub new_uuid_mutex_from_client-Ends :
      c.namespace_uid "kube-system" ≡ answer local
      → c.remote_clusters ≡ answer cs
      → Ends
          (λ v. Assignable local cs → ⊥)
          (λ v x. IsConsistent v × (holder local v ≡ some "LocalCluster") × Hold cs v)
          (new_uuid_mutex_from_client c new_uuid_mutex)
  unfolding new_uuid_mutex_from_client get_cluster_uuid list_remote_clusters lift
  new_uuid_mutex_from_client-Ends e r =
      rw (e, r)
        (Ends-bind (λ v. Assignable local cs → ⊥) (Locks local "LocalCluster" new_uuid_mutex) _
          (lock local "LocalCluster" new_uuid_mutex) (λ b. lock_clusters cs)
          (Ends-mono (Refused local "LocalCluster" new_uuid_mutex)
            (Locks local "LocalCluster" new_uuid_mutex) (λ v. Assignable local cs → ⊥)
            (Locks local "LocalCluster" new_uuid_mutex) (lock local "LocalCluster" new_uuid_mutex)
            (lock-Ends local "LocalCluster" new_uuid_mutex new-IsConsistent)
            (λ v h a. unassignable v h a) (λ v b h. h))
          (λ v b l. others v b l))
