-- ===== src/UuidMutex/Tests.antt =====
-- Runs of the registry of pkg/controllers/multicluster/uuid_mutex.go.
use hybridnet.Base.{◌≡◌, ◌↔◌, refl, true, List, [], ◌∷◌, some, String, contains, Distinct}
use hybridnet.Base.Dict.{lookup, insert}
use hybridnet.Base.Outcome.{ok}
use hybridnet.Base.Outcome.Ends.{Ends}
use hybridnet.UuidMutex.{
  UuidMutex, lock, unlock, get_latest_uuid, get_uuids, new_uuid_mutex, hold, lock_held,
  RemoteCluster, Reader, answer, new_uuid_mutex_from_client,
}
use hybridnet.UuidMutex.Holders.{
  holder, Reached, created, locked, IsConsistent, Refused, Locks, lock-Ends, Unlocks,
  unlock-Unlocks,
}
use hybridnet.UuidMutex.Histories.{
  Reached-IsConsistent, get_uuids_lem, Hold, Assignable, new_uuid_mutex_from_client-Ends,
}
use hybridnet.UuidMutex.Recycle.{
  recycle_all, recycle_orphans, recycle_all-Ends, recycle_orphans-Ends, Unkilled, OthersKept,
  Cleaned, Unclean,
}
use hybridnet.Base.{◌≢◌, Bool}

abbrev one : UuidMutex
one = record { id_name_map = ("u1", "c1") ∷ []; name_latest_id_map = ("c1", "u1") ∷ [] }

abbrev two : UuidMutex
two = record {
  id_name_map = ("u1", "c1") ∷ ("u2", "c1") ∷ [];
  name_latest_id_map = ("c1", "u2") ∷ [];
}

one_run : lock "u1" "c1" new_uuid_mutex ≡ ok one true
unfolding lock lock_held hold new_uuid_mutex lookup insert
one_run = refl

two_run : lock "u2" "c1" one ≡ ok two true
unfolding lock lock_held hold lookup insert
two_run = refl

two-Reached : Reached two
two-Reached =
    locked one two "u2" "c1" true (locked new_uuid_mutex one "u1" "c1" true created one_run) two_run

two-IsConsistent : IsConsistent two
two-IsConsistent = Reached-IsConsistent two two-Reached

lock-Ends_example : Ends (Refused "u2" "c2" two) (Locks "u2" "c2" two) (lock "u2" "c2" two)
lock-Ends_example = lock-Ends "u2" "c2" two two-IsConsistent

unlock-Unlocks_example : Unlocks "u2" two (unlock "u2" two).0 (unlock "u2" two).1
unlock-Unlocks_example = unlock-Unlocks "u2" two two-IsConsistent

get_uuids_lem_example :
    Distinct (get_uuids "c1" two)
    × ((uuid : String) → contains uuid (get_uuids "c1" two) ≡ true ↔ holder uuid two ≡ some "c1")
    × ((uuid : String)
        → get_latest_uuid "c1" two ≡ some uuid
        → contains uuid (get_uuids "c1" two) ≡ true)
get_uuids_lem_example = get_uuids_lem two "c1" two-Reached

abbrev clusters : List RemoteCluster
clusters = record { name = "c1"; uuid = "u1" } ∷ record { name = "c2"; uuid = "" } ∷ []

abbrev reader : Reader
reader = record { namespace_uid = λ name. answer "u0"; remote_clusters = answer clusters }

new_uuid_mutex_from_client-Ends_example :
    Ends
      (λ v. Assignable "u0" clusters → ⊥)
      (λ v x. IsConsistent v × (holder "u0" v ≡ some "LocalCluster") × Hold clusters v)
      (new_uuid_mutex_from_client reader new_uuid_mutex)
new_uuid_mutex_from_client-Ends_example =
    new_uuid_mutex_from_client-Ends reader "u0" clusters refl refl

abbrev kills : String → Bool
kills uuid = true

recycle_all-Ends_example :
    Ends
      (λ v. IsConsistent v × Unkilled kills "c1" two)
      (λ v x.
        IsConsistent v × ((id : String) → holder id v ≢ some "c1") × OthersKept kills "c1" two v)
      (recycle_all kills "c1" two)
recycle_all-Ends_example = recycle_all-Ends kills "c1" two two-Reached

recycle_orphans-Ends_example :
    Ends
      (Unclean kills "c1" two two-Reached "u2")
      (λ v x. Cleaned kills "c1" two two-Reached "u2" v)
      (recycle_orphans kills "c1" "u2" two)
recycle_orphans-Ends_example = recycle_orphans-Ends kills "c1" two two-Reached "u2"
