-- ===== src/UuidMutex.antt =====
-- pkg/controllers/multicluster/uuid_mutex.go: the registry of cluster UUIDs. Each method runs under
-- the mutex, and so is one step. The two maps are association lists.
pub mod Holders
pub mod Histories
pub mod Recycle
mod Tests
use hybridnet.Base.{
  Bool, true, false, List, [], ◌∷◌, Option, none, some, String, is_empty, str_eq, if◌then◌else◌,
}
use hybridnet.Base.Dict.{Dict, lookup, insert, delete}
use hybridnet.Base.Outcome.{M, ok, err, ◌>>=◌, ◌>>◌, return, throw}

pub record UuidMutex : Type 0 where
  pub id_name_map : Dict String
  pub name_latest_id_map : Dict String

-- `client` is an error of the reader of the cluster's objects.
pub data Error : Type 0 where
  invalid_empty_uuid : Error
  already_locked client : String → Error

-- The end of `Lock` for a UUID that nobody holds.
pub hold : String → String → UuidMutex → UuidMutex
hold uuid name u = record {
  id_name_map = insert uuid name u.id_name_map;
  name_latest_id_map = insert name uuid u.name_latest_id_map;
}

-- `Lock` for a UUID with the name that holds it, if any.
lock_held : String → String → Option String → M UuidMutex Error Bool
unfolding hold
lock_held uuid name none u = ok (hold uuid name u) true
lock_held uuid name (some current_name) u =
    if str_eq current_name name
    then ok (record u { name_latest_id_map = insert name uuid u.name_latest_id_map }) false
    else err u (already_locked current_name)

pub lock : String → String → M UuidMutex Error Bool
unfolding lock_held
lock uuid name u =
    if is_empty uuid
    then err u invalid_empty_uuid
    else lock_held uuid name (lookup uuid u.id_name_map) u

-- The latest UUID of a name is forgotten only if it is the one unlocked.
forget_latest : String → String → Dict String → Dict String
forget_latest uuid name latest = elim (lookup name latest) [
  | none ↦ latest
  | some id ↦ if str_eq id uuid then delete name latest else latest
]

-- `Unlock` for a UUID with the name that holds it, if any.
unlock_held : String → Option String → UuidMutex → UuidMutex × Bool
unfolding forget_latest
unlock_held uuid none u = (u, false)
unlock_held uuid (some name) u = (
  record {
    id_name_map = delete uuid u.id_name_map;
    name_latest_id_map = forget_latest uuid name u.name_latest_id_map;
  },
  true,
)

pub unlock : String → UuidMutex → UuidMutex × Bool
unfolding unlock_held
unlock uuid u = unlock_held uuid (lookup uuid u.id_name_map) u

pub get_latest_uuid : String → UuidMutex → Option String
get_latest_uuid name u = lookup name u.name_latest_id_map

-- The loop of `GetUUIDs`; the order of a Go map is not fixed, and here is that of the list.
uuids_of : String → Dict String → List String
uuids_of name [] = []
uuids_of name ((uuid, n) ∷ ids) =
    let rest = uuids_of name ids in if str_eq n name then uuid ∷ rest else rest

pub get_uuids : String → UuidMutex → List String
unfolding uuids_of
get_uuids name u = uuids_of name u.id_name_map

pub new_uuid_mutex : UuidMutex
new_uuid_mutex = record { id_name_map = []; name_latest_id_map = [] }

-- The fields of a RemoteCluster that are read: its name and the UUID of its status.
pub record RemoteCluster : Type 0 where
  pub name : String
  pub uuid : String

-- What a read of the cluster's objects answers.
pub data Answer (A : Type 0) : Type 0 where
  answer : A → Answer A
  failure : String → Answer A

-- The reader of the cluster's objects, which the Kubernetes client is: the UID of a namespace, and
-- the list of the remote clusters.
pub record Reader : Type 0 where
  pub namespace_uid : String → Answer String
  pub remote_clusters : Answer (List RemoteCluster)

pub lift : {A : Type 0} → Answer A → M UuidMutex Error A
lift (answer a) = return a
lift (failure e) = throw (client e)

-- pkg/controllers/utils/client.go
get_cluster_uuid : Reader → Answer String
get_cluster_uuid c = c.namespace_uid "kube-system"

list_remote_clusters : Reader → Answer (List RemoteCluster)
list_remote_clusters c = c.remote_clusters

-- The loop over the remote clusters.
lock_clusters : List RemoteCluster → M UuidMutex Error (Unit {0})
unfolding lock
lock_clusters [] = return tt
lock_clusters (c ∷ cs) =
    let rest = lock_clusters cs in
    if is_empty c.uuid then rest else lock c.uuid c.name >>= λ _. rest

pub new_uuid_mutex_from_client : Reader → M UuidMutex Error (Unit {0})
unfolding lock lock_clusters lift get_cluster_uuid list_remote_clusters
new_uuid_mutex_from_client c = do
  local_uuid ← lift (get_cluster_uuid c)
  _ ← lock local_uuid "LocalCluster"
  remote_cluster_list ← lift (list_remote_clusters c)
  lock_clusters remote_cluster_list
