-- ===== src/UuidMutex/Holders.antt =====
-- Who holds a UUID in pkg/controllers/multicluster/uuid_mutex.go.
use hybridnet.Base.{
  ◌≡◌, ◌≢◌, ◌↔◌, ◌⊎◌, refl, inl, inr, Bool, true, false, Option, none, some, String, eq_iff, str_eq,
  Bool-cases, Option-cases, Distinct, arith, if◌then◌else◌,
}
use hybridnet.Base.Dict.{
  Dict, keys, lookup, insert, lookup-insert, lookup-delete, insert-Distinct, delete-Distinct,
}
use hybridnet.Base.Outcome.{ok}
use hybridnet.Base.Outcome.Ends.{Ends}
use hybridnet.UuidMutex.{
  UuidMutex, lock, lock_held, hold, unlock, unlock_held, forget_latest, get_latest_uuid,
  new_uuid_mutex,
}

abbrev pub holder : String → UuidMutex → Option String
holder uuid u = lookup uuid u.id_name_map

-- A UUID is listed once, and the latest UUID of a name is held by it.
pub record IsConsistent (u : UuidMutex) : Type 0 where
  pub listed_once : Distinct (keys u.id_name_map)
  pub latest_held :
      (name uuid : String)
      → lookup name u.name_latest_id_map ≡ some uuid
      → holder uuid u ≡ some name

-- The states that calls of `Lock` and `Unlock` lead to.
pub data Reached : UuidMutex → Type 0 where
  created : Reached new_uuid_mutex
  locked :
      (u v : UuidMutex) (uuid name : String) (fresh : Bool)
      → Reached u
      → lock uuid name u ≡ ok v fresh
      → Reached v
  unlocked : (u : UuidMutex) (uuid : String) → Reached u → Reached (unlock uuid u).0

pub new-IsConsistent : IsConsistent new_uuid_mutex
unfolding new_uuid_mutex lookup
new-IsConsistent = record { listed_once = tt; latest_held = λ name uuid e. ground (arith, e) }

-- What a call of `Lock` leaves: no holder is replaced, and a success says who holds the UUID.
pub record Locks (uuid name : String) (u v : UuidMutex) (fresh : Bool) : Type 0 where
  pub holds : holder uuid v ≡ some name
  pub is_latest : get_latest_uuid name v ≡ some uuid
  pub was_free : fresh ≡ true → holder uuid u ≡ none
  pub was_held : fresh ≡ false → holder uuid u ≡ some name
  pub kept : (id : String) → id ≢ uuid → holder id v ≡ holder id u
  pub consistent : IsConsistent v

-- Why a call of `Lock` fails, which leaves the mutex as it was.
abbrev pub Refused : String → String → UuidMutex → UuidMutex → Type 0
Refused uuid name u v =
    (v ≡ u) × ((uuid ≡ "") ⊎ ((n : String) × (n ≢ name) × (holder uuid u ≡ some n)))

module _ (uuid name : String) (u : UuidMutex) (c : IsConsistent u) where
  hold_lem : holder uuid u ≡ none → Locks uuid name u (hold uuid name u) true
  unfolding hold get_latest_uuid
  hold_lem free = record {
    holds = ground (arith, lookup-insert uuid uuid name u.id_name_map, eq_iff uuid uuid);
    is_latest = ground (arith, lookup-insert name name uuid u.name_latest_id_map, eq_iff name name);
    was_free = λ e. free;
    was_held = λ e. ground (arith, e);
    kept = λ id ne. ground (arith, lookup-insert uuid id name u.id_name_map, eq_iff uuid id);
    consistent = record {
      listed_once = insert-Distinct uuid name u.id_name_map c.listed_once;
      latest_held = λ n id e. ground (
        arith,
        lookup-insert uuid id name u.id_name_map,
        lookup-insert name n uuid u.name_latest_id_map,
        c.latest_held n id,
        eq_iff name n,
        eq_iff uuid id,
      );
    };
  }

  renew_lem :
      holder uuid u ≡ some name
      → Locks uuid name u
          (record u { name_latest_id_map = insert name uuid u.name_latest_id_map })
          false
  unfolding get_latest_uuid
  renew_lem held = record {
    holds = held;
    is_latest = ground (arith, lookup-insert name name uuid u.name_latest_id_map, eq_iff name name);
    was_free = λ e. ground (arith, e);
    was_held = λ e. held;
    kept = λ id ne. refl;
    consistent = record {
      listed_once = c.listed_once;
      latest_held = λ n id e. ground (
        arith,
        lookup-insert name n uuid u.name_latest_id_map,
        c.latest_held n id,
        eq_iff name n,
        held,
      );
    };
  }

  held_lem :
      (holder uuid u ≡ none) ⊎ ((n : String) × (holder uuid u ≡ some n))
      → Ends
          (Refused uuid name u)
          (Locks uuid name u)
          (lock_held uuid name (lookup uuid u.id_name_map) u)
  unfolding lock_held
  held_lem (inl free) = rw free (hold_lem free)
  held_lem (inr (n, h)) = elim (Bool-cases (str_eq n name)) [
    | inl e ↦ rw (h, lock_held, e) (renew_lem (ground (arith, eq_iff n name, h)))
    | inr e ↦ rw (h, lock_held, e) (refl, inr (n, ground (arith, eq_iff n name), h))
  ]

  -- On a consistent mutex Lock does not fault; an error changes nothing, and the UUID is empty or
  -- another name holds it; a success leaves a consistent mutex in which the name holds the UUID as its
  -- latest, says by its Boolean whether the UUID was free or was held by that name before, and changes
  -- the holder of no other UUID.
  pub lock-Ends : Ends (Refused uuid name u) (Locks uuid name u) (lock uuid name u)
  unfolding lock
  lock-Ends = elim (Bool-cases (str_eq uuid "")) [
    | inl e ↦ rw (e, if◌then◌else◌) (refl, inl ((eq_iff uuid "").0 e))
    | inr e ↦ rw (e, if◌then◌else◌) (held_lem (Option-cases (holder uuid u)))
  ]

forget_latest_lem :
    (uuid name n : String) (m : Dict String)
    → lookup n (forget_latest uuid name m) ≡ (
        if str_eq name n
        then elim (lookup name m) [
          | none ↦ none
          | some id ↦ if str_eq id uuid then none else some id
        ]
        else lookup n m)
unfolding forget_latest
forget_latest_lem uuid name n m = ground (arith, lookup-delete name n m, eq_iff name n)

-- What a call of `Unlock` leaves: nobody holds the UUID, it is nobody's latest, and every other UUID
-- has the holder that it had.
pub record Unlocks (uuid : String) (u v : UuidMutex) (was_locked : Bool) : Type 0 where
  pub released : holder uuid v ≡ none
  pub not_latest : (name : String) → get_latest_uuid name v ≢ some uuid
  pub kept : (id : String) → id ≢ uuid → holder id v ≡ holder id u
  pub answer : was_locked ≡ true ↔ holder uuid u ≢ none
  pub others_latest :
      (name id : String)
      → id ≢ uuid
      → get_latest_uuid name u ≡ some id
      → get_latest_uuid name v ≡ some id
  pub consistent : IsConsistent v

module _ (uuid : String) (u : UuidMutex) (c : IsConsistent u) where
  unlock_held_lem :
      (o : Option String)
      → holder uuid u ≡ o
      → Unlocks uuid u (unlock_held uuid o u).0 (unlock_held uuid o u).1
  unfolding unlock_held get_latest_uuid
  unlock_held_lem none e = record {
    released = e;
    not_latest = λ n h. ground (arith, c.latest_held n uuid h, e);
    kept = λ id ne. refl;
    answer = (λ h. ground (arith, h), λ h. absurd (h e));
    others_latest = λ n id ne h. h;
    consistent = c;
  }
  unlock_held_lem (some name) e = record {
    released = ground (arith, lookup-delete uuid uuid u.id_name_map, eq_iff uuid uuid);
    not_latest = λ n h. ground (
      arith,
      forget_latest_lem uuid name n u.name_latest_id_map,
      c.latest_held n uuid,
      e,
      eq_iff name n,
      eq_iff uuid uuid,
      h,
    );
    kept = λ id ne. ground (arith, lookup-delete uuid id u.id_name_map, eq_iff uuid id);
    answer = (λ h. λ n. ground (arith, e, n), λ h. refl);
    others_latest = λ n id ne h. ground (
      arith,
      forget_latest_lem uuid name n u.name_latest_id_map,
      eq_iff name n,
      eq_iff id uuid,
      h,
    );
    consistent = record {
      listed_once = delete-Distinct uuid u.id_name_map c.listed_once;
      latest_held = λ n id h. ground (
        arith,
        forget_latest_lem uuid name n u.name_latest_id_map,
        c.latest_held n id,
        c.latest_held n uuid,
        lookup-delete uuid id u.id_name_map,
        eq_iff name n,
        eq_iff uuid id,
        e,
        h,
      );
    };
  }

  -- On a consistent mutex Unlock leaves a consistent mutex in which nobody holds the UUID and no name
  -- has it as its latest, keeps the holder of every other UUID and every latest UUID but this one, and
  -- answers true exactly if somebody held it.
  pub unlock-Unlocks : Unlocks uuid u (unlock uuid u).0 (unlock uuid u).1
  unfolding unlock
  unlock-Unlocks = unlock_held_lem (lookup uuid u.id_name_map) refl
