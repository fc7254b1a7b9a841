-- ===== src/Runtime/Stuck.antt =====
-- Where the lock of `managerRuntime` (pkg/managerruntime/manager_runtime.go) is not given back.
use native.Mathlib.Nat.{mod-add-mod}
use hybridnet.Base.{
  ◌+◌, ◌%◌, ◌^◌, ◌∙◌, ◌≡◌, refl, length, true, List, Option, none, String, some, String,
}
use hybridnet.Runtime.{
  store_manager, exit_manager, Runtime, made, failed, already_running, ◌>>◌, returned, blocked, run,
  stop, status, manager, round, new_manager_runtime,
}
use hybridnet.Runtime.History.{
  Event, run_call, stop_call, stored, exited, runs, play, replay, Orderly, failures, left,
  replay-left, seq_lem,
}

module _ {Manager : Type 0} where
  -- Every call, and every round that has made and initialized a manager, waits for the lock.
  pub record Waits (m : Runtime Manager) : Type 0 where
    pub plays : (e : Event Manager) → play e m ≡ blocked
    pub tells : status m ≡ blocked
    pub manages : manager m ≡ blocked

  play_locked : (m : Runtime Manager) (e : Event Manager) → m.locked ≡ true → play e m ≡ blocked
  unfolding play run stop store_manager exit_manager
  play_locked m run_call h = rw (h) refl
  play_locked m stop_call h = rw (h) refl
  play_locked m (stored new) h = rw (h) refl
  play_locked m (exited e) h = rw (h) refl

  locked-Waits : (m : Runtime Manager) → m.locked ≡ true → Waits m
  unfolding status manager
  locked-Waits m h = record {
    plays = λ e. play_locked m e h;
    tells = rw (h) refl;
    manages = rw (h) refl;
  }

  -- The state that a history leaves, with the lock held.
  abbrev pub held : Manager → List (Event Manager) → Runtime Manager
  held mgr es = record (left mgr es) { locked = true }

  -- After a history from a new runtime in which Run is called only while nothing runs: if something runs
  -- at its end, a further Run returns its error and keeps the lock. Run, Stop, Status, Manager and a round
  -- that has made and initialized its manager wait then; a round that fails to make or to initialize one
  -- does not, is counted, and gives back the lock that it has not taken.
  pub run-Waits :
      (mgr : Manager) (m : Runtime Manager) (es : List (Event Manager))
      → new_manager_runtime (made mgr) none ≡ some m
      → Orderly es
      → runs es ≡ true
      → ((replay es >> run) m ≡ returned (held mgr es) already_running)
        × Waits (held mgr es)
        × ((new : Manager) (e : String) (init start : Option String)
            → let after = record (left mgr es) {
              restart_count = (length (failures es) + 1) % 2 ^ 32;
              termination_message = e;
            } in
              (round (failed e) init start (held mgr es) ≡ returned after tt)
              × (round (made new) (some e) start (held mgr es) ≡ returned after tt))
  unfolding run round
  run-Waits mgr m es new h running = (
    seq_lem (replay es) run m (left mgr es) (replay-left mgr m es new h).0 ∙ rw (running) refl,
    locked-Waits (held mgr es) refl,
    λ new e init start.
        let q = mod-add-mod (length (failures es)) (2 ^ 32) 1 in (rw q refl, rw q refl),
  )
