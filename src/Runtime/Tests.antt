-- ===== src/Runtime/Tests.antt =====
-- Instances of the theorems of pkg/managerruntime, with texts for managers.
use hybridnet.Base.{◌≡◌, refl, List, [], ◌∷◌, Option, String, true, false, none, some}
use hybridnet.Runtime.{
  Runtime, returned, fatal, made, failed, already_running, ◌>>◌, run, round, new_manager_runtime,
}
use hybridnet.Runtime.Stuck.{Waits, held, run-Waits}
use hybridnet.Runtime.History.{
  Event, run_call, stop_call, stored, exited, replay, Orderly, fresh, ran, ended, stored_one,
  exited_one, left, replay-left,
}

abbrev start : Runtime String
start = left "m1" []

start_new : new_manager_runtime (made "m1") none ≡ some start
unfolding new_manager_runtime
start_new = refl

-- A run whose second manager failed to start, when it had been stopped and run again.
abbrev events : List (Event String)
events =
    exited "exit" ∷ run_call ∷ stop_call ∷ stored "m3" ∷ exited "lost" ∷ stored "m2" ∷ run_call ∷ []

events-Orderly : Orderly events
events-Orderly =
    exited_one "exit"
      (ran refl (ended (stored_one "m3" (exited_one "lost" (stored_one "m2" (ran refl fresh))))))

replay-left_example :
    (replay events start
      ≡ returned
          (record {
            locked = false;
            mgr = "m3";
            live = true;
            running = true;
            restart_count = 1;
            termination_message = "exit";
          })
          tt)
    × ((e : String) (init start_error : Option String)
        → (replay events >> round (failed e) init start_error) start ≡ fatal)
    × ((made_new : String) (e : String) (start_error : Option String)
        → (replay events >> round (made made_new) (some e) start_error) start ≡ fatal)
replay-left_example = replay-left "m1" start events start_new events-Orderly

run-Waits_example :
    ((replay events >> run) start ≡ returned (held "m1" events) already_running)
    × Waits (held "m1" events)
    × ((made_new : String) (e : String) (init start_error : Option String)
        → let after = record (left "m1" events) { restart_count = 2; termination_message = e } in
          (round (failed e) init start_error (held "m1" events) ≡ returned after tt)
          × (round (made made_new) (some e) start_error (held "m1" events) ≡ returned after tt))
run-Waits_example = run-Waits "m1" start events start_new events-Orderly refl
