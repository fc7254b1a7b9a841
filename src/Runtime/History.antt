-- ===== src/Runtime/History.antt =====
-- Histories of calls and rounds of `managerRuntime` (pkg/managerruntime/manager_runtime.go).
use native.Mathlib.Nat.{mod-add-mod}
use hybridnet.Base.{
  Bool-cases, inl, inr, if◌then◌else◌, ℕ, suc, ◌+◌, ◌%◌, ◌^◌, ◌≡◌, ◌∙◌, ap, refl, arith, length,
  Bool, true, false, List, [], ◌∷◌, Option, none, some, String,
}
use hybridnet.Runtime.{
  store_manager, exit_manager, Runtime, made, failed, Act, ◌>>=◌, ◌>>◌, return, returned, blocked,
  fatal, run, stop, round, new_manager_runtime,
}

-- A call of Run or Stop, or what a round does when it has made and initialized a manager: it stores the
-- manager, and counts the error of `Start` if there is one. A round that is not at its end when a call
-- comes goes on after it.
pub data Event (Manager : Type 0) : Type 0 where
  run_call stop_call : Event Manager
  stored : Manager → Event Manager
  exited : String → Event Manager

abbrev pub first_or : String → List String → String
first_or s [] = s
first_or s (x ∷ xs) = x

-- One more failure, which the list counts.
counted : (k : ℕ) → (k % 2 ^ 32 + 1) % 2 ^ 32 ≡ suc k % 2 ^ 32
counted k = mod-add-mod k (2 ^ 32) 1 ∙ ap (λ (x : ℕ). x % 2 ^ 32) (omega arith)

module _ {Manager : Type 0} where
  unfoldable pub play : Event Manager → Act Manager (Unit {0})
  play run_call = do _ ← run; return tt
  play stop_call = stop
  play (stored new) = store_manager new
  play (exited e) = exit_manager e

  -- The events run one after another; the newest is the first of the list.
  pub replay : List (Event Manager) → Act Manager (Unit {0})
  unfolding play
  replay [] = return tt
  replay (e ∷ es) = do replay es; play e

  -- Whether something runs: the last of the calls was Run.
  abbrev pub runs : List (Event Manager) → Bool
  runs [] = false
  runs (run_call ∷ es) = true
  runs (stop_call ∷ es) = false
  runs (stored new ∷ es) = runs es
  runs (exited e ∷ es) = runs es

  -- Histories in which Run is called only while nothing runs.
  pub data Orderly : List (Event Manager) → Type 0 where
    fresh : Orderly []
    ran : {es : List (Event Manager)} → runs es ≡ false → Orderly es → Orderly (run_call ∷ es)
    ended : {es : List (Event Manager)} → Orderly es → Orderly (stop_call ∷ es)
    stored_one :
        {es : List (Event Manager)} (new : Manager) → Orderly es → Orderly (stored new ∷ es)
    exited_one : {es : List (Event Manager)} (e : String) → Orderly es → Orderly (exited e ∷ es)

  -- The errors of `Start` since the last Run, or the last Stop of something that ran, the newest first.
  abbrev pub failures : List (Event Manager) → List String
  failures [] = []
  failures (run_call ∷ es) = []
  failures (stop_call ∷ es) = if runs es then [] else failures es
  failures (stored new ∷ es) = failures es
  failures (exited e ∷ es) = e ∷ failures es

  -- The manager that was stored last.
  abbrev pub newest : Manager → List (Event Manager) → Manager
  newest mgr [] = mgr
  newest mgr (run_call ∷ es) = newest mgr es
  newest mgr (stop_call ∷ es) = newest mgr es
  newest mgr (stored new ∷ es) = new
  newest mgr (exited e ∷ es) = newest mgr es

  -- What a history is meant to leave: a free lock, the newest manager, and the count and the last of the
  -- failures.
  abbrev pub left : Manager → List (Event Manager) → Runtime Manager
  left mgr es = record {
    locked = false;
    mgr = newest mgr es;
    live = runs es;
    running = runs es;
    restart_count = length (failures es) % 2 ^ 32;
    termination_message = first_or "" (failures es);
  }

  pub seq_lem :
      {B : Type 0} (act : Act Manager (Unit {0})) (next : Act Manager B) (s m : Runtime Manager)
      → act s ≡ returned m tt
      → (act >> next) s ≡ next m
  seq_lem act next s m e =
      ap (λ t. elim t [ returned n a ↦ next n | blocked ↦ blocked | fatal ↦ fatal ]) e

  -- What each event does to what a history is meant to leave.
  plays_lem :
      (mgr : Manager) (e : Event Manager) (es : List (Event Manager))
      → Orderly (e ∷ es)
      → Orderly es × (play e (left mgr es) ≡ returned (left mgr (e ∷ es)) tt)
  unfolding play run stop store_manager exit_manager
  plays_lem mgr _ _ (ran still h) = (h, rw (still) refl)
  plays_lem mgr _ _ (ended {es = es} h) =
      (h, elim (Bool-cases (runs es)) [ inl r ↦ rw (r) refl | inr r ↦ rw (r) refl ])
  plays_lem mgr _ _ (stored_one new h) = (h, refl)
  plays_lem mgr _ _ (exited_one {es = es} e h) = (h, rw (counted (length (failures es))) refl)

  left_lem :
      (mgr : Manager) (es : List (Event Manager))
      → Orderly es
      → replay es (left mgr []) ≡ returned (left mgr es) tt
  unfolding replay
  left_lem mgr [] fresh = refl
  left_lem mgr (e ∷ es) h =
      let (before, here) = plays_lem mgr e es h in
      seq_lem (replay es) (play e) _ (left mgr es) (left_lem mgr es before) ∙ here

  created_lem :
      (mgr : Manager) (m : Runtime Manager)
      → new_manager_runtime (made mgr) none ≡ some m
      → m ≡ left mgr []
  unfolding new_manager_runtime
  created_lem mgr m e = cc e

  -- From a new runtime, any history in which Run is called only while nothing runs ends without waiting;
  -- managers may be stored and Starts may fail at any time in it. The lock is free then, the manager is
  -- the one stored last, something runs if the last of the calls was Run, the restart count is the number
  -- of Starts that failed since the last Run or the last Stop of something that ran, modulo 2 ^ 32, and
  -- the message is that of the last of them. A round that then fails to make or to initialize its manager
  -- ends the process.
  pub replay-left :
      (mgr : Manager) (m : Runtime Manager) (es : List (Event Manager))
      → new_manager_runtime (made mgr) none ≡ some m
      → Orderly es
      → (replay es m
          ≡ returned
              (record {
                locked = false;
                mgr = newest mgr es;
                live = runs es;
                running = runs es;
                restart_count = length (failures es) % 2 ^ 32;
                termination_message = first_or "" (failures es);
              })
              tt)
        × ((e : String) (init start : Option String)
            → (replay es >> round (failed e) init start) m ≡ fatal)
        × ((new : Manager) (e : String) (start : Option String)
            → (replay es >> round (made new) (some e) start) m ≡ fatal)
  unfolding round
  replay-left mgr m es new h =
      let q = created_lem mgr m new in
      let r = left_lem mgr es h in
      (
        rw (q, r) refl,
        λ e init start. rw q (seq_lem (replay es) (round (failed e) init start) _ _ r ∙ refl),
        λ new e start. rw q (seq_lem (replay es) (round (made new) (some e) start) _ _ r ∙ refl),
      )
