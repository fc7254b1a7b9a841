-- ===== src/Runtime.antt =====
-- pkg/managerruntime/manager_runtime.go: `managerRuntime`, with its lock as a part of the state. What
-- `manager.New`, the initialization and `Start` answer is given to each round of the goroutine.
pub mod Stuck
pub mod History
mod Tests
use hybridnet.Base.{
  ℕ, zero, suc, ◌+◌, ◌%◌, ◌^◌, Bool, true, false, Option, none, some, String, if◌then◌else◌,
}

-- `locked` says that the write lock is held; `live`, that the context of the last run is not cancelled.
-- The restart count is an `int32`, kept by its 32 bits.
pub record Runtime (Manager : Type 0) : Type 0 where
  pub locked : Bool
  pub mgr : Manager
  pub live : Bool
  pub running : Bool
  pub restart_count : ℕ
  pub termination_message : String

-- `DaemonStatus`
pub record Status : Type 0 where
  pub running : Bool
  pub restart_count : ℕ
  pub termination_message : String

-- What `manager.New` returns.
pub data Made (Manager : Type 0) : Type 0 where
  made : Manager → Made Manager
  failed : String → Made Manager

pub data Answer : Type 0 where
  no_error already_running : Answer

-- A call runs alone: it returns, meets a lock that another has not given back and waits, or ends the
-- process, as the unlock of an unlocked lock does.
pub data Turn (Manager A : Type 0) : Type 0 where
  returned : Runtime Manager → A → Turn Manager A
  blocked : Turn Manager A
  fatal : Turn Manager A

abbrev pub Act : Type 0 → Type 0 → Type 0
Act Manager A = Runtime Manager → Turn Manager A

module _ {Manager : Type 0} where
  infixl 5 ◌>>=◌ ◌>>◌
  abbrev pub ◌>>=◌ : {A B : Type 0} → Act Manager A → (A → Act Manager B) → Act Manager B
  ◌>>=◌ act next m = elim (act m) [ returned n a ↦ next a n | blocked ↦ blocked | fatal ↦ fatal ]

  abbrev pub ◌>>◌ : {B : Type 0} → Act Manager (Unit {0}) → Act Manager B → Act Manager B
  act >> next = act >>= λ _. next

  abbrev pub return : {A : Type 0} → A → Act Manager A
  return a m = returned m a

  abbrev pub asks : {A : Type 0} → (Runtime Manager → A) → Act Manager A
  asks f m = returned m (f m)

  abbrev pub modify : (Runtime Manager → Runtime Manager) → Act Manager (Unit {0})
  modify f m = returned (f m) tt

  -- `Lock`, `Unlock` and, for a reader that unlocks at its end, `RLock`.
  abbrev pub lock : Act Manager (Unit {0})
  lock m = if m.locked then blocked else returned (record m { locked = true }) tt

  abbrev pub unlock : Act Manager (Unit {0})
  unlock m = if m.locked then returned (record m { locked = false }) tt else fatal

  abbrev pub read_lock : Act Manager (Unit {0})
  read_lock m = if m.locked then blocked else returned m tt

  abbrev pub status_of : Runtime Manager → Status
  status_of m = record {
    running = m.running;
    restart_count = m.restart_count;
    termination_message = m.termination_message;
  }

  -- The state of a new run, and that of a stop.
  abbrev pub started : Runtime Manager → Runtime Manager
  started m = record m { live = true; running = true; restart_count = 0; termination_message = "" }

  abbrev pub stopped : Runtime Manager → Runtime Manager
  stopped m = record m {
    live = false;
    running = false;
    restart_count = 0;
    termination_message = "";
  }

  -- `restartCount++`, which wraps, and the message of the error.
  abbrev pub failing : String → Runtime Manager → Runtime Manager
  failing e m = record m { restart_count = (m.restart_count + 1) % 2 ^ 32; termination_message = e }

  start_run : Bool → Act Manager Answer
  start_run true = return already_running
  start_run false = do modify started; unlock; return no_error

  -- `Run`, but for the goroutine, whose rounds are apart.
  unfoldable pub run : Act Manager Answer
  unfolding start_run
  run = do lock; running ← asks (λ m. m.running); start_run running

  end_run : Bool → Act Manager (Unit {0})
  end_run true = modify stopped
  end_run false = return tt

  unfoldable pub stop : Act Manager (Unit {0})
  unfolding end_run
  stop = do lock; running ← asks (λ m. m.running); end_run running; unlock

  unfoldable pub status : Act Manager Status
  status = do read_lock; asks status_of

  unfoldable pub manager : Act Manager Manager
  manager = do read_lock; asks (λ m. m.mgr)

  -- The new manager is stored.
  unfoldable pub store_manager : Manager → Act Manager (Unit {0})
  store_manager new = do lock; modify (λ m. record m { mgr = new }); unlock

  -- `Start` has returned an error.
  unfoldable pub exit_manager : String → Act Manager (Unit {0})
  exit_manager e = do lock; modify (failing e); unlock

  -- After the manager is made and initialized: it is stored and started.
  start_manager : Manager → Option String → Act Manager (Unit {0})
  unfolding store_manager exit_manager
  start_manager new none = store_manager new
  start_manager new (some e) = do store_manager new; exit_manager e

  init_manager : Manager → Option String → Option String → Act Manager (Unit {0})
  unfolding start_manager
  init_manager new none start = start_manager new start
  init_manager new (some e) start = do modify (failing e); unlock

  -- A round of the goroutine; `init` and `start` are the errors of the initialization and of `Start`.
  unfoldable pub round : Made Manager → Option String → Option String → Act Manager (Unit {0})
  unfolding init_manager
  round (failed e) init start = do modify (failing e); unlock
  round (made new) init start = init_manager new init start

  -- `NewManagerRuntime`; the error of the constructor or of the initialization is passed on.
  unfoldable pub new_manager_runtime : Made Manager → Option String → Option (Runtime Manager)
  new_manager_runtime (failed e) init = none
  new_manager_runtime (made mgr) (some e) = none
  new_manager_runtime (made mgr) none = some (record {
    locked = false;
    mgr = mgr;
    live = false;
    running = false;
    restart_count = 0;
    termination_message = "";
  })
