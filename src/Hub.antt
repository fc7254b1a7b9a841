-- ===== src/Hub.antt =====
-- pkg/managerruntime/daemonhub.go: `daemonHub`, whose lock each method holds for its whole length, so that
-- a method is one step. A daemon (pkg/managerruntime/interface.go) is what its caller registered.
pub mod Laws
mod Tests
use hybridnet.Base.{[], Bool, true, false, Option, none, some, String, if◌then◌else◌}
use hybridnet.Base.Dict
use hybridnet.Base.Dict.{Dict}

-- `Daemon`, as far as the hub calls it; an error is a text.
pub record Daemon (D : Type 0) : Type 0 where
  pub run : D → D × Option String
  pub stop : D → D × Option String
  pub running : D → Bool

pub data Denial : Type 0 where
  nil_daemon registered not_found is_running : Denial
  failed : String → Denial

-- A method of the hub leaves a hub, and an error or none.
abbrev pub Method : Type 0 → Type 0
Method D = Dict D → Dict D × Option Denial

-- The error of a daemon is the hub's.
abbrev pub passed_on : Option String → Option Denial
passed_on none = none
passed_on (some e) = some (failed e)

module _ {D : Type 0} where
  register_new : String → D → Bool → Method D
  register_new id daemon true hub = (hub, some registered)
  register_new id daemon false hub = (Dict.insert id daemon hub, none)

  -- `Register`; no daemon is nil.
  unfoldable pub register : String → Option D → Method D
  unfolding register_new
  register id none hub = (hub, some nil_daemon)
  register id (some daemon) hub = register_new id daemon (Dict.has id hub) hub

  unfoldable pub is_registered : String → Dict D → Bool
  is_registered id hub = Dict.has id hub

  unfoldable pub get : String → Dict D → Option D
  get id hub = Dict.lookup id hub

  module _ (ops : Daemon D) where
    unfoldable pub unregister : String → Method D
    unregister id hub = elim (Dict.lookup id hub) [
      | none ↦ (hub, none)
      | some daemon ↦
          if ops.running daemon then (hub, some is_running) else (Dict.delete id hub, none)
    ]

    unfoldable pub run : String → Method D
    run id hub = elim (Dict.lookup id hub) [
      | none ↦ (hub, some not_found)
      | some daemon ↦ (Dict.insert id (ops.run daemon).0 hub, passed_on (ops.run daemon).1)
    ]

    unfoldable pub stop : String → Method D
    stop id hub = elim (Dict.lookup id hub) [
      | none ↦ (hub, some not_found)
      | some daemon ↦ (Dict.insert id (ops.stop daemon).0 hub, passed_on (ops.stop daemon).1)
    ]

-- `NewDaemonHub`
abbrev pub new_daemon_hub : {D : Type 0} → Dict D
new_daemon_hub = []

-- The calls that change a hub.
pub data Call (D : Type 0) : Type 0 where
  registers : String → Option D → Call D
  unregisters runs stops : String → Call D

abbrev pub call : {D : Type 0} → Daemon D → Call D → Method D
call ops (registers id daemon) = register id daemon
call ops (unregisters id) = unregister ops id
call ops (runs id) = run ops id
call ops (stops id) = stop ops id
