-- ===== src/Daemon/Runtime.antt =====
-- daemon/src/runtime.rs: the initial state, the publisher, and how the daemon ends.
pub mod Published
pub mod Shutdown
use lensguard.Prelude.{
  ℕ, Bool, true, false, List, [], ◌∷◌, ◌++◌, Option, none, some, Result, ok, err, ◌>>=◌, ◌>>◌,
  fail_if, map_err, Text, codes,
}
use lensguard.Core.Capture.{ObserverAvailability}
use lensguard.Core.State.{
  MonitorEvent, observer_availability_changed, MonitorState, new_state, apply,
}
use lensguard.Daemon.Application.{ApplicationError}
use lensguard.Daemon.Backend.{SupervisorExit}
use lensguard.Io.{ErrorKind}
use lensguard.Dbus.Service.{ServiceError, DbusService, Signal, apply_event}

abbrev pub initial_observer_reason : Text
initial_observer_reason = codes "V4L2 observer connection is pending"

-- `initializing_state`
unfoldable pub initializing_state : MonitorState
initializing_state =
    (apply
      (observer_availability_changed ObserverAvailability.connection_failed initial_observer_reason)
      new_state).0

-- The service and the signals that it has sent.
abbrev pub Publisher : Type 0
Publisher = DbusService × List Signal

-- `publish_events`: each event with how many signals the bus takes for it.
unfoldable pub publish_events :
    List (Option ℕ × MonitorEvent) → Publisher → Result ServiceError (Unit {0}) × Publisher
publish_events [] p = (ok tt, p)
publish_events ((room, event) ∷ rest) (service, signals) =
    let (result, (service', sent)) = apply_event room event service in
    elim result [
      | err e ↦ (err e, (service', signals ++ sent))
      | ok _ ↦ publish_events rest (service', signals ++ sent)
    ]

pub data RuntimeError : Type 0 where
  resolver task : RuntimeError
  dbus : ServiceError → RuntimeError
  signal : ErrorKind → RuntimeError
  application : ApplicationError → RuntimeError
  unexpected_task_exit shutdown_timeout : Text → RuntimeError

pub data FirstExit : Type 0 where
  on_signal : Result ErrorKind (Unit {0}) → FirstExit
  on_backend on_application on_publisher : FirstExit

-- How a task ends: with its value, by a panic, or not within the deadline of the shutdown.
pub data Joined {ℓ} (A : Type ℓ) : Type ℓ where
  finished : A → Joined A
  panicked overdue : Joined A

-- `await_task`, and the result of a task that was the first to exit, which is not overdue.
abbrev pub await_task {ℓ} : {A : Type ℓ} → Text → Joined A → Result RuntimeError A
await_task name (finished a) = ok a
await_task name panicked = err task
await_task name overdue = err (shutdown_timeout name)

-- `publisher_cleanup`: a publisher that ended well is shut down; `shutdown` is what that gives.
abbrev pub publisher_cleanup :
    Joined (Result ServiceError DbusService)
    → (DbusService → Result ServiceError (Unit {0}))
    → Result RuntimeError (Unit {0})
publisher_cleanup publisher shutdown = do
  published ← await_task (codes "publisher") publisher
  service ← map_err dbus published
  map_err dbus (shutdown service)

abbrev pub signal_received : FirstExit → Result RuntimeError (Unit {0})
signal_received (on_signal result) = map_err signal result
signal_received _ = ok tt

abbrev exited : FirstExit → Text
exited (on_signal result) = codes "backend"
exited on_backend = codes "backend"
exited on_application = codes "application"
exited on_publisher = codes "publisher"

abbrev final : FirstExit → SupervisorExit → Result RuntimeError (Unit {0})
final (on_signal result) SupervisorExit.shutdown = ok tt
final first exit = err (unexpected_task_exit (exited first))

-- The end of `run_daemon`, once a task or a signal has ended the wait.
unfoldable pub run_daemon :
    FirstExit
    → Joined SupervisorExit
    → Joined (Result ApplicationError MonitorState)
    → Joined (Result ServiceError DbusService)
    → (DbusService → Result ServiceError (Unit {0}))
    → Result RuntimeError (Unit {0})
run_daemon first backend application_task publisher shutdown = do
  signal_received first
  exit ← await_task (codes "backend") backend
  reduced ← await_task (codes "application") application_task
  _ ← map_err application reduced
  publisher_cleanup publisher shutdown
  final first exit
