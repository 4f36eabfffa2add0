-- ===== src/Daemon/Runtime/Shutdown.antt =====
-- When the daemon ends without an error.
use lensguard.Prelude.{◌≡◌, refl, ◌↔◌, Result, ok, arith}
use lensguard.Core.State.{MonitorState}
use lensguard.Daemon.Application.{ApplicationError}
use lensguard.Daemon.Backend.{SupervisorExit}
use lensguard.Dbus.Service.{ServiceError, DbusService}
use lensguard.Daemon.Runtime.{FirstExit, on_signal, Joined, finished, run_daemon}

-- A clean end: a signal came first, and every task ended well within the deadline.
pub record IsClean (first : FirstExit) (backend : Joined SupervisorExit)
    (application_task : Joined (Result ApplicationError MonitorState))
    (publisher : Joined (Result ServiceError DbusService))
    (shutdown : DbusService → Result ServiceError (Unit {0})) : Type 0 where
  pub signalled : first ≡ on_signal (ok tt)
  pub stopped : backend ≡ finished SupervisorExit.shutdown
  pub final_state : MonitorState
  pub reduced : application_task ≡ finished (ok final_state)
  pub service : DbusService
  pub published : publisher ≡ finished (ok service)
  pub cleaned : shutdown service ≡ ok tt

IsClean-run_daemon :
    (first : FirstExit) (backend : Joined SupervisorExit)
    (application_task : Joined (Result ApplicationError MonitorState))
    (publisher : Joined (Result ServiceError DbusService))
    (shutdown : DbusService → Result ServiceError (Unit {0}))
    → IsClean first backend application_task publisher shutdown
    → run_daemon first backend application_task publisher shutdown ≡ ok tt
unfolding run_daemon
IsClean-run_daemon first backend application_task publisher shutdown c =
    rw (c.signalled, c.stopped, c.reduced, c.published) (rw (c.cleaned) refl)

run_daemon-IsClean :
    (first : FirstExit) (backend : Joined SupervisorExit)
    (application_task : Joined (Result ApplicationError MonitorState))
    (publisher : Joined (Result ServiceError DbusService))
    (shutdown : DbusService → Result ServiceError (Unit {0}))
    → run_daemon first backend application_task publisher shutdown ≡ ok tt
    → IsClean first backend application_task publisher shutdown
unfolding run_daemon
run_daemon-IsClean (on_signal (ok tt)) (finished SupervisorExit.shutdown) (finished (ok s))
      (finished (ok d)) shutdown h =
    record {
      signalled = refl;
      stopped = refl;
      final_state = s;
      reduced = refl;
      service = d;
      published = refl;
      cleaned = ground arith;
    }
run_daemon-IsClean first backend application_task publisher shutdown h = ground arith

-- The daemon ends without an error exactly when a signal was received before any task ended, the
-- supervisor saw the shutdown, the application and the publisher ended well, none of them panicked
-- or missed the deadline, and the service was removed from the bus.
pub run_daemon-ok_iff :
    (first : FirstExit) (backend : Joined SupervisorExit)
    (application_task : Joined (Result ApplicationError MonitorState))
    (publisher : Joined (Result ServiceError DbusService))
    (shutdown : DbusService → Result ServiceError (Unit {0}))
    → (run_daemon first backend application_task publisher shutdown ≡ ok tt)
      ↔ IsClean first backend application_task publisher shutdown
run_daemon-ok_iff first backend application_task publisher shutdown = (
  run_daemon-IsClean first backend application_task publisher shutdown,
  IsClean-run_daemon first backend application_task publisher shutdown,
)
