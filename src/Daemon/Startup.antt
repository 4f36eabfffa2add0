-- ===== src/Daemon/Startup.antt =====
-- How the daemon starts: crates/camera-dbus/src/service.rs, `DbusService::session`, and
-- daemon/src/runtime.rs, the beginning of `run_daemon`, `run_standalone_dbus`, `shutdown_signal`.
pub mod WholeRun
use lensguard.Prelude.{
  false, true, ℕ, Option, none, some, [], Result, ok, err, ◌>>=◌, ◌>>◌, map_err,
}
use lensguard.Io.{ErrorKind, broken_pipe}
use lensguard.Core.State.{MonitorState, new_state}
use lensguard.Dbus.Service.{ServiceError, DbusService}
use lensguard.Resolver.Cache.{ApplicationResolver, with_sources}
use lensguard.Daemon.Application.{Worker, Pipeline}
use lensguard.Daemon.Runtime.{RuntimeError, dbus, signal, resolver, initializing_state}

-- What the bus answers while the service is built: to the builder, the object, the name and the
-- connection.
pub record BusCalls : Type 0 where
  pub builder : Result ServiceError (Unit {0})
  pub serve_at : Result ServiceError (Unit {0})
  pub name : Result ServiceError (Unit {0})
  pub build : Result ServiceError (Unit {0})

-- `DbusService::session`
unfoldable pub session : BusCalls → MonitorState → Result ServiceError DbusService
session calls initial_state = do
  calls.builder
  calls.serve_at
  calls.name
  calls.build
  ok (record { exported = true; named = true; state = initial_state })

-- Which of the two signals comes first, and what waiting for it gives.
pub data SignalWait : Type 0 where
  ctrl_c : Result ErrorKind (Unit {0}) → SignalWait
  terminate : Option (Unit {0}) → SignalWait

abbrev waited : SignalWait → Result ErrorKind (Unit {0})
waited (ctrl_c result) = result
waited (terminate none) = err broken_pipe
waited (terminate (some _)) = ok tt

-- `shutdown_signal`: the handler is installed, and then the first signal is awaited.
unfoldable pub shutdown_signal :
    Result ErrorKind (Unit {0}) → SignalWait → Result ErrorKind (Unit {0})
shutdown_signal installed first = do installed; waited first

-- `run_standalone_dbus`
unfoldable pub run_standalone_dbus :
    BusCalls
    → Result ErrorKind (Unit {0})
    → SignalWait
    → (DbusService → Result ServiceError (Unit {0}))
    → Result RuntimeError (Unit {0})
run_standalone_dbus calls installed first shutdown = do
  service ← map_err dbus (session calls new_state)
  map_err signal (shutdown_signal installed first)
  map_err dbus (shutdown service)

abbrev pub application_queue_capacity : ℕ
application_queue_capacity = 128

abbrev resolver_cache_capacity : ℕ
resolver_cache_capacity = 128

-- What the tasks are given: the service, and the pipeline, which has published nothing.
pub record Started : Type 0 where
  pub service : DbusService
  pub pipeline : Pipeline ApplicationResolver

-- The beginning of `run_daemon`; `room` is how many events the publisher takes.
unfoldable pub start_daemon : BusCalls → Option ℕ → Result RuntimeError Started
start_daemon calls room = do
  service ← map_err dbus (session calls initializing_state)
  made ← map_err (λ _. resolver) (with_sources resolver_cache_capacity)
  ok (record {
    service = service;
    pipeline = record {
      worker = record { resolver = made; busy = false; poisoned = false };
      state = initializing_state;
      published = [];
      room = room;
    };
  })
