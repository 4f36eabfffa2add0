-- ===== src/Tests/RuntimeTests.antt =====
-- The theorems on reconnection, the publisher and the daemon's end at concrete inputs.
use lensguard.Prelude.{
  List, codes, ◌≡◌, ◌↔◌, refl, true, false, [], ◌∷◌, none, ok, err, Result, Text, map, arith,
}
use lensguard.Core.Capture.{ObserverAvailability}
use lensguard.Core.State.{
  MonitorState, apply, insert_or_replace, MonitorEvent, session_started, new_state,
}
use lensguard.Core.State.Invariant.{new_state-IsValid}
use lensguard.OrderedMap.{get}
use lensguard.Daemon.Application.{
  process_event, resolve_event, resolve_identity, settle, run_lookup, deliver, reduce_and_reconcile,
  Pipeline, Leftover, runs_on, Lookup, in_time, run_application,
}
use lensguard.Daemon.Config.{parse_from, serve_dbus, run, debug, conflicting_commands}
use lensguard.Daemon.Config.Spellings.{spell, select, level_joined, parse_from-spell}
use lensguard.Daemon.Backoff.{delay, default_policy, exponential, delay-exponential}
use lensguard.Io.{ErrorKind, timed_out}
use lensguard.Daemon.Wire.{Codec, ObserverError}
use lensguard.Daemon.Source.{connect_to}
use lensguard.Daemon.Source.Mirror.{consume}
use lensguard.Daemon.Backend.{
  SupervisorExit, new_supervisor, delivered, step, connect_round, run_backend_supervisor,
}
use lensguard.Daemon.Backend.Observed.{ObserverRound, supervise}
use lensguard.Daemon.Backend.Reconnect.{supervise-IsMirrored}
use lensguard.Daemon.Backend.Agreement.{IsMirrored}
use lensguard.Daemon.Runtime.{initializing_state, on_signal, finished, run_daemon, publish_events}
use lensguard.Daemon.Runtime.Published.{unlimited}
use lensguard.Daemon.Runtime.Shutdown.{IsClean, run_daemon-ok_iff}
use lensguard.Dbus.Service.{DbusService, ServiceError}
use lensguard.Daemon.Startup.{BusCalls, Started, start_daemon}
use lensguard.Daemon.Startup
use lensguard.Daemon.Startup.WholeRun.{start_daemon-publish_events}
use lensguard.Resolver.Cache.{ApplicationResolver, with_sources}
use lensguard.Resolver.Request.{ResolutionRequest}
use lensguard.Core.Model.{ApplicationIdentity}
use lensguard.Tests.Samples.{session}

delay-exponential_example : delay default_policy 3 ≡ exponential default_policy 3
delay-exponential_example = delay-exponential default_policy 3 (omega arith)

-- A codec that carries nothing.
abbrev silent {ℓ} : {A : Type ℓ} → Codec A
silent = record { to_vec = λ a. none; from_slice = λ l. none }

abbrev refused : ObserverRound
refused = record {
  shutdown_now = false;
  calls = record {
    connect = err ErrorKind.not_found;
    set_write_timeout = ok tt;
    write_all = ok tt;
    set_read_timeout = ok tt;
  };
  input = record { timeout = ok tt; arrived = []; blocked = timed_out };
  sending = delivered;
  shutdown_while_waiting = false;
}

abbrev no_text : ObserverError → Text
no_text e = []

new_supervisor-IsMirrored : IsMirrored new_state new_supervisor
unfolding consume get
new_supervisor-IsMirrored id = refl

refused-runs :
    (supervise [] silent silent no_text default_policy (refused ∷ []) new_supervisor).0 ≡ none
unfolding supervise run_backend_supervisor step connect_round connect_to
refused-runs = refl

supervise-IsMirrored_example :
    IsMirrored new_state
      (supervise [] silent silent no_text default_policy (refused ∷ []) new_supervisor).1
supervise-IsMirrored_example =
    supervise-IsMirrored [] silent silent no_text default_policy new_state (refused ∷ [])
      new_supervisor new_state-IsValid new_supervisor-IsMirrored refused-runs

abbrev fresh_service : DbusService
fresh_service = record { exported = true; named = true; state = new_state }

abbrev always : DbusService → Result ServiceError (Unit {0})
always d = ok tt

run_daemon-ok_iff_example :
    (run_daemon
        (on_signal (ok tt))
        (finished SupervisorExit.shutdown)
        (finished (ok new_state))
        (finished (ok fresh_service))
        always
      ≡ ok tt)
    ↔ IsClean
        (on_signal (ok tt))
        (finished SupervisorExit.shutdown)
        (finished (ok new_state))
        (finished (ok fresh_service))
        always
run_daemon-ok_iff_example =
    run_daemon-ok_iff (on_signal (ok tt)) (finished SupervisorExit.shutdown)
      (finished (ok new_state)) (finished (ok fresh_service)) always

-- A level between two commands, in the second spelling.
parse_from-spell_example :
    parse_from (spell (select serve_dbus ∷ level_joined debug ∷ select run ∷ []))
    ≡ err (conflicting_commands serve_dbus run)
parse_from-spell_example =
    parse_from-spell (select serve_dbus ∷ level_joined debug ∷ select run ∷ [])

-- A bus that answers, and a start on it.
abbrev answering : BusCalls
answering = record { builder = ok tt; serve_at = ok tt; name = ok tt; build = ok tt }

abbrev resolving :
    ResolutionRequest → ApplicationResolver → ApplicationIdentity × ApplicationResolver
resolving request r =
    (record { pid = request.pid; app_id = none; display_name = codes "Camera"; binary = none }, r)

abbrev fresh_pipeline : Pipeline ApplicationResolver
fresh_pipeline = record {
  worker = record {
    resolver = record { cache_capacity = 128; cache = []; recency = [] };
    busy = false;
    poisoned = false;
  };
  state = initializing_state;
  published = [];
  room = none;
}

abbrev started : Started
started = record {
  service = record { exported = true; named = true; state = initializing_state };
  pipeline = fresh_pipeline;
}

started_runs : start_daemon answering none ≡ ok started
unfolding start_daemon with_sources Startup.session
started_runs = refl

abbrev one_start : List (Leftover × Lookup × MonitorEvent)
one_start = (runs_on, in_time, session_started session) ∷ []

one_start_runs : (run_application resolving one_start started.pipeline).0 ≡ ok tt
unfolding run_application process_event resolve_event resolve_identity settle run_lookup deliver
    reduce_and_reconcile apply insert_or_replace get initializing_state
one_start_runs = refl

abbrev unconnected : MonitorState
unconnected = record new_state {
  observer_availability = ObserverAvailability.connection_failed;
  observer_status_detail = codes "V4L2 observer connection is pending";
}

start_daemon-publish_events_example :
    (started.service.state ≡ unconnected)
    × (started.pipeline.state ≡ unconnected)
    × ((publish_events
          (map unlimited (run_application resolving one_start started.pipeline).1.published)
          (started.service, [])).1.0.state
        ≡ (run_application resolving one_start started.pipeline).1.state)
start_daemon-publish_events_example =
    start_daemon-publish_events resolving one_start answering none started started_runs
      one_start_runs
