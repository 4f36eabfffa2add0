-- ===== src/Daemon/Startup/WholeRun.antt =====
-- The daemon from its start to the object on the bus.
use lensguard.Prelude.{refl, ◌∙◌, codes, arith, ℕ, ◌≡◌, Option, List, [], map, ok, true}
use lensguard.Core.Model.{ApplicationIdentity}
use lensguard.Core.Capture.{ObserverAvailability}
use lensguard.Core.State.{MonitorEvent, new_state, apply}
use lensguard.Resolver.Cache.{ApplicationResolver, with_sources}
use lensguard.Resolver.Request.{ResolutionRequest}
use lensguard.Daemon.Application.{Lookup, Leftover, run_application}
use lensguard.Daemon.Runtime.{publish_events, initializing_state}
use lensguard.Daemon.Runtime.Published.{unlimited, run_application-publish_events}
use lensguard.Daemon.Startup.{BusCalls, Started, session, start_daemon}

started_fresh :
    (calls : BusCalls) (room : Option ℕ) (s : Started)
    → start_daemon calls room ≡ ok s
    → (s.service.exported ≡ true)
      × (s.service.state ≡ s.pipeline.state)
      × (s.pipeline.published ≡ [])
      × (s.pipeline.state ≡ initializing_state)
unfolding start_daemon session with_sources
started_fresh calls room s h = ground arith

starts_unconnected : initializing_state ≡ record new_state {
  observer_availability = ObserverAvailability.connection_failed;
  observer_status_detail = codes "V4L2 observer connection is pending";
}
unfolding initializing_state apply
starts_unconnected = refl

-- From the start of the daemon to the bus: if the daemon starts, and its pipeline ends without an
-- error, then the service and the pipeline began with the state of an observer that is not connected,
-- and a publisher that has worked off what it was given shows the pipeline's state.
pub start_daemon-publish_events :
    (lookup : ResolutionRequest → ApplicationResolver → ApplicationIdentity × ApplicationResolver)
    (events : List (Leftover × Lookup × MonitorEvent)) (calls : BusCalls) (room : Option ℕ)
    (s : Started)
    → start_daemon calls room ≡ ok s
    → (run_application lookup events s.pipeline).0 ≡ ok tt
    → let after = (run_application lookup events s.pipeline).1 in
      let unconnected = record new_state {
        observer_availability = ObserverAvailability.connection_failed;
        observer_status_detail = codes "V4L2 observer connection is pending";
      } in
      (s.service.state ≡ unconnected)
      × (s.pipeline.state ≡ unconnected)
      × ((publish_events (map unlimited after.published) (s.service, [])).1.0.state ≡ after.state)
start_daemon-publish_events lookup events calls room s h ended =
    let (there, same, fresh, initial) = started_fresh calls room s h in
    (
      same ∙ initial ∙ starts_unconnected,
      initial ∙ starts_unconnected,
      run_application-publish_events lookup events s.pipeline s.service there same fresh ended,
    )
