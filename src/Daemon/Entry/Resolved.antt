-- ===== src/Daemon/Entry/Resolved.antt =====
-- How the watching command and the daemon's pipeline name applications.
use lensguard.Prelude.{◌≡◌, refl, ok}
use lensguard.Core.Model.{ApplicationIdentity}
use lensguard.Core.State.{
  MonitorEvent, session_started, session_updated, session_stopped, observer_availability_changed,
  suppression_diagnostics_changed,
}
use lensguard.Resolver.Request.{ResolutionRequest}
use lensguard.Daemon.Application.{in_time, Worker, resolve_event, resolve_identity, run_lookup}
use lensguard.Daemon.Entry.{false, resolve_application}

module _ {ℓ} {R : Type ℓ} (lookup : ResolutionRequest → R → ApplicationIdentity × R) where
  abbrev pub idle : R → Worker R
  idle resolver = record { resolver = resolver; busy = false; poisoned = false }

  -- What `watch-v4l2` makes of an event is what the daemon makes of it when the lookup comes in time
  -- and no worker was left behind: the same event, and the same resolver afterwards.
  pub resolve_event-resolve_application :
      (event : MonitorEvent) (resolver : R)
      → resolve_event lookup in_time event (idle resolver) ≡ (
        ok (resolve_application lookup event resolver).0,
        idle (resolve_application lookup event resolver).1,
      )
  unfolding resolve_event resolve_identity run_lookup resolve_application
  resolve_event-resolve_application (session_started session) resolver = refl
  resolve_event-resolve_application (session_updated session) resolver = refl
  resolve_event-resolve_application (session_stopped id) resolver = refl
  resolve_event-resolve_application (observer_availability_changed a d) resolver = refl
  resolve_event-resolve_application (suppression_diagnostics_changed d) resolver = refl
