-- ===== src/Tests/DbusTests.antt =====
-- The theorems on the bus at concrete states.
use lensguard.Prelude.{◌≡◌, refl, true, none, ok}
use lensguard.Core.State.{session_stopped, session_started, snapshot, new_state}
use lensguard.Core.State
use lensguard.Daemon.Source.Mirror.{tracked}
use lensguard.Dbus.Service.{DbusService, properties, apply_event}
use lensguard.Dbus.Service.Clients.{note_all, note_all-apply_event}
use lensguard.Dbus.Service.Sessions.{follow_all, follow_all-apply_event}
use lensguard.Tests.Samples.{session, watching}

abbrev pub service : DbusService
service = record { exported = true; named = true; state = watching }

note_all-apply_event_example :
    (note_all (apply_event none (session_stopped session.id) service).1.1 (properties watching)
      ≡ properties (apply_event none (session_stopped session.id) service).1.0.state)
    × ((apply_event none (session_stopped session.id) service).1.0.state
        ≡ (State.apply (session_stopped session.id) watching).0)
    × ((apply_event none (session_stopped session.id) service).0
        ≡ ok (State.apply (session_stopped session.id) watching).1)
note_all-apply_event_example = note_all-apply_event (session_stopped session.id) service refl

follow_all-apply_event_example :
    follow_all session.id
      (apply_event none (session_stopped session.id) service).1.1
      (tracked session.id watching)
    ≡ tracked session.id (apply_event none (session_stopped session.id) service).1.0.state
follow_all-apply_event_example =
    follow_all-apply_event (session_stopped session.id) service session.id refl
