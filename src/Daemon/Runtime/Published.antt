-- ===== src/Daemon/Runtime/Published.antt =====
-- What the bus shows once the publisher has worked off its channel.
use lensguard.Prelude.{ℕ, ◌≡◌, refl, ap, sym, ◌∙◌, true, List, [], ◌∷◌, ◌++◌, map, Option, none, ok}
use lensguard.Core.State.{MonitorEvent, MonitorState, apply}
use lensguard.Core.Model.{ApplicationIdentity}
use lensguard.Resolver.Request.{ResolutionRequest}
use lensguard.Daemon.Application.{Leftover, Lookup, Pipeline, run_application}
use lensguard.Daemon.Application.Publication.{replay, run_application-InStep}
use lensguard.Dbus.Service.{DbusService, Properties, properties, apply_event}
use lensguard.Dbus.Service.Clients.{
  note_all, note_all-append, note_all-apply_event, exported-apply_event,
}
use lensguard.Daemon.Runtime.{Publisher, publish_events}

abbrev pub unlimited : MonitorEvent → Option ℕ × MonitorEvent
unlimited e = (none, e)

-- What holds of a publisher that has been given all events so far.
abbrev Shows : Properties → MonitorState → Publisher → Type 0
Shows before s (service, signals) =
    (service.exported ≡ true) × (service.state ≡ s) × (note_all signals before ≡ properties s)

publish_events-Shows :
    (es : List MonitorEvent) (before : Properties) (s : MonitorState) (p : Publisher)
    → Shows before s p
    → ((publish_events (map unlimited es) p).0 ≡ ok tt)
      × Shows before (replay es s) (publish_events (map unlimited es) p).1
unfolding publish_events replay
publish_events-Shows [] before s p h = (refl, h)
publish_events-Shows (e ∷ es) before s (service, signals) h =
    let k = note_all-apply_event e service h.0 in
    let state : (apply_event none e service).1.0.state ≡ (apply e s).0 =
      k.1 ∙ ap (λ x. (apply e x).0) h.1 in
    rw (k.2, publish_events)
      (publish_events-Shows es before (apply e s).0
        ((apply_event none e service).1.0, signals ++ (apply_event none e service).1.1)
        (
          exported-apply_event none e service ∙ h.0,
          state,
          note_all-append signals (apply_event none e service).1.1 before
              ∙ ap (note_all (apply_event none e service).1.1) (h.2 ∙ ap properties (sym h.1))
              ∙ k.0
              ∙ ap properties state,
        ))

-- The publisher works off all events when the bus takes every signal. The object's state is then
-- the one that a consumer of these events reaches, and a client that kept the properties and
-- followed the signals keeps what the properties now read.
publish_events-replay :
    (es : List MonitorEvent) (service : DbusService)
    → service.exported ≡ true
    → let published = publish_events (map unlimited es) (service, []) in
      (published.0 ≡ ok tt)
      × (published.1.0.state ≡ replay es service.state)
      × (note_all published.1.1 (properties service.state) ≡ properties published.1.0.state)
publish_events-replay es service there =
    let k =
      publish_events-Shows es (properties service.state) service.state (service, [])
        (there, refl, unfold note_all in refl) in
    (k.0, k.1.1, k.1.2 ∙ ap properties (sym k.1.1))

-- From the backend's channel to the bus: when the pipeline ends without an error and the publisher
-- has worked off what it was given, the object on the bus is in the pipeline's state.
pub run_application-publish_events :
    {R : Type 0} (lookup : ResolutionRequest → R → ApplicationIdentity × R)
    (events : List (Leftover × Lookup × MonitorEvent)) (p : Pipeline R) (service : DbusService)
    → service.exported ≡ true
    → service.state ≡ p.state
    → p.published ≡ []
    → (run_application lookup events p).0 ≡ ok tt
    → let after = (run_application lookup events p).1 in
      (publish_events (map unlimited after.published) (service, [])).1.0.state ≡ after.state
run_application-publish_events lookup events p service there same fresh ended =
    (publish_events-replay (run_application lookup events p).1.published service there).1
    ∙ ap (replay (run_application lookup events p).1.published) same
    ∙ run_application-InStep lookup events p.state p (rw fresh (unfold replay in refl)) ended
