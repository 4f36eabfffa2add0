-- ===== src/Dbus/Service/Sessions.antt =====
-- The signals about sessions, and the sessions that come and go.
use lensguard.Prelude.{
  ◌≡◌, refl, ap, sym, ◌∙◌, Bool, true, not, ◌||◌, ◌&&◌, List, [], ◌∷◌, ◌++◌, none, arith, text_eq,
  text_eq_iff, Bool-cases, inl, inr,
}
use lensguard.OrderedMap.Laws.{same, same_iff}
use lensguard.Core.Model.{SessionId, session_id_ord, SessionId-eq_of_text}
use lensguard.Core.State.{
  MonitorEvent, MonitorSnapshot, MonitorState, apply, snapshot, snapshot_active, snapshot_count,
}
use lensguard.Core.State.Invariant.{active_session-apply}
use lensguard.Core.State.Changes.{apply-quiet}
use lensguard.Daemon.Source.Mirror.{tracked}
use lensguard.Dbus.Dto.{session_dto}
use lensguard.Dbus.Service.{
  Signal, DbusService, signals, apply_event, active_signals, count_signals, availability_signals,
  detail_signals, diagnostics_signals, event_signals,
}
use lensguard.Dbus.Service.Clients.{emit_open}

-- Whether a client that follows the signals believes the session to be active.
abbrev pub follow : SessionId → Signal → Bool → Bool
follow id (Signal.session_started dto) b = text_eq id.text dto.session_id || b
follow id (Signal.session_stopped stopped) b = not (text_eq id.text stopped) && b
follow id _ b = b

unfoldable pub follow_all : SessionId → List Signal → Bool → Bool
follow_all id [] b = b
follow_all id (s ∷ l) b = follow_all id l (follow id s b)

follow_all-append :
    (id : SessionId) (l r : List Signal) (b : Bool)
    → follow_all id (l ++ r) b ≡ follow_all id r (follow_all id l b)
unfolding follow_all
follow_all-append id [] r b = refl
follow_all-append id (s ∷ l) r b = follow_all-append id l r (follow id s b)

skip :
    (id : SessionId) (l r : List Signal) (b : Bool)
    → follow_all id l b ≡ b
    → follow_all id (l ++ r) b ≡ follow_all id r b
skip id l r b h = follow_all-append id l r b ∙ ap (follow_all id r) h

module _ (id : SessionId) (x y : MonitorSnapshot) (b : Bool) where
  skip_active : follow_all id (active_signals (snapshot_active x) (snapshot_active y)) b ≡ b
  unfolding follow_all
  skip_active = ground arith

  skip_count : follow_all id (count_signals (snapshot_count x) (snapshot_count y)) b ≡ b
  unfolding follow_all
  skip_count = ground arith

  skip_availability : follow_all id (availability_signals x y) b ≡ b
  unfolding follow_all
  skip_availability = ground arith

  skip_detail : follow_all id (detail_signals x y) b ≡ b
  unfolding follow_all
  skip_detail = ground arith

  skip_diagnostics : follow_all id (diagnostics_signals x y) b ≡ b
  unfolding follow_all
  skip_diagnostics = ground arith

  follow-signals :
      (e : MonitorEvent) → follow_all id (signals e x y) b ≡ follow_all id (event_signals e) b
  unfolding signals
  follow-signals e =
      skip id _ _ b skip_active
      ∙ skip id _ _ b skip_count
      ∙ skip id _ _ b skip_availability
      ∙ skip id _ _ b skip_detail
      ∙ skip id _ _ b skip_diagnostics
      ∙ unfold follow_all in refl

same-text_eq : (a b : SessionId) → text_eq a.text b.text ≡ same a b
same-text_eq a b = ground (arith, text_eq_iff a.text b.text, same_iff a b, SessionId-eq_of_text a b)

follow-event :
    (e : MonitorEvent) (s : MonitorState) (id : SessionId)
    → follow_all id (event_signals e) (tracked id s) ≡ tracked id (apply e s).0
unfolding follow_all session_dto
follow-event (MonitorEvent.session_started x) s id =
    ground (arith, active_session-apply (MonitorEvent.session_started x) s id, same-text_eq id x.id)
follow-event (MonitorEvent.session_updated x) s id =
    ground (arith, active_session-apply (MonitorEvent.session_updated x) s id)
follow-event (MonitorEvent.session_stopped stopped) s id = ground (
  arith,
  active_session-apply (MonitorEvent.session_stopped stopped) s id,
  same-text_eq id stopped,
)
follow-event (MonitorEvent.observer_availability_changed a d) s id =
    ground (arith, active_session-apply (MonitorEvent.observer_availability_changed a d) s id)
follow-event (MonitorEvent.suppression_diagnostics_changed d) s id =
    ground (arith, active_session-apply (MonitorEvent.suppression_diagnostics_changed d) s id)

-- A client that knew whether a session is active, and follows the start and stop signals of an
-- event, knows it afterwards.
pub follow_all-apply_event :
    (e : MonitorEvent) (service : DbusService) (id : SessionId)
    → service.exported ≡ true
    → let applied = apply_event none e service in
      follow_all id applied.1.1 (tracked id service.state) ≡ tracked id applied.1.0.state
unfolding apply_event
follow_all-apply_event e service id there = elim (Bool-cases (apply e service.state).1) [
  | inl changed ↦
      rw (there, changed)
        (rw (emit_open (signals e (snapshot service.state) (snapshot (apply e service.state).0)))
          (follow-signals id _ _ (tracked id service.state) e ∙ follow-event e service.state id))
  | inr quiet ↦
      rw (there, quiet)
        (unfold follow_all in ap (tracked id) (sym (apply-quiet e service.state quiet)))
]
