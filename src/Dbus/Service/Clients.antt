-- ===== src/Dbus/Service/Clients.antt =====
-- What a client knows that keeps the properties and follows the signals.
use lensguard.Prelude.{
  suc, length, is_empty, ℕ, ◌≡◌, refl, ap, sym, ◌∙◌, Bool, true, List, [], ◌∷◌, ◌++◌, none, ok,
  arith, Text, ltb, Bool-cases, inl, inr, text_eq_iff,
}
use lensguard.OrderedMap.{OrderedMap, values}
use lensguard.Core.Model.{CameraSession, SessionId, session_id_ord}
use lensguard.Core.Capture.{
  ObserverAvailability, SuppressionDiagnostics, availability_text, is_available,
}
use lensguard.Core.State.{
  MonitorEvent, MonitorSnapshot, MonitorState, apply, snapshot, snapshot_active, snapshot_count,
}
use lensguard.Core.State.Equality.{availability_eq_iff, diagnostics_eq_iff}
use lensguard.Core.State.Changes.{apply-quiet}
use lensguard.Dbus.Service.{
  Option, Properties, properties, Signal, DbusService, session_count, signals, emit, apply_event,
  saturate_u32, active_signals, count_signals, availability_signals, detail_signals,
  diagnostics_signals, event_signals, state_changed, active_changed, active_session_count_changed,
  observer_available_changed, availability_changed, observer_status_detail_changed,
  unknown_camera_activity_changed, suppressed_broker_events_changed,
  suppressed_unknown_events_changed,
}

-- A client's cache of the properties after a signal.
abbrev pub note : Signal → Properties → Properties
note (active_changed b) p = record p { active = b }
note (active_session_count_changed n) p = record p { active_session_count = n }
note (observer_available_changed b) p = record p { observer_available = b }
note (availability_changed t) p = record p { observer_availability = t }
note (observer_status_detail_changed t) p = record p { observer_status_detail = t }
note (unknown_camera_activity_changed b) p = record p { unknown_camera_activity = b }
note (suppressed_broker_events_changed n) p = record p { suppressed_broker_events = n }
note (suppressed_unknown_events_changed n) p = record p { suppressed_unknown_events = n }
note _ p = p

unfoldable pub note_all : List Signal → Properties → Properties
note_all [] p = p
note_all (s ∷ l) p = note_all l (note s p)

pub note_all-append :
    (l r : List Signal) (p : Properties) → note_all (l ++ r) p ≡ note_all r (note_all l p)
unfolding note_all
note_all-append [] r p = refl
note_all-append (s ∷ l) r p = note_all-append l r (note s p)

-- The properties by what they are read from.
abbrev shown : Bool → ℕ → ObserverAvailability → Text → SuppressionDiagnostics → Properties
shown active count availability detail d = record {
  active = active;
  active_session_count = saturate_u32 count;
  observer_available = is_available availability;
  observer_availability = availability_text availability;
  observer_status_detail = detail;
  unknown_camera_activity = ltb 0 d.suppressed_unknown_events;
  suppressed_broker_events = d.suppressed_broker_events;
  suppressed_unknown_events = d.suppressed_unknown_events;
}

module _ (a : Bool) (c : ℕ) (before after : MonitorSnapshot) where
  note_active :
      (a' : Bool) (v : ObserverAvailability) (t : Text) (d : SuppressionDiagnostics)
      → note_all (active_signals a a') (shown a c v t d) ≡ shown a' c v t d
  unfolding note_all
  note_active a' v t d = ground arith

  note_count :
      (c' : ℕ) (v : ObserverAvailability) (t : Text) (d : SuppressionDiagnostics)
      → note_all (count_signals c c') (shown a c v t d) ≡ shown a c' v t d
  unfolding note_all
  note_count c' v t d = ground arith

  note_availability :
      (t : Text) (d : SuppressionDiagnostics)
      → note_all (availability_signals before after) (shown a c before.observer_availability t d)
        ≡ shown a c after.observer_availability t d
  unfolding note_all
  note_availability t d =
      ground (arith, availability_eq_iff before.observer_availability after.observer_availability)

  note_detail :
      (v : ObserverAvailability) (d : SuppressionDiagnostics)
      → note_all (detail_signals before after) (shown a c v before.observer_status_detail d)
        ≡ shown a c v after.observer_status_detail d
  unfolding note_all
  note_detail v d =
      ground (arith, text_eq_iff before.observer_status_detail after.observer_status_detail)

  note_diagnostics :
      (v : ObserverAvailability) (t : Text)
      → note_all (diagnostics_signals before after) (shown a c v t before.suppression_diagnostics)
        ≡ shown a c v t after.suppression_diagnostics
  unfolding note_all
  note_diagnostics v t =
      ground
        (arith, diagnostics_eq_iff before.suppression_diagnostics after.suppression_diagnostics)

-- The signals of the event itself change no property.
note_event :
    (e : MonitorEvent) (b : Bool) (n : ℕ) (o : Bool) (p : Properties)
    → note_all (state_changed b n o ∷ event_signals e) p ≡ p
unfolding note_all
note_event (MonitorEvent.session_started x) b n o p = refl
note_event (MonitorEvent.session_updated x) b n o p = refl
note_event (MonitorEvent.session_stopped id) b n o p = refl
note_event (MonitorEvent.observer_availability_changed a d) b n o p = refl
note_event (MonitorEvent.suppression_diagnostics_changed d) b n o p = refl

note_then :
    (l r : List Signal) (p q z : Properties)
    → note_all l p ≡ q
    → note_all r q ≡ z
    → note_all (l ++ r) p ≡ z
note_then l r p q z h k = note_all-append l r p ∙ ap (note_all r) h ∙ k

abbrev shown_by : MonitorSnapshot → Properties
shown_by x =
    shown (snapshot_active x) (snapshot_count x) x.observer_availability x.observer_status_detail
      x.suppression_diagnostics

note_signals :
    (e : MonitorEvent) (x y : MonitorSnapshot) → note_all (signals e x y) (shown_by x) ≡ shown_by y
unfolding signals
note_signals e x y =
    let a = snapshot_active y in
    let c = snapshot_count y in
    note_then _ _ _ _ _ (note_active (snapshot_active x) (snapshot_count x) x y a _ _ _) (
      note_then _ _ _ _ _ (note_count a (snapshot_count x) x y c _ _ _) (
        note_then _ _ _ _ _ (note_availability a c x y _ _) (
          note_then _ _ _ _ _ (note_detail a c x y _ _) (
            note_then _ _ _ _ _ (note_diagnostics a c x y _ _) (
              note_event e a (session_count y) (is_available y.observer_availability)
                (shown_by y))))))

is_empty-values : (m : OrderedMap SessionId CameraSession) → is_empty (values m) ≡ is_empty m
unfolding values
is_empty-values [] = refl
is_empty-values ((k, s) ∷ m) = refl

length-values : (m : OrderedMap SessionId CameraSession) → length (values m) ≡ length m
unfolding values
length-values [] = refl
length-values ((k, s) ∷ m) = ap suc (length-values m)

shown_by-snapshot : (s : MonitorState) → shown_by (snapshot s) ≡ properties s
unfolding snapshot properties
shown_by-snapshot s = rw (is_empty-values s.active_sessions, length-values s.active_sessions) refl

-- With no limit on what the bus takes, all is sent.
pub emit_open : (l : List Signal) → emit l none ≡ (l, ok tt)
unfolding emit
emit_open [] = refl
emit_open (s ∷ l) = rw (emit_open l) refl

-- A client that keeps the properties and follows the signals of an event is up to date: what it
-- keeps afterwards is what the properties now read, whether or not the event changed anything.
pub note_all-apply_event :
    (e : MonitorEvent) (service : DbusService)
    → service.exported ≡ true
    → let applied = apply_event none e service in
      (note_all applied.1.1 (properties service.state) ≡ properties applied.1.0.state)
      × (applied.1.0.state ≡ (apply e service.state).0)
      × (applied.0 ≡ ok (apply e service.state).1)
unfolding apply_event note_all
note_all-apply_event e service there = elim (Bool-cases (apply e service.state).1) [
  | inl changed ↦
      rw (there, changed)
        (rw (emit_open (signals e (snapshot service.state) (snapshot (apply e service.state).0))) (
          ap (note_all (signals e (snapshot service.state) (snapshot (apply e service.state).0)))
                (sym (shown_by-snapshot service.state))
              ∙ note_signals e (snapshot service.state) (snapshot (apply e service.state).0)
              ∙ shown_by-snapshot (apply e service.state).0,
          refl,
          refl,
        ))
  | inr quiet ↦
      rw (there, quiet) (ap properties (sym (apply-quiet e service.state quiet)), refl, refl)
]

-- No event takes the object from the bus.
pub exported-apply_event :
    (room : Option ℕ) (e : MonitorEvent) (service : DbusService)
    → (apply_event room e service).1.0.exported ≡ service.exported
unfolding apply_event
exported-apply_event room e service = ground arith
