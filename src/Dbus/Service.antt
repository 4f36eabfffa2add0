-- ===== src/Dbus/Service.antt =====
-- crates/camera-dbus/src/service.rs: the exported object, its properties and its signals.
--
-- The bus is an argument: whether the object is found, and how many signals it takes before one
-- cannot be sent.
pub mod Clients
pub mod Sessions
use lensguard.Prelude.{
  ℕ, zero, suc, Bool, true, false, not, ◌||◌, ◌&&◌, List, [], ◌∷◌, ◌++◌, Option, none, some, Text,
  codes, ltb, leb, ◌==◌, if◌then◌else◌, Result, ok, err, length, is_empty, text_eq, ◌>>◌, ◌>>=◌,
  fail_if,
}
use lensguard.Core.Capture.{availability_text, is_available}
use lensguard.Core.State.{
  MonitorEvent, MonitorSnapshot, MonitorState, apply, snapshot, active, active_session_count,
  observer_available, snapshot_active, snapshot_count, availability_eq, diagnostics_eq,
}
use lensguard.Daemon.Wire.{u32_max}
use lensguard.Dbus.Dto.{SessionDto, session_dto, snapshot_sessions}

pub data ServiceError : Type 0 where
  bus_error : ServiceError

-- What a client reads of the object.
pub record Properties : Type 0 where
  pub active : Bool
  pub active_session_count : ℕ
  pub observer_available : Bool
  pub observer_availability : Text
  pub observer_status_detail : Text
  pub unknown_camera_activity : Bool
  pub suppressed_broker_events : ℕ
  pub suppressed_unknown_events : ℕ

-- `u32::try_from(n).unwrap_or(u32::MAX)`
abbrev pub saturate_u32 : ℕ → ℕ
saturate_u32 n = if leb n u32_max then n else u32_max

-- The getters of the properties.
unfoldable pub properties : MonitorState → Properties
properties s = record {
  active = active s;
  active_session_count = saturate_u32 (active_session_count s);
  observer_available = observer_available s;
  observer_availability = availability_text s.observer_availability;
  observer_status_detail = s.observer_status_detail;
  unknown_camera_activity = ltb 0 s.suppression_diagnostics.suppressed_unknown_events;
  suppressed_broker_events = s.suppression_diagnostics.suppressed_broker_events;
  suppressed_unknown_events = s.suppression_diagnostics.suppressed_unknown_events;
}

-- The changes of properties, each with the value that it carries, and the signals of the interface.
pub data Signal : Type 0 where
  active_changed : Bool → Signal
  active_session_count_changed : ℕ → Signal
  observer_available_changed : Bool → Signal
  availability_changed : Text → Signal
  observer_status_detail_changed : Text → Signal
  unknown_camera_activity_changed : Bool → Signal
  suppressed_broker_events_changed : ℕ → Signal
  suppressed_unknown_events_changed : ℕ → Signal
  state_changed : Bool → ℕ → Bool → Signal
  session_started : SessionDto → Signal
  session_stopped : Text → Signal
  observer_status_changed : Text → Signal

abbrev when : Bool → List Signal → List Signal
when b l = if b then l else []

abbrev bool_eq : Bool → Bool → Bool
bool_eq a b = (a && b) || (not a && not b)

-- `session_count`
abbrev pub session_count : MonitorSnapshot → ℕ
session_count s = saturate_u32 (snapshot_count s)

-- The `match` on the event.
abbrev event_signals : MonitorEvent → List Signal
event_signals (MonitorEvent.session_started session) =
    Signal.session_started (session_dto session) ∷ []
event_signals (MonitorEvent.session_stopped id) = Signal.session_stopped id.text ∷ []
event_signals _ = []

abbrev active_signals : Bool → Bool → List Signal
active_signals before after = when (not (bool_eq before after)) (active_changed after ∷ [])

abbrev count_signals : ℕ → ℕ → List Signal
count_signals before after =
    when (not (before == after)) (active_session_count_changed (saturate_u32 after) ∷ [])

abbrev availability_signals : MonitorSnapshot → MonitorSnapshot → List Signal
availability_signals before after =
    when (not (availability_eq before.observer_availability after.observer_availability)) (
      observer_available_changed (is_available after.observer_availability)
      ∷ availability_changed (availability_text after.observer_availability)
      ∷ observer_status_changed (availability_text after.observer_availability)
      ∷ [])

abbrev detail_signals : MonitorSnapshot → MonitorSnapshot → List Signal
detail_signals before after =
    when (not (text_eq before.observer_status_detail after.observer_status_detail))
      (observer_status_detail_changed after.observer_status_detail ∷ [])

abbrev diagnostics_signals : MonitorSnapshot → MonitorSnapshot → List Signal
diagnostics_signals before after =
    when (not (diagnostics_eq before.suppression_diagnostics after.suppression_diagnostics)) (
      unknown_camera_activity_changed
        (ltb 0 after.suppression_diagnostics.suppressed_unknown_events)
      ∷ suppressed_broker_events_changed after.suppression_diagnostics.suppressed_broker_events
      ∷ suppressed_unknown_events_changed after.suppression_diagnostics.suppressed_unknown_events
      ∷ [])

-- The notifications of `apply_event`, in their order.
unfoldable pub signals : MonitorEvent → MonitorSnapshot → MonitorSnapshot → List Signal
signals event before after =
    active_signals (snapshot_active before) (snapshot_active after)
    ++ (count_signals (snapshot_count before) (snapshot_count after)
        ++ (availability_signals before after
            ++ (detail_signals before after
                ++ (diagnostics_signals before after
                    ++ state_changed (snapshot_active after) (session_count after)
                        (is_available after.observer_availability)
                      ∷ event_signals event))))

-- Sends one signal after the other until one fails.
unfoldable pub emit : List Signal → Option ℕ → List Signal × Result ServiceError (Unit {0})
emit [] room = ([], ok tt)
emit (s ∷ rest) none = let (sent, result) = emit rest none in (s ∷ sent, result)
emit (s ∷ rest) (some zero) = ([], err bus_error)
emit (s ∷ rest) (some (suc n)) = let (sent, result) = emit rest (some n) in (s ∷ sent, result)

-- The service: whether its object is exported and its name owned, and the object's state.
pub record DbusService : Type 0 where
  pub exported : Bool
  pub named : Bool
  pub state : MonitorState

-- `on_connection`: what the bus answers to the export and to the request of the name.
unfoldable pub on_connection :
    Result ServiceError (Unit {0})
    → Result ServiceError (Unit {0})
    → MonitorState
    → Result ServiceError DbusService
on_connection at request_name initial_state = do
  at
  request_name
  ok (record { exported = true; named = true; state = initial_state })

abbrev Applied : Type 0
Applied = Result ServiceError Bool × (DbusService × List Signal)

abbrev finish : DbusService → List Signal × Result ServiceError (Unit {0}) → Applied
finish service (sent, result) = (result >> ok true, (service, sent))

abbrev notify : Option ℕ → MonitorEvent → DbusService → MonitorState × Bool → Applied
notify room event service (after, changed) =
    if changed
    then finish (record service { state = after })
        (emit (signals event (snapshot service.state) (snapshot after)) room)
    else (ok false, (record service { state = after }, []))

-- `apply_event`
unfoldable pub apply_event : Option ℕ → MonitorEvent → DbusService → Applied
apply_event room event service =
    if service.exported
    then notify room event service (apply event service.state)
    else (err bus_error, (service, []))

-- `snapshot`
unfoldable pub service_snapshot : DbusService → Result ServiceError MonitorSnapshot
service_snapshot service = do fail_if (not service.exported) bus_error; ok (snapshot service.state)

-- `get_active_sessions`
unfoldable pub get_active_sessions : DbusService → List SessionDto
get_active_sessions service = snapshot_sessions (snapshot service.state)

-- `shutdown`: releases the name, then removes the object; the arguments are the bus's answers.
unfoldable pub shutdown :
    Result ServiceError (Unit {0})
    → Result ServiceError (Unit {0})
    → DbusService
    → Result ServiceError (Unit {0}) × DbusService
shutdown (err e) remove service = (err e, service)
shutdown (ok _) (err e) service = (err e, record service { named = false })
shutdown (ok _) (ok _) service = (ok tt, record service { named = false; exported = false })
