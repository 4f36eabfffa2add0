-- ===== src/Core/State.antt =====
-- crates/camera-core/src/state.rs and event.rs: the monitor's events, its state and its snapshots.
pub mod Equality
pub mod Invariant
pub mod Changes
use mathlib.Core.Bool.{decide}
use lensguard.Prelude.{
  text_eq, if◌then◌else◌, ℕ, Bool, true, false, not, List, [], Option, none, some, Text, length,
  is_empty, ◌||◌, Result, ℕ_discrete,
}
use lensguard.OrderedMap.{OrderedMap, get, insert, remove, values}
use lensguard.Core.Model.{CameraSession, CameraSession-discrete, SessionId, session_id_ord}
use lensguard.Core.Capture.{
  ObserverAvailability, ObserverAvailability-discrete, SuppressionDiagnostics,
  SuppressionDiagnostics-discrete, is_available,
}

pub data MonitorEvent : Type 0 where
  session_started : CameraSession → MonitorEvent
  session_updated : CameraSession → MonitorEvent
  session_stopped : SessionId → MonitorEvent
  observer_availability_changed : ObserverAvailability → Text → MonitorEvent
  suppression_diagnostics_changed : SuppressionDiagnostics → MonitorEvent

pub record MonitorSnapshot : Type 0 where
  pub active_sessions : List CameraSession
  pub observer_availability : ObserverAvailability
  pub observer_status_detail : Text
  pub suppression_diagnostics : SuppressionDiagnostics

pub record MonitorState : Type 0 where
  pub active_sessions : OrderedMap SessionId CameraSession
  pub observer_availability : ObserverAvailability
  pub observer_status_detail : Text
  pub suppression_diagnostics : SuppressionDiagnostics

abbrev pub no_suppression : SuppressionDiagnostics
no_suppression = record { suppressed_broker_events = 0; suppressed_unknown_events = 0 }

-- `MonitorState::new`
abbrev pub new_state : MonitorState
new_state = record {
  active_sessions = [];
  observer_availability = ObserverAvailability.available;
  observer_status_detail = [];
  suppression_diagnostics = no_suppression;
}

-- `==` on sessions, availabilities, details and diagnostics.
unfoldable pub session_eq : CameraSession → CameraSession → Bool
unfolding CameraSession-discrete
session_eq a b = decide (CameraSession-discrete a b)

unfoldable pub availability_eq : ObserverAvailability → ObserverAvailability → Bool
unfolding ObserverAvailability-discrete
availability_eq a b = decide (ObserverAvailability-discrete a b)

unfoldable pub diagnostics_eq : SuppressionDiagnostics → SuppressionDiagnostics → Bool
unfolding SuppressionDiagnostics-discrete
diagnostics_eq a b = decide (SuppressionDiagnostics-discrete a b)

-- `insert_or_replace`; the flag tells whether the state changed.
unfoldable pub insert_or_replace : CameraSession → MonitorState → MonitorState × Bool
insert_or_replace session s = elim (get session.id s.active_sessions) [
  | some existing ↦
      if session_eq existing session
      then (s, false)
      else (record s { active_sessions = insert session.id session s.active_sessions }, true)
  | none ↦ (record s { active_sessions = insert session.id session s.active_sessions }, true)
]

unfoldable pub update_existing : CameraSession → MonitorState → MonitorState × Bool
update_existing session s = elim (get session.id s.active_sessions) [
  | none ↦ (s, false)
  | some existing ↦
      if session_eq existing session
      then (s, false)
      else (record s { active_sessions = insert session.id session s.active_sessions }, true)
]

unfoldable pub remove_session : SessionId → MonitorState → MonitorState × Bool
remove_session id s = elim (get id s.active_sessions) [
  | none ↦ (s, false)
  | some _ ↦ (record s { active_sessions = remove id s.active_sessions }, true)
]

-- `MonitorState::apply`
unfoldable pub apply : MonitorEvent → MonitorState → MonitorState × Bool
apply (session_started session) s = insert_or_replace session s
apply (session_updated session) s = update_existing session s
apply (session_stopped id) s = remove_session id s
apply (observer_availability_changed availability detail) s = (
  record s { observer_availability = availability; observer_status_detail = detail },
  not (availability_eq s.observer_availability availability)
      || not (text_eq s.observer_status_detail detail),
)
apply (suppression_diagnostics_changed diagnostics) s = (
  record s { suppression_diagnostics = diagnostics },
  not (diagnostics_eq s.suppression_diagnostics diagnostics),
)

abbrev pub active : MonitorState → Bool
active s = not (is_empty s.active_sessions)

abbrev pub active_session_count : MonitorState → ℕ
active_session_count s = length s.active_sessions

abbrev pub active_session : SessionId → MonitorState → Option CameraSession
active_session id s = get id s.active_sessions

abbrev pub observer_available : MonitorState → Bool
observer_available s = is_available s.observer_availability

unfoldable pub snapshot : MonitorState → MonitorSnapshot
snapshot s = record {
  active_sessions = values s.active_sessions;
  observer_availability = s.observer_availability;
  observer_status_detail = s.observer_status_detail;
  suppression_diagnostics = s.suppression_diagnostics;
}

module _ (s : MonitorSnapshot) where
  -- `MonitorSnapshot::active` and `MonitorSnapshot::active_session_count`
  abbrev pub snapshot_active : Bool
  snapshot_active = not (is_empty s.active_sessions)

  abbrev pub snapshot_count : ℕ
  snapshot_count = length s.active_sessions
