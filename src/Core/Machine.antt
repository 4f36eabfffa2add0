-- ===== src/Core/Machine.antt =====
-- crates/camera-core/src/v4l2.rs, `V4l2SessionMachine`: the active captures and the transitions.
pub mod Lookup
pub mod Invariant
pub mod Presence
use lensguard.Prelude.{
  arith, ◌≡◌, ℕ, Bool, true, false, List, [], ◌∷◌, map, Option, none, some, ℤ, ltb, ◌==◌, ◌&&◌,
  filter, length, Result, ok, err, if◌then◌else◌, Text,
}
use lensguard.Order.{Ord, ord_by, nat_ord, int_ord, pair_ord}
use lensguard.OrderedMap.{OrderedMap, get, insert, remove, keys, values}
use lensguard.OrderedMap.Removal.{take_each}
use lensguard.Core.Model.{CameraSession, CameraSessionState}
use lensguard.Core.Capture.{
  DirectCaptureEvent, DirectCaptureOperation, EventValidationError, validate,
}
use lensguard.Core.Session.{session_from_event}

pub data CaptureTransition : Type 0 where
  no_transition : CaptureTransition
  started : CameraSession → CaptureTransition
  ended : CameraSession → CameraSessionState → CaptureTransition
  ended_many : List (CameraSession × CameraSessionState) → CaptureTransition

pub record CaptureKey : Type 0 where
  pub thread_group_id : ℕ
  pub process_start_time_ticks : ℕ
  pub file_descriptor : ℤ
  pub major : ℕ
  pub minor : ℕ

abbrev pub CaptureFields : Type 0
CaptureFields = ℕ × (ℕ × (ℤ × (ℕ × ℕ)))

abbrev pub capture_fields : CaptureKey → CaptureFields
capture_fields k =
    (k.thread_group_id, (k.process_start_time_ticks, (k.file_descriptor, (k.major, k.minor))))

pub CaptureKey-eq : (a b : CaptureKey) → capture_fields a ≡ capture_fields b → a ≡ b
CaptureKey-eq a b e = ground arith

-- `derive(Ord)`: the fields in their order.
instance abbrev pub capture_key_ord : Ord CaptureKey
capture_key_ord = ord_by pair_ord capture_fields CaptureKey-eq

abbrev pub key_of : DirectCaptureEvent → CaptureKey
key_of e = record {
  thread_group_id = e.thread_group_id;
  process_start_time_ticks = e.process_start_time_ticks;
  file_descriptor = e.file_descriptor;
  major = e.device.major;
  minor = e.device.minor;
}

pub record V4l2SessionMachine : Type 0 where
  pub active : OrderedMap CaptureKey CameraSession
  pub last_timestamp_monotonic_ns : ℕ

abbrev pub new_machine : V4l2SessionMachine
new_machine = record { active = []; last_timestamp_monotonic_ns = 0 }

abbrev pub ApplyResult : Type 0
ApplyResult = V4l2SessionMachine × Result EventValidationError CaptureTransition

-- `backend_lost`: every session ends as interrupted.
unfoldable pub backend_lost : V4l2SessionMachine → V4l2SessionMachine × CaptureTransition
backend_lost m = (
  record m { active = [] },
  ended_many (map (λ s. (s, CameraSessionState.interrupted)) (values m.active)),
)

unfoldable pub end_one :
    CaptureKey → CameraSessionState → V4l2SessionMachine → V4l2SessionMachine × CaptureTransition
end_one key state m = elim (get key m.active) [
  | none ↦ (m, no_transition)
  | some session ↦ (record m { active = remove key m.active }, ended session state)
]

unfoldable pub end_matching :
    (CaptureKey → Bool)
    → CameraSessionState
    → V4l2SessionMachine
    → V4l2SessionMachine × CaptureTransition
end_matching predicate state m =
    let (left, removed) = take_each (filter predicate (keys m.active)) m.active in
    (record m { active = left }, ended_many (map (λ entry. (entry.1, state)) removed))

abbrev pub same_process : DirectCaptureEvent → CaptureKey → Bool
same_process e k =
    k.thread_group_id == e.thread_group_id
    && k.process_start_time_ticks == e.process_start_time_ticks

abbrev pub same_device : DirectCaptureEvent → CaptureKey → Bool
same_device e k = k.major == e.device.major && k.minor == e.device.minor

abbrev pub touch : ℕ → CameraSession → CameraSession
touch timestamp s = record s { last_observed_at_monotonic_ns = timestamp }

-- `StreamStarted` and `CaptureRead`: an active session is seen again, or a new one starts.
unfoldable pub start_or_touch : DirectCaptureEvent → V4l2SessionMachine → ApplyResult
start_or_touch e m = elim (get (key_of e) m.active) [
  | some session ↦ (
    record m { active = insert (key_of e) (touch e.timestamp_monotonic_ns session) m.active },
    ok no_transition,
  )
  | none ↦ elim (session_from_event e) [
    | ok session ↦ (record m { active = insert (key_of e) session m.active }, ok (started session))
    | err error ↦ (m, err error)
  ]
]

abbrev pub succeed : V4l2SessionMachine × CaptureTransition → ApplyResult
succeed r = (r.0, ok r.1)

unfoldable pub apply_operation :
    DirectCaptureOperation → DirectCaptureEvent → V4l2SessionMachine → ApplyResult
apply_operation DirectCaptureOperation.stream_started e m = start_or_touch e m
apply_operation DirectCaptureOperation.capture_read e m = start_or_touch e m
apply_operation DirectCaptureOperation.stream_stopped e m =
    succeed (end_one (key_of e) CameraSessionState.stopped m)
apply_operation DirectCaptureOperation.device_closed e m =
    succeed (end_one (key_of e) CameraSessionState.stopped m)
apply_operation DirectCaptureOperation.process_exited e m =
    succeed (end_matching (same_process e) CameraSessionState.stopped m)
apply_operation DirectCaptureOperation.device_removed e m =
    succeed (end_matching (same_device e) CameraSessionState.interrupted m)
apply_operation DirectCaptureOperation.backend_lost e m = succeed (backend_lost m)
apply_operation DirectCaptureOperation.device_opened e m = (m, ok no_transition)

-- `V4l2SessionMachine::apply`
unfoldable pub apply : DirectCaptureEvent → V4l2SessionMachine → ApplyResult
apply e m = elim (validate e) [
  | err error ↦ (m, err error)
  | ok _ ↦
      if ltb e.timestamp_monotonic_ns m.last_timestamp_monotonic_ns
      then (m, ok no_transition)
      else apply_operation e.operation e
          (record m { last_timestamp_monotonic_ns = e.timestamp_monotonic_ns })
]

abbrev pub active_session_count : V4l2SessionMachine → ℕ
active_session_count m = length m.active
