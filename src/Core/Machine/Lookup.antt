-- ===== src/Core/Machine/Lookup.antt =====
-- The captures that are active after each event, capture by capture.
use lensguard.Prelude.{
  Result-cases, ◌>>◌, ◌≢◌, ◌⊎◌, inl, inr, ◌<◌, inr, inl, Option-cases, ◌≡◌, refl, ◌≤◌, Bool, not,
  map, Option, none, some, ok, arith, if◌then◌else◌,
}
use lensguard.OrderedMap.{get}
use lensguard.OrderedMap.Sorted.{IsSorted}
use lensguard.OrderedMap.Removal.{take_each-filter, entries_where, get-entries_where}
use lensguard.OrderedMap.Laws.{same_iff, same, get-insert, get-remove}
use lensguard.Core.Model.{CameraSession, CameraSessionState}
use lensguard.Core.Capture.{DirectCaptureEvent, DirectCaptureOperation, validate}
use lensguard.Core.Session.Identity.{session_of, session_from_event-total}
use lensguard.Core.Machine.{
  V4l2SessionMachine, CaptureKey, capture_key_ord, key_of, same_process, same_device, touch,
  start_or_touch, end_one, end_matching, backend_lost, apply_operation, apply, no_transition,
  ended_many,
}

-- A capture that is seen again keeps its session; one that is new gets the event's session.
abbrev pub seen : DirectCaptureEvent → Option CameraSession → CameraSession
seen e (some s) = touch e.timestamp_monotonic_ns s
seen e none = session_of e

-- The capture `k` after the event `e`, from what it was before.
abbrev pub capture_after :
    DirectCaptureOperation
    → DirectCaptureEvent
    → CaptureKey
    → Option CameraSession
    → Option CameraSession
capture_after DirectCaptureOperation.stream_started e k s =
    if same k (key_of e) then some (seen e s) else s
capture_after DirectCaptureOperation.capture_read e k s =
    if same k (key_of e) then some (seen e s) else s
capture_after DirectCaptureOperation.stream_stopped e k s = if same k (key_of e) then none else s
capture_after DirectCaptureOperation.device_closed e k s = if same k (key_of e) then none else s
capture_after DirectCaptureOperation.process_exited e k s = if same_process e k then none else s
capture_after DirectCaptureOperation.device_removed e k s = if same_device e k then none else s
capture_after DirectCaptureOperation.backend_lost e k s = none
capture_after DirectCaptureOperation.device_opened e k s = s

-- The effect of `end_matching` on a sorted machine, in one equation.
pub end_matching-entries :
    (p : CaptureKey → Bool) (state : CameraSessionState) (m : V4l2SessionMachine)
    → IsSorted m.active
    → end_matching p state m ≡ (
      record m { active = entries_where (λ k. not (p k)) m.active },
      ended_many (map (λ entry. (entry.1, state)) (entries_where p m.active)),
    )
unfolding end_matching
end_matching-entries p state m s = rw (take_each-filter p m.active s) refl

get-start_or_touch :
    (e : DirectCaptureEvent) (m : V4l2SessionMachine) (k : CaptureKey)
    → get k (start_or_touch e m).0.active
      ≡ (if same k (key_of e) then some (seen e (get k m.active)) else get k m.active)
unfolding start_or_touch
get-start_or_touch e m k = elim (Option-cases (get (key_of e) m.active)) [
  | inl absent ↦ ground (
    arith,
    session_from_event-total e,
    get-insert (key_of e) k (session_of e) m.active,
    same_iff k (key_of e),
  )
  | inr (s, found) ↦ ground (
    arith,
    get-insert (key_of e) k (touch e.timestamp_monotonic_ns s) m.active,
    same_iff k (key_of e),
  )
]

get-end_one :
    (key : CaptureKey) (state : CameraSessionState) (m : V4l2SessionMachine) (k : CaptureKey)
    → get k (end_one key state m).0.active ≡ (if same k key then none else get k m.active)
unfolding end_one
get-end_one key state m k = ground (arith, get-remove key k m.active, same_iff k key)

get-end_matching :
    (p : CaptureKey → Bool) (state : CameraSessionState) (m : V4l2SessionMachine) (k : CaptureKey)
    → IsSorted m.active
    → get k (end_matching p state m).0.active ≡ (if p k then none else get k m.active)
get-end_matching p state m k s =
    rw (end_matching-entries p state m s)
      (ground (arith, get-entries_where (λ j. not (p j)) k m.active))

pub get-apply_operation :
    (o : DirectCaptureOperation) (e : DirectCaptureEvent) (m : V4l2SessionMachine) (k : CaptureKey)
    → IsSorted m.active
    → get k (apply_operation o e m).0.active ≡ capture_after o e k (get k m.active)
unfolding apply_operation
get-apply_operation DirectCaptureOperation.stream_started e m k s = get-start_or_touch e m k
get-apply_operation DirectCaptureOperation.capture_read e m k s = get-start_or_touch e m k
get-apply_operation DirectCaptureOperation.stream_stopped e m k s = get-end_one (key_of e) _ m k
get-apply_operation DirectCaptureOperation.device_closed e m k s = get-end_one (key_of e) _ m k
get-apply_operation DirectCaptureOperation.process_exited e m k s =
    get-end_matching (same_process e) _ m k s
get-apply_operation DirectCaptureOperation.device_removed e m k s =
    get-end_matching (same_device e) _ m k s
get-apply_operation DirectCaptureOperation.backend_lost e m k s = unfold backend_lost get in refl
get-apply_operation DirectCaptureOperation.device_opened e m k s = refl

pub clock-apply_operation :
    (o : DirectCaptureOperation) (e : DirectCaptureEvent) (m : V4l2SessionMachine)
    → (apply_operation o e m).0.last_timestamp_monotonic_ns ≡ m.last_timestamp_monotonic_ns
unfolding apply_operation start_or_touch end_one end_matching backend_lost
clock-apply_operation DirectCaptureOperation.stream_started e m = ground arith
clock-apply_operation _ e m = ground arith

-- After an accepted event that is not older than the last one, every capture is what
-- `capture_after` says: the one seen, the ones ended, and all others as they were. The clock moves
-- to the event's time.
pub get-apply :
    (e : DirectCaptureEvent) (m : V4l2SessionMachine) (k : CaptureKey)
    → IsSorted m.active
    → validate e ≡ ok tt
    → m.last_timestamp_monotonic_ns ≤ e.timestamp_monotonic_ns
    → (get k (apply e m).0.active ≡ capture_after e.operation e k (get k m.active))
      × ((apply e m).0.last_timestamp_monotonic_ns ≡ e.timestamp_monotonic_ns)
unfolding apply
get-apply e m k s v t = (
  rw (v, apply)
      (ground (
        arith,
        get-apply_operation e.operation e
            (record m { last_timestamp_monotonic_ns = e.timestamp_monotonic_ns }) k s,
      )),
  rw (v, apply)
      (ground (
        arith,
        clock-apply_operation e.operation e
            (record m { last_timestamp_monotonic_ns = e.timestamp_monotonic_ns }),
      )),
)

-- An event that is rejected, or that is older than the last, leaves the machine as it was: the
-- result is the validation's error, or no transition.
apply_ignores :
    (e : DirectCaptureEvent) (m : V4l2SessionMachine)
    → (validate e ≢ ok tt) ⊎ (e.timestamp_monotonic_ns < m.last_timestamp_monotonic_ns)
    → apply e m ≡ (m, validate e >> ok no_transition)
unfolding apply
apply_ignores e m h = elim (Result-cases (validate e)) [
  | inl (a, v) ↦ ground arith
  | inr (x, v) ↦ rw (v, apply) refl
]
