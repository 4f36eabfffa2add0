-- ===== src/Core/Machine/Presence.antt =====
-- The transitions that `apply` reports, and the sessions that come and go.
use lensguard.Prelude.{
  ok_injective, err-ne-ok, ℕ, ◌≡◌, refl, sym, ◌∙◌, inl, inr, Bool, false, not, ◌||◌, ◌&&◌, [], ◌∷◌,
  ok, arith, ltb, Option-cases, Bool-cases, Result-cases, any,
}
use lensguard.Order.{lt_irreflexive}
use lensguard.OrderedMap.{OrderedMap, get}
use lensguard.OrderedMap.Sorted.{IsSorted, Above, Above-IsSorted, Above-lower}
use lensguard.OrderedMap.Removal.{entries_where}
use lensguard.OrderedMap.Laws.{same, same_iff}
use lensguard.OrderedMap.Entries.{AllEntries}
use lensguard.OrderedMap.AnyValue.{
  any_value, AtMostOne, any_value-replace, any_value-insert_new, any_value-remove, any_value-split,
  any-entries, any-values,
}
use lensguard.Core.Model.{CameraSession, CameraSessionState, SessionId, session_id_ord}
use lensguard.Core.Capture.{DirectCaptureEvent, DirectCaptureOperation, validate}
use lensguard.Core.Session.Identity.{session_of, session_from_event-total}
use lensguard.Core.Machine.{
  V4l2SessionMachine, CaptureKey, capture_key_ord, key_of, same_process, same_device,
  start_or_touch, end_one, end_matching, backend_lost, apply_operation, apply, CaptureTransition,
  no_transition, started, ended, ended_many,
}
use lensguard.Core.Machine.Lookup.{end_matching-entries}
use lensguard.Core.Machine.Invariant.{IsValid, Confirmed, Confirmed-key, advance-IsValid}

-- Whether a session of the machine has the identifier.
abbrev pub has_id : SessionId → CameraSession → Bool
has_id id s = same id s.id

abbrev pub present : SessionId → V4l2SessionMachine → Bool
present id m = any_value (has_id id) m.active

-- The same after a transition, from what it was before.
abbrev pub present_after : CaptureTransition → SessionId → Bool → Bool
present_after no_transition id before = before
present_after (started s) id before = has_id id s || before
present_after (ended s _) id before = not (has_id id s) && before
present_after (ended_many l) id before =
    not (any (λ (e : CameraSession × CameraSessionState). has_id id e.0) l) && before

Confirmed-absent :
    (last : ℕ) (id : SessionId) (k : CaptureKey) (s : CameraSession)
    (m : OrderedMap CaptureKey CameraSession)
    → Confirmed last k s
    → Above k m
    → AllEntries (Confirmed last) m
    → id ≡ s.id
    → any_value (has_id id) m ≡ false
unfolding any_value
Confirmed-absent last id k s [] c a l e = refl
Confirmed-absent last id k s ((j, t) ∷ m) c a l e = elim (Bool-cases (has_id id t)) [
  | inr other ↦ rw other (Confirmed-absent last id k s m c (Above-lower k j m a.0 a.1) l.1 e)
  | inl same_id ↦
      let key : k ≡ j = Confirmed-key last k j s t c l.0 (sym e ∙ (same_iff id t.id).0 same_id) in
      absurd (lt_irreflexive (sym a.0 ∙ (capture_key_ord.eq_iff k j).1 key))
]

valid_distinct :
    (last : ℕ) (id : SessionId) (m : OrderedMap CaptureKey CameraSession)
    → IsSorted m
    → AllEntries (Confirmed last) m
    → AtMostOne (has_id id) m
valid_distinct last id [] s l = tt
valid_distinct last id ((k, t) ∷ m) s l = (
  λ same_id. Confirmed-absent last id k t m l.0 s l.1 ((same_iff id t.id).0 same_id),
  valid_distinct last id m (Above-IsSorted k m s) l.1,
)

present-start_or_touch :
    (e : DirectCaptureEvent) (m : V4l2SessionMachine) (id : SessionId) (t : CaptureTransition)
    → IsValid m
    → (start_or_touch e m).1 ≡ ok t
    → present id (start_or_touch e m).0 ≡ present_after t id (present id m)
unfolding start_or_touch
present-start_or_touch e m id t v = elim (Option-cases (get (key_of e) m.active)) [
  | inl absent ↦
      rw (absent, start_or_touch)
        (rw (session_from_event-total e) (λ done.
          rw (← ok_injective done)
            (any_value-insert_new (has_id id) (key_of e) (session_of e) m.active absent)))
  | inr (s, found) ↦
      rw (found, start_or_touch)
        (λ done.
          rw (← ok_injective done)
            (any_value-replace (has_id id) (key_of e) s _ m.active v.sorted found refl))
]

present-end_one :
    (key : CaptureKey) (state : CameraSessionState) (m : V4l2SessionMachine) (id : SessionId)
    → IsValid m
    → present id (end_one key state m).0 ≡ present_after (end_one key state m).1 id (present id m)
unfolding end_one
present-end_one key state m id v = elim (Option-cases (get key m.active)) [
  | inl absent ↦ rw (absent, end_one) refl
  | inr (s, found) ↦
      rw (found, end_one)
        (any_value-remove (has_id id) key s m.active v.sorted
          (valid_distinct _ id m.active v.sorted v.confirmed) found)
]

present-end_matching :
    (p : CaptureKey → Bool) (state : CameraSessionState) (m : V4l2SessionMachine) (id : SessionId)
    → IsValid m
    → present id (end_matching p state m).0
      ≡ present_after (end_matching p state m).1 id (present id m)
present-end_matching p state m id v = rw (end_matching-entries p state m v.sorted) (
    rw (any-entries (has_id id) state (entries_where p m.active))
      (any_value-split (has_id id) p m.active (valid_distinct _ id m.active v.sorted v.confirmed)))

present-backend_lost :
    (m : V4l2SessionMachine) (id : SessionId)
    → present id (backend_lost m).0 ≡ present_after (backend_lost m).1 id (present id m)
unfolding backend_lost any_value
present-backend_lost m id =
    rw (any-values (has_id id) CameraSessionState.interrupted m.active) (ground arith)

-- After the loss of the backend no session is left.
pub absent-backend_lost :
    (m : V4l2SessionMachine) (id : SessionId) → present id (backend_lost m).0 ≡ false
unfolding backend_lost any_value
absent-backend_lost m id = refl

present-apply_operation :
    (o : DirectCaptureOperation) (e : DirectCaptureEvent) (m : V4l2SessionMachine) (id : SessionId)
    (t : CaptureTransition)
    → IsValid m
    → (apply_operation o e m).1 ≡ ok t
    → present id (apply_operation o e m).0 ≡ present_after t id (present id m)
unfolding apply_operation
present-apply_operation DirectCaptureOperation.stream_started e m id t v h =
    present-start_or_touch e m id t v h
present-apply_operation DirectCaptureOperation.capture_read e m id t v h =
    present-start_or_touch e m id t v h
present-apply_operation DirectCaptureOperation.stream_stopped e m id t v h =
    rw (← ok_injective h) (present-end_one (key_of e) CameraSessionState.stopped m id v)
present-apply_operation DirectCaptureOperation.device_closed e m id t v h =
    rw (← ok_injective h) (present-end_one (key_of e) CameraSessionState.stopped m id v)
present-apply_operation DirectCaptureOperation.process_exited e m id t v h =
    rw (← ok_injective h) (present-end_matching (same_process e) CameraSessionState.stopped m id v)
present-apply_operation DirectCaptureOperation.device_removed e m id t v h =
    rw (← ok_injective h)
      (present-end_matching (same_device e) CameraSessionState.interrupted m id v)
present-apply_operation DirectCaptureOperation.backend_lost e m id t v h =
    rw (← ok_injective h) (present-backend_lost m id)
present-apply_operation DirectCaptureOperation.device_opened e m id t v h =
    rw (← ok_injective h) refl

-- The transition that `apply` returns accounts for every session that comes or goes: afterwards an
-- identifier is present exactly if the transition starts it, or it was present and the transition
-- does not end it.
pub present-apply :
    (e : DirectCaptureEvent) (m : V4l2SessionMachine) (id : SessionId) (t : CaptureTransition)
    → IsValid m
    → (apply e m).1 ≡ ok t
    → present id (apply e m).0 ≡ present_after t id (present id m)
unfolding apply
present-apply e m id t v = elim (Result-cases (validate e)) [
  | inr (x, bad) ↦ rw (bad, apply) (λ h. absurd (err-ne-ok h))
  | inl (_, good) ↦ elim (Bool-cases (ltb e.timestamp_monotonic_ns m.last_timestamp_monotonic_ns)) [
    | inl stale ↦ rw (good, apply) (rw stale (λ h. rw (← ok_injective h) refl))
    | inr fresh ↦
        rw (good, apply)
          (rw fresh
            (present-apply_operation e.operation e _ id t (advance-IsValid m _ (ground arith) v)))
  ]
]
