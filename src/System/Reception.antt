-- ===== src/System/Reception.antt =====
-- What the daemon's state shows of the observer, message by message.
use lensguard.Prelude.{
  ◌≡◌, refl, ap, ◌∙◌, List, [], ◌∷◌, ◌++◌, map, some, ok, arith, Bool-cases, Option-cases, inl, inr,
  ltb,
}
use lensguard.OrderedMap.{get}
use lensguard.Core.Model.{CameraSession, CameraSessionState, SessionId}
use lensguard.Core.Capture.{
  ObserverMessage, DirectCaptureEvent, DirectCaptureOperation, validate, is_available,
}
use lensguard.Core.Session.Identity.{session_of, session_from_event-total}
use lensguard.Core.Machine.{
  capture_key_ord, start_or_touch, apply_operation, key_of, V4l2SessionMachine, CaptureTransition,
  no_transition, started, ended, ended_many, backend_lost,
}
use lensguard.Core.Machine
use lensguard.Core.State.{
  MonitorEvent, session_started, session_updated, session_stopped, observer_availability_changed,
  suppression_diagnostics_changed, MonitorState, apply, insert_or_replace, update_existing,
  remove_session,
}
use lensguard.Core.Machine
use lensguard.Core.State.Invariant.{IsValid}
use lensguard.Daemon.Application.{reduce_and_reconcile}
use lensguard.Daemon.Application.Reconcile.{
  reduce_and_reconcile_unavailable, reduce_and_reconcile-IsValid,
}
use lensguard.Daemon.Source.{transition_events, message_events}
use lensguard.Daemon.Source.Mirror.{consume}
use lensguard.Observer.Server.Told.{View, see}

-- What the state shows of the observer's status.
abbrev pub shown : MonitorState → View
shown s = record {
  availability = some (s.observer_availability, s.observer_status_detail);
  diagnostics = some s.suppression_diagnostics;
}

-- What an event changes of that.
abbrev pub show_event : MonitorEvent → View → View
show_event (session_started x) v = v
show_event (session_updated x) v = v
show_event (session_stopped id) v = v
show_event (observer_availability_changed a d) v = record v { availability = some (a, d) }
show_event (suppression_diagnostics_changed d) v = record v { diagnostics = some d }

abbrev pub show_events : List MonitorEvent → View → View
show_events [] v = v
show_events (e ∷ es) v = show_events es (show_event e v)

shown-insert_or_replace :
    (x : CameraSession) (s : MonitorState) → shown (insert_or_replace x s).0 ≡ shown s
unfolding insert_or_replace
shown-insert_or_replace x s = ground arith

shown-update_existing :
    (x : CameraSession) (s : MonitorState) → shown (update_existing x s).0 ≡ shown s
unfolding update_existing
shown-update_existing x s = ground arith

shown-remove_session : (id : SessionId) (s : MonitorState) → shown (remove_session id s).0 ≡ shown s
unfolding remove_session
shown-remove_session id s = ground arith

shown-reduce_and_reconcile :
    (e : MonitorEvent) (s : MonitorState)
    → IsValid s
    → shown (reduce_and_reconcile e s).0 ≡ show_event e (shown s)
unfolding reduce_and_reconcile apply
shown-reduce_and_reconcile (session_started x) s v = shown-insert_or_replace x s
shown-reduce_and_reconcile (session_updated x) s v = shown-update_existing x s
shown-reduce_and_reconcile (session_stopped id) s v = shown-remove_session id s
shown-reduce_and_reconcile (suppression_diagnostics_changed d) s v = refl
shown-reduce_and_reconcile (observer_availability_changed a d) s v =
    elim (Bool-cases (is_available a)) [
      | inl fine ↦ rw fine refl
      | inr lost ↦ ap shown (reduce_and_reconcile_unavailable a d s v lost).0
    ]

pub shown-consume :
    (es : List MonitorEvent) (s : MonitorState)
    → IsValid s
    → shown (consume es s) ≡ show_events es (shown s)
unfolding consume
shown-consume [] s v = refl
shown-consume (e ∷ es) s v =
    shown-consume es (reduce_and_reconcile e s).0 (reduce_and_reconcile-IsValid e s v)
    ∙ ap (show_events es) (shown-reduce_and_reconcile e s v)

show_stops :
    (l : List (CameraSession × CameraSessionState)) (v : View)
    → show_events (map (λ (e : CameraSession × CameraSessionState). session_stopped e.0.id) l) v ≡ v
show_stops [] v = refl
show_stops (x ∷ l) v = show_stops l v

show_transition : (t : CaptureTransition) (v : View) → show_events (transition_events t) v ≡ v
unfolding transition_events
show_transition no_transition v = refl
show_transition (started x) v = refl
show_transition (ended x state) v = refl
show_transition (ended_many l) v = show_stops l v

pub show_events-append :
    (es fs : List MonitorEvent) (v : View)
    → show_events (es ++ fs) v ≡ show_events fs (show_events es v)
show_events-append [] fs v = refl
show_events-append (e ∷ es) fs v = show_events-append es fs (show_event e v)

-- A message that the daemon does not reject: no second greeting, and only valid captures.
abbrev pub IsAccepted : ObserverMessage → Type 0
IsAccepted (ObserverMessage.hello n t) = ⊥
IsAccepted (ObserverMessage.availability a d) = Unit
IsAccepted (ObserverMessage.capture e) = validate e ≡ ok tt
IsAccepted (ObserverMessage.diagnostics d) = Unit

start_or_touch-accepts :
    (e : DirectCaptureEvent) (m : V4l2SessionMachine)
    → (t : CaptureTransition) × ((start_or_touch e m).1 ≡ ok t)
unfolding start_or_touch
start_or_touch-accepts e m = elim (Option-cases (get (key_of e) m.active)) [
  | inl absent ↦
      rw (absent, session_from_event-total e, start_or_touch) (started (session_of e), refl)
  | inr (x, found) ↦ rw (found, start_or_touch) (no_transition, refl)
]

apply_operation-accepts :
    (o : DirectCaptureOperation) (e : DirectCaptureEvent) (m : V4l2SessionMachine)
    → (t : CaptureTransition) × ((apply_operation o e m).1 ≡ ok t)
unfolding apply_operation
apply_operation-accepts DirectCaptureOperation.stream_started e m = start_or_touch-accepts e m
apply_operation-accepts DirectCaptureOperation.capture_read e m = start_or_touch-accepts e m
apply_operation-accepts DirectCaptureOperation.stream_stopped e m = (_, refl)
apply_operation-accepts DirectCaptureOperation.device_closed e m = (_, refl)
apply_operation-accepts DirectCaptureOperation.process_exited e m = (_, refl)
apply_operation-accepts DirectCaptureOperation.device_removed e m = (_, refl)
apply_operation-accepts DirectCaptureOperation.backend_lost e m = (_, refl)
apply_operation-accepts DirectCaptureOperation.device_opened e m = (_, refl)

apply-accepts :
    (e : DirectCaptureEvent) (m : V4l2SessionMachine)
    → validate e ≡ ok tt
    → (t : CaptureTransition) × ((Machine.apply e m).1 ≡ ok t)
unfolding Machine.apply
apply-accepts e m h =
    elim (Bool-cases (ltb e.timestamp_monotonic_ns m.last_timestamp_monotonic_ns)) [
      | inl old ↦ rw (h, old, Machine.apply) (no_transition, refl)
      | inr new ↦ rw (h, new, Machine.apply) (apply_operation-accepts e.operation e _)
    ]

-- Such a message queues events, and they show what the message says.
pub message_events-accepts :
    (message : ObserverMessage) (m : V4l2SessionMachine) (v : View)
    → IsAccepted message
    → (es : List MonitorEvent) × ((message_events message m).0 ≡ ok es)
      × (show_events es v ≡ see message v)
unfolding message_events
message_events-accepts (ObserverMessage.hello n t) m v h = elim h [ ]
message_events-accepts (ObserverMessage.diagnostics d) m v h =
    (suppression_diagnostics_changed d ∷ [], refl, refl)
message_events-accepts (ObserverMessage.availability a d) m v h =
    elim (Bool-cases (is_available a)) [
      | inl fine ↦ rw fine (observer_availability_changed a d ∷ [], refl, refl)
      | inr lost ↦ rw lost (
        transition_events (backend_lost m).1 ++ observer_availability_changed a d ∷ [],
        refl,
        show_events-append (transition_events (backend_lost m).1) _ v
            ∙ ap (show_event (observer_availability_changed a d))
                (show_transition (backend_lost m).1 v),
      )
    ]
message_events-accepts (ObserverMessage.capture e) m v h =
    let (t, good) = apply-accepts e m h in rw good (transition_events t, refl, show_transition t v)
