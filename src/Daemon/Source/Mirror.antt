-- ===== src/Daemon/Source/Mirror.antt =====
-- The monitor's state and the session machine, behind the source's queue.
use lensguard.Prelude.{
  ok_injective, err-ne-ok, ◌≡◌, refl, ap, sym, ◌∙◌, Bool, true, false, not, ◌||◌, ◌&&◌, List, [],
  ◌∷◌, ◌++◌, Option, none, some, ok, arith, Bool-cases, Result-cases, inl, inr, any, Text,
}
use lensguard.OrderedMap.{get}
use lensguard.OrderedMap.Laws.{same}
use lensguard.Core.Model.{CameraSession, CameraSessionState, SessionId, session_id_ord}
use lensguard.Core.Capture.{
  DirectCaptureEvent, ObserverAvailability, SuppressionDiagnostics, is_available, ObserverMessage,
}
use lensguard.Core.Machine.{
  V4l2SessionMachine, CaptureTransition, no_transition, started, ended, ended_many, backend_lost,
}
use lensguard.Core.Machine
use lensguard.Core.Machine.Invariant
use lensguard.Core.Machine.Presence.{
  present, present_after, present-apply, absent-backend_lost, has_id,
}
use lensguard.Core.State.{
  MonitorEvent, session_started, session_stopped, observer_availability_changed,
  suppression_diagnostics_changed, MonitorState, active_session,
}
use lensguard.Core.State.Invariant.{IsValid, active_session-apply}
use lensguard.Daemon.Application.{reduce_and_reconcile}
use lensguard.Daemon.Application.Reconcile.{
  reduce_and_reconcile_unavailable, reduce_and_reconcile-IsValid,
}
use lensguard.Daemon.Source.{ObserverEventSource, transition_events, message_events, translate}

abbrev pub is_some : Option CameraSession → Bool
is_some none = false
is_some (some _) = true

-- Whether a session is active under the identifier.
abbrev pub tracked : SessionId → MonitorState → Bool
tracked id s = is_some (active_session id s)

-- The application pipeline over a list of events.
unfoldable pub consume : List MonitorEvent → MonitorState → MonitorState
consume [] s = s
consume (e ∷ es) s = consume es (reduce_and_reconcile e s).0

pub consume-append :
    (es fs : List MonitorEvent) (s : MonitorState)
    → consume (es ++ fs) s ≡ consume fs (consume es s)
unfolding consume
consume-append [] fs s = refl
consume-append (e ∷ es) fs s = consume-append es fs (reduce_and_reconcile e s).0

pub consume-IsValid :
    (es : List MonitorEvent) (s : MonitorState) → IsValid s → IsValid (consume es s)
unfolding consume
consume-IsValid [] s v = v
consume-IsValid (e ∷ es) s v = consume-IsValid es _ (reduce_and_reconcile-IsValid e s v)

tracked-started :
    (x : CameraSession) (s : MonitorState) (id : SessionId)
    → tracked id (reduce_and_reconcile (session_started x) s).0 ≡ (has_id id x || tracked id s)
unfolding reduce_and_reconcile
tracked-started x s id = ground (arith, active_session-apply (session_started x) s id)

tracked-stopped :
    (stopped : SessionId) (s : MonitorState) (id : SessionId)
    → tracked id (reduce_and_reconcile (session_stopped stopped) s).0
      ≡ (not (same id stopped) && tracked id s)
unfolding reduce_and_reconcile
tracked-stopped stopped s id = ground (arith, active_session-apply (session_stopped stopped) s id)

tracked-diagnostics :
    (d : SuppressionDiagnostics) (s : MonitorState) (id : SessionId)
    → tracked id (reduce_and_reconcile (suppression_diagnostics_changed d) s).0 ≡ tracked id s
unfolding reduce_and_reconcile
tracked-diagnostics d s id =
    ground (arith, active_session-apply (suppression_diagnostics_changed d) s id)

tracked-available :
    (a : ObserverAvailability) (d : Text) (s : MonitorState) (id : SessionId)
    → is_available a ≡ true
    → tracked id (reduce_and_reconcile (observer_availability_changed a d) s).0 ≡ tracked id s
unfolding reduce_and_reconcile
tracked-available a d s id fine =
    rw fine (ground (arith, active_session-apply (observer_availability_changed a d) s id))

pub tracked-unavailable :
    (a : ObserverAvailability) (d : Text) (s : MonitorState) (id : SessionId)
    → IsValid s
    → is_available a ≡ false
    → tracked id (reduce_and_reconcile (observer_availability_changed a d) s).0 ≡ false
unfolding get
tracked-unavailable a d s id v lost = rw (reduce_and_reconcile_unavailable a d s v lost).0 refl

both_stops : (a b t : Bool) → (not b && (not a && t)) ≡ (not (a || b) && t)
both_stops a b t = ground arith

tracked-stops :
    (l : List (CameraSession × CameraSessionState)) (s : MonitorState) (id : SessionId)
    → tracked id (consume (transition_events (ended_many l)) s)
      ≡ present_after (ended_many l) id (tracked id s)
unfolding consume transition_events any
tracked-stops [] s id = refl
tracked-stops ((x, state) ∷ l) s id =
    tracked-stops l (reduce_and_reconcile (session_stopped x.id) s).0 id
    ∙ ap (λ b. not (any (λ (e : CameraSession × CameraSessionState). has_id id e.0) l) && b)
        (tracked-stopped x.id s id)
    ∙ both_stops (has_id id x) _ (tracked id s)

-- The queued events of a transition do to the state what the transition did to the machine.
tracked-transition :
    (t : CaptureTransition) (s : MonitorState) (id : SessionId)
    → tracked id (consume (transition_events t) s) ≡ present_after t id (tracked id s)
unfolding consume transition_events
tracked-transition no_transition s id = refl
tracked-transition (started x) s id = tracked-started x s id
tracked-transition (ended x state) s id = tracked-stopped x.id s id
tracked-transition (ended_many l) s id = tracked-stops l s id

-- Behind its queue, the source's machine and the state agree on the active sessions.
abbrev pub Mirrors : ObserverEventSource → MonitorState → Type 0
Mirrors source s =
    (id : SessionId) → tracked id (consume source.pending s) ≡ present id source.sessions

availability-tracked :
    (a : ObserverAvailability) (d : Text) (m : V4l2SessionMachine) (s : MonitorState)
    (id : SessionId) (es : List MonitorEvent)
    → IsValid s
    → tracked id s ≡ present id m
    → (message_events (ObserverMessage.availability a d) m).0 ≡ ok es
    → tracked id (consume es s) ≡ present id (message_events (ObserverMessage.availability a d) m).1
unfolding message_events
availability-tracked a d m s id es v same = elim (Bool-cases (is_available a)) [
  | inl fine ↦
      rw fine
        (λ h. rw (← ok_injective h) (unfold consume in tracked-available a d s id fine ∙ same))
  | inr lost ↦ rw lost (λ h. rw (← ok_injective h) (
      rw (absent-backend_lost m id) (
        rw (consume-append (transition_events (backend_lost m).1) _ s) (
          unfold consume in
          tracked-unavailable a d _ id (consume-IsValid (transition_events (backend_lost m).1) s v)
            lost))))
]

capture-tracked :
    (e : DirectCaptureEvent) (m : V4l2SessionMachine) (s : MonitorState) (id : SessionId)
    (es : List MonitorEvent)
    → Machine.Invariant.IsValid m
    → tracked id s ≡ present id m
    → (message_events (ObserverMessage.capture e) m).0 ≡ ok es
    → tracked id (consume es s) ≡ present id (message_events (ObserverMessage.capture e) m).1
unfolding message_events
capture-tracked e m s id es mv same = elim (Result-cases (Machine.apply e m).1) [
  | inr (x, bad) ↦ rw bad (λ h. absurd (err-ne-ok h))
  | inl (t, good) ↦ rw good (λ h. rw (← ok_injective h) (
      tracked-transition t s id
      ∙ ap (present_after t id) same
      ∙ sym (present-apply e m id t mv good)))
]

-- A message that is accepted keeps a valid state and a valid machine in agreement.
pub message-tracked :
    (message : ObserverMessage) (m : V4l2SessionMachine) (s : MonitorState) (id : SessionId)
    (es : List MonitorEvent)
    → Machine.Invariant.IsValid m
    → IsValid s
    → tracked id s ≡ present id m
    → (message_events message m).0 ≡ ok es
    → tracked id (consume es s) ≡ present id (message_events message m).1
unfolding message_events
message-tracked (ObserverMessage.hello v t) m s id es mv v' same h = absurd (err-ne-ok h)
message-tracked (ObserverMessage.availability a d) m s id es mv v same h =
    availability-tracked a d m s id es v same h
message-tracked (ObserverMessage.diagnostics d) m s id es mv v same h =
    rw (← ok_injective h) (unfold consume in tracked-diagnostics d s id ∙ same)
message-tracked (ObserverMessage.capture e) m s id es mv v same h =
    capture-tracked e m s id es mv same h

-- A message that the source accepts keeps the two in agreement: whatever it starts, ends or resets
-- in the machine, the events that it queues start, end or reset in the state.
pub translate-Mirrors :
    (message : ObserverMessage) (source : ObserverEventSource) (s : MonitorState)
    → Machine.Invariant.IsValid source.sessions
    → IsValid s
    → Mirrors source s
    → (translate message source).0 ≡ ok tt
    → Mirrors (translate message source).1 s
unfolding translate
translate-Mirrors message source s mv v mirror =
    elim (Result-cases (message_events message source.sessions).0) [
      | inr (x, bad) ↦ rw bad (λ h. absurd (err-ne-ok h))
      | inl (es, good) ↦ rw good (λ h id. rw (consume-append source.pending es s) (
          message-tracked message source.sessions (consume source.pending s) id es mv
            (consume-IsValid source.pending s v) (mirror id) good))
    ]
