-- ===== src/Daemon/Backend/Reconnect.antt =====
-- The supervisor over the observer's source, across connections, failures and reconnections.
use lensguard.Prelude.{
  ◌≡◌, refl, true, false, List, [], ◌∷◌, ◌++◌, Option, none, some, Result, ok, err, Text,
  Bool-cases, Result-cases, inl, inr,
}
use lensguard.Core.Capture.{
  ObserverAvailability, ObserverMessage, ObserverClientMessage, is_available,
}
use lensguard.Core.State.{MonitorEvent, MonitorState, observer_availability_changed}
use lensguard.Core.State
use lensguard.Daemon.Wire.{Codec, ObserverError, availability}
use lensguard.Daemon.Source.{ObserverEventSource, connect_to}
use lensguard.Daemon.Source.Mirror.{tracked-unavailable, consume-IsValid, consume}
use lensguard.Daemon.Backend.{
  delivered, shut_down, closed, run_backend_supervisor, wait, send_then, polled, connect_round,
  closed, step, Round, BackoffPolicy, Supervisor, Sending, bounded_failure_text, SupervisorExit,
}
use lensguard.Daemon.Backend.Polls.{
  InStep, Follows, availability_lost, next-Follows, connect_to-IsFresh,
}
use lensguard.Daemon.Backend.Observed.{
  PollInput, ObserverRound, unavailable_event, receive, poll, to_round, supervise,
}
use lensguard.Daemon.Backend.Agreement.{
  Agrees, IsMirrored, Kept, consume-last, fresh-InStep, running-IsMirrored,
}

module _ (version : Text) (client_codec : Codec ObserverClientMessage)
    (codec : Codec ObserverMessage) (error_text : ObserverError → Text) (backoff : BackoffPolicy)
    (start : MonitorState) where
  abbrev step_of :
      Round ObserverEventSource ObserverError PollInput
      → Supervisor ObserverEventSource
      → Option SupervisorExit × Supervisor ObserverEventSource
  step_of =
      step (poll version client_codec codec) none (unavailable_event error_text) error_text backoff

  poll-Follows :
      (input : PollInput) (source : ObserverEventSource) (s : MonitorState)
      → State.Invariant.IsValid s
      → InStep source s
      → Follows (poll version client_codec codec input source) s
  unfolding poll
  poll-Follows input source s v h =
      next-Follows version client_codec codec input.timeout source.pending
        (receive version client_codec codec input source) s v h

  abbrev send_of :
      Round ObserverEventSource ObserverError PollInput
      → MonitorEvent
      → Supervisor ObserverEventSource
      → (Supervisor ObserverEventSource → Option SupervisorExit × Supervisor ObserverEventSource)
      → Option SupervisorExit × Supervisor ObserverEventSource
  send_of =
      send_then (poll version client_codec codec) none (unavailable_event error_text) error_text
        backoff

  abbrev wait_of :
      Round ObserverEventSource ObserverError PollInput
      → Supervisor ObserverEventSource
      → Option SupervisorExit × Supervisor ObserverEventSource
  wait_of =
      wait (poll version client_codec codec) none (unavailable_event error_text) error_text backoff

  send_then-Kept :
      (sending : Sending) (event : MonitorEvent)
      (round : Round ObserverEventSource ObserverError PollInput)
      (s : Supervisor ObserverEventSource)
      (continue : Supervisor ObserverEventSource
        → Option SupervisorExit × Supervisor ObserverEventSource)
      → round.sending ≡ sending
      → Kept start (continue (record s { sent = s.sent ++ event ∷ [] }))
      → Kept start (send_of round event s continue)
  send_then-Kept delivered event round s continue e h = rw e h
  send_then-Kept shut_down event round s continue e h = rw e tt
  send_then-Kept (closed true) event round s continue e h = rw e tt
  send_then-Kept (closed false) event round s continue e h = rw e tt

  wait-Kept :
      (round : Round ObserverEventSource ObserverError PollInput)
      (s : Supervisor ObserverEventSource)
      → Agrees none (consume s.sent start)
      → Kept start (wait_of round s)
  wait-Kept round s h = elim (Bool-cases round.shutdown_while_waiting) [
    | inl down ↦ rw down tt
    | inr up ↦ rw up h
  ]

  -- After a report that the observer is unavailable no session is tracked.
  lost-Kept :
      (round : Round ObserverEventSource ObserverError PollInput) (a : ObserverAvailability)
      (d : Text) (s : Supervisor ObserverEventSource)
      → State.Invariant.IsValid start
      → is_available a ≡ false
      → Kept start (send_of round (observer_availability_changed a d) s (wait_of round))
  lost-Kept round a d s v lost =
      send_then-Kept round.sending (observer_availability_changed a d) round s (wait_of round) refl
        (wait-Kept round (record s { sent = s.sent ++ observer_availability_changed a d ∷ [] })
          (λ id. rw (consume-last s.sent (observer_availability_changed a d) start) (
            tracked-unavailable a d (consume s.sent start) id (consume-IsValid s.sent start v)
              lost)))

  connect-Kept :
      (r : ObserverRound) (s : Supervisor ObserverEventSource)
      → State.Invariant.IsValid start
      → Agrees none (consume s.sent start)
      → Kept start (
          connect_round
            (poll version client_codec codec)
            none
            (unavailable_event error_text)
            error_text
            backoff
            (to_round version client_codec codec r)
            s)
  unfolding connect_round
  connect-Kept r s v h = elim (Result-cases (connect_to version client_codec codec r.calls)) [
    | inl (source, there) ↦ rw there (
        fresh-InStep source (consume s.sent start)
          (connect_to-IsFresh version client_codec codec r.calls source there) h)
    | inr (error, failed) ↦ rw failed (
        unfold unavailable_event in
        lost-Kept (to_round version client_codec codec r) (availability error)
          (bounded_failure_text (error_text error)) s v (availability_lost error))
  ]

  polled-Kept :
      (round : Round ObserverEventSource ObserverError PollInput)
      (s : Supervisor ObserverEventSource) (r : Result ObserverError (Option MonitorEvent))
      (source : ObserverEventSource)
      → State.Invariant.IsValid start
      → Follows (r, source) (consume s.sent start)
      → Kept start (
          polled
            (poll version client_codec codec)
            none
            (unavailable_event error_text)
            error_text
            backoff
            round
            s
            (r, source))
  polled-Kept round s (ok none) source v h = h
  polled-Kept round s (ok (some event)) source v h =
      send_then-Kept round.sending event round (record s { source = some source })
        (λ s'. (none, s')) refl (rw (consume-last s.sent event start) h)
  polled-Kept round s (err error) source v h =
      lost-Kept round ObserverAvailability.backend_lost _ (record s { source = some source }) v refl

  step-Kept :
      (r : ObserverRound) (held : Option ObserverEventSource) (s : Supervisor ObserverEventSource)
      → State.Invariant.IsValid start
      → s.source ≡ held
      → IsMirrored start s
      → Kept start (step_of (to_round version client_codec codec r) s)
  unfolding step
  step-Kept r none s v e h = elim (Bool-cases r.shutdown_now) [
    | inl down ↦ rw down tt
    | inr up ↦ rw up (rw e (connect-Kept r s v (rw e at h)))
  ]
  step-Kept r (some source) s v e h = elim (Bool-cases r.shutdown_now) [
    | inl down ↦ rw down tt
    | inr up ↦ rw up (
        rw e (
          polled-Kept (to_round version client_codec codec r) s _ _ v (
            poll-Follows r.input source (consume s.sent start) (consume-IsValid s.sent start v)
              (rw e at h))))
  ]

  next_round-Kept :
      (x : Option SupervisorExit × Supervisor ObserverEventSource)
      (rest : Supervisor ObserverEventSource
        → Option SupervisorExit × Supervisor ObserverEventSource)
      → Kept start x
      → (IsMirrored start x.1 → Kept start (rest x.1))
      → Kept start (elim x.0 [ some e ↦ (some e, x.1) | none ↦ rest x.1 ])
  next_round-Kept (none, s) rest h k = k h
  next_round-Kept (some e, s) rest h k = tt

  run-Kept :
      (rounds : List ObserverRound) (s : Supervisor ObserverEventSource)
      → State.Invariant.IsValid start
      → IsMirrored start s
      → Kept start (supervise version client_codec codec error_text backoff rounds s)
  unfolding supervise run_backend_supervisor
  run-Kept [] s v h = h
  run-Kept (r ∷ rest) s v h =
      next_round-Kept (step_of (to_round version client_codec codec r) s)
        (supervise version client_codec codec error_text backoff rest)
        (step-Kept r s.source s v refl h) (λ k. run-Kept rest _ v k)

  -- While the supervisor runs, through any connections, failures and reconnections: as long as it
  -- holds no source, the state that has consumed what it sent tracks no session, and when it holds
  -- one, the state is in step with the source's machine behind the source's queue. It starts from a
  -- valid state, with which it agrees.
  pub supervise-IsMirrored :
      (rounds : List ObserverRound) (s : Supervisor ObserverEventSource)
      → State.Invariant.IsValid start
      → IsMirrored start s
      → (supervise version client_codec codec error_text backoff rounds s).0 ≡ none
      → IsMirrored start (supervise version client_codec codec error_text backoff rounds s).1
  supervise-IsMirrored rounds s v h runs = running-IsMirrored start _ (run-Kept rounds s v h) runs
