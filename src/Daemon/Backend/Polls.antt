-- ===== src/Daemon/Backend/Polls.antt =====
-- What one poll of the observer's source does to the agreement of machine and state.
use lensguard.Prelude.{
  ◌≡◌, refl, Bool, true, false, List, [], ◌∷◌, Option, none, some, Result, ok, err, Text, arith,
  Bool-cases, Result-cases, inl, inr, if◌then◌else◌,
}
use lensguard.Core.Capture.{ObserverMessage, ObserverClientMessage, is_available}
use lensguard.Core.Machine.{V4l2SessionMachine, new_machine, backend_lost}
use lensguard.Core.Machine
use lensguard.Core.Machine.Invariant.{new_machine-IsValid}
use lensguard.Core.State.{MonitorEvent, MonitorState, observer_availability_changed}
use lensguard.Core.State
use lensguard.Daemon.Application.{reduce_and_reconcile}
use lensguard.Io.{ErrorKind}
use lensguard.Daemon.Wire.{Codec, ObserverError, availability, Stream, read_message}
use lensguard.Daemon.Source
use lensguard.Daemon.Source.{
  ObserverEventSource, SocketCalls, connect_to, next_event_timeout, translate, message_events,
  pop_front,
}
use lensguard.Daemon.Source.Mirror.{consume, Mirrors, translate-Mirrors}

-- A source whose machine is valid and agrees with the state behind the queue.
abbrev pub InStep : ObserverEventSource → MonitorState → Type 0
InStep source s = Machine.Invariant.IsValid source.sessions × Mirrors source s

-- A source as `connect_to` makes it.
abbrev pub IsFresh : ObserverEventSource → Type 0
IsFresh source = (source.sessions ≡ new_machine) × (source.pending ≡ [])

-- What a poll leaves: in step before the event that it gave, which is yet to be consumed.
abbrev pub Follows :
    Result ObserverError (Option MonitorEvent) × ObserverEventSource → MonitorState → Type 0
Follows (ok none, source) s = InStep source s
Follows (ok (some event), source) s = InStep source (reduce_and_reconcile event s).0
Follows (err e, source) s = Unit

pop_front-Follows :
    (source : ObserverEventSource) (s : MonitorState)
    → InStep source s
    → Follows (ok (pop_front source).0, (pop_front source).1) s
unfolding pop_front consume
pop_front-Follows source s h =
    elim source.pending
        as (λ l.
          (h : InStep (record source { pending = l }) s)
          → Follows
              (
                ok (pop_front (record source { pending = l })).0,
                (pop_front (record source { pending = l })).1,
              )
              s) [ [] ↦ λ k. k | event ∷ rest ↦ λ k. k ]
      h

pub message_events-IsValid :
    (message : ObserverMessage) (m : V4l2SessionMachine)
    → Machine.Invariant.IsValid m
    → Machine.Invariant.IsValid (message_events message m).1
unfolding message_events backend_lost
message_events-IsValid (ObserverMessage.hello v t) m h = h
message_events-IsValid (ObserverMessage.availability a d) m h = elim (Bool-cases (is_available a)) [
  | inl fine ↦ rw fine h
  | inr lost ↦ rw lost (record { sorted = tt; confirmed = tt })
]
message_events-IsValid (ObserverMessage.diagnostics d) m h = h
message_events-IsValid (ObserverMessage.capture e) m h = elim (Result-cases (Machine.apply e m).1) [
  | inl (t, good) ↦ rw good (Machine.Invariant.apply-IsValid e m h)
  | inr (x, bad) ↦ rw bad (Machine.Invariant.apply-IsValid e m h)
]

translate-IsValid :
    (message : ObserverMessage) (source : ObserverEventSource)
    → Machine.Invariant.IsValid source.sessions
    → Machine.Invariant.IsValid (translate message source).1.sessions
unfolding translate
translate-IsValid message source h =
    elim (Result-cases (message_events message source.sessions).0) [
      | inl (es, good) ↦ rw good (message_events-IsValid message source.sessions h)
      | inr (x, bad) ↦ rw bad (message_events-IsValid message source.sessions h)
    ]

pub availability_lost : (e : ObserverError) → is_available (availability e) ≡ false
unfolding availability
availability_lost (ObserverError.connect ErrorKind.not_found) = refl
availability_lost (ObserverError.connect ErrorKind.permission_denied) = refl
availability_lost (ObserverError.connect ErrorKind.already_exists) = refl
availability_lost (ObserverError.connect ErrorKind.invalid_data) = refl
availability_lost (ObserverError.connect ErrorKind.broken_pipe) = refl
availability_lost (ObserverError.connect ErrorKind.would_block) = refl
availability_lost (ObserverError.connect ErrorKind.timed_out) = refl
availability_lost (ObserverError.connect ErrorKind.unexpected_eof) = refl
availability_lost (ObserverError.connect ErrorKind.other) = refl
availability_lost (ObserverError.io k) = refl
availability_lost ObserverError.json = refl
availability_lost ObserverError.oversized_message = refl
availability_lost ObserverError.invalid_handshake = refl
availability_lost (ObserverError.rejected_event x) = refl

module _ (version : Text) (client_codec : Codec ObserverClientMessage)
    (codec : Codec ObserverMessage) where
  pop_translated-Follows :
      (r : Result ObserverError (Unit {0})) (source : ObserverEventSource) (s : MonitorState)
      → (r ≡ ok tt → InStep source s)
      → Follows (Source.pop_translated version client_codec codec (r, source)) s
  pop_translated-Follows (ok tt) source s h = pop_front-Follows source s (h refl)
  pop_translated-Follows (err e) source s h = tt

  timeout-Follows :
      (timed_out : Bool) (e : ObserverError) (source : ObserverEventSource) (s : MonitorState)
      → InStep source s
      → Follows (if timed_out then ok none else err e, source) s
  timeout-Follows true e source s h = h
  timeout-Follows false e source s h = tt

  on_message-Follows :
      (source : ObserverEventSource) (s : MonitorState) (r : Result ObserverError ObserverMessage)
      (stream : Stream)
      → State.Invariant.IsValid s
      → InStep source s
      → Follows (Source.on_message version client_codec codec source (r, stream)) s
  on_message-Follows source s (ok message) stream v h =
      let source' : ObserverEventSource = record source { stream = stream } in
      pop_translated-Follows (translate message source').0 (translate message source').1 s (λ good.
        (translate-IsValid message source' h.0, translate-Mirrors message source' s h.0 v h.1 good))
  on_message-Follows source s (err e) stream v h =
      timeout-Follows (Source.is_timeout version client_codec codec e) e
        (record source { stream = stream }) s h

  read_into-Follows :
      (timeout : Result ErrorKind (Unit {0})) (source : ObserverEventSource) (s : MonitorState)
      → State.Invariant.IsValid s
      → InStep source s
      → Follows (Source.read_into version client_codec codec timeout source) s
  read_into-Follows (ok tt) source s v h =
      on_message-Follows source s (read_message codec source.stream).0
        (read_message codec source.stream).1 v h
  read_into-Follows (err e) source s v h = tt

  pub next-Follows :
      (timeout : Result ErrorKind (Unit {0})) (pending : List MonitorEvent)
      (source : ObserverEventSource) (s : MonitorState)
      → State.Invariant.IsValid s
      → InStep (record source { pending = pending }) s
      → Follows
          (next_event_timeout version client_codec codec timeout
            (record source { pending = pending }))
          s
  unfolding next_event_timeout consume
  next-Follows timeout [] source s v h =
      read_into-Follows timeout (record source { pending = [] }) s v h
  next-Follows timeout (event ∷ rest) source s v h = h

  pub connect_to-IsFresh :
      (calls : SocketCalls) (source : ObserverEventSource)
      → connect_to version client_codec codec calls ≡ ok source
      → IsFresh source
  unfolding connect_to
  connect_to-IsFresh calls source h = ground arith
