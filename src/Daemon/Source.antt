-- ===== src/Daemon/Source.antt =====
-- daemon/src/observer.rs, `ObserverEventSource`: the client of the observer's socket.
--
-- `serde_json` and the crate's version are parameters.
pub mod Mirror
use lensguard.Prelude.{
  ℕ, Bool, true, false, not, ◌&&◌, List, [], ◌∷◌, ◌++◌, map, Option, none, some, ◌==◌, Result, ok,
  err, ◌>>=◌, ◌>>◌, fail_if, map_err, Text, text_eq, if◌then◌else◌,
}
use lensguard.Core.Model.{CameraSession, CameraSessionState}
use lensguard.Core.Capture.{
  ObserverMessage, ObserverClientMessage, observer_schema_version, is_available,
  EventValidationError,
}
use lensguard.Core.Machine.{
  V4l2SessionMachine, new_machine, CaptureTransition, no_transition, started, ended, ended_many,
  backend_lost,
}
use lensguard.Core.Machine
use lensguard.Core.State.{
  MonitorEvent, session_started, session_stopped, observer_availability_changed,
  suppression_diagnostics_changed,
}
use lensguard.Io.{ErrorKind, would_block, timed_out}
use lensguard.Daemon.Wire.{
  ObserverError, connect, io, invalid_handshake, rejected_event, Codec, Stream, write_message,
  read_message,
}

pub record ObserverEventSource : Type 0 where
  pub stream : Stream
  pub sessions : V4l2SessionMachine
  pub pending : List MonitorEvent

-- `queue_ended_or_started`, as the events that it adds.
unfoldable pub transition_events : CaptureTransition → List MonitorEvent
transition_events no_transition = []
transition_events (started session) = session_started session ∷ []
transition_events (ended session _) = session_stopped session.id ∷ []
transition_events (ended_many l) =
    map (λ (e : CameraSession × CameraSessionState). session_stopped e.0.id) l

-- The effect of a message on the session machine, and the events that it queues.
abbrev Translated : Type 0
Translated = Result ObserverError (List MonitorEvent) × V4l2SessionMachine

abbrev capture_events :
    V4l2SessionMachine × Result EventValidationError CaptureTransition → Translated
capture_events (m, ok t) = (ok (transition_events t), m)
capture_events (m, err e) = (err (rejected_event e), m)

unfoldable pub message_events : ObserverMessage → V4l2SessionMachine → Translated
message_events (ObserverMessage.hello _ _) m = (err invalid_handshake, m)
message_events (ObserverMessage.availability a detail) m =
    if is_available a then (ok (observer_availability_changed a detail ∷ []), m) else (
      ok (transition_events (backend_lost m).1 ++ observer_availability_changed a detail ∷ []),
      (backend_lost m).0,
    )
message_events (ObserverMessage.diagnostics d) m = (ok (suppression_diagnostics_changed d ∷ []), m)
message_events (ObserverMessage.capture event) m = capture_events (Machine.apply event m)

abbrev queue :
    ObserverEventSource → Translated → Result ObserverError (Unit {0}) × ObserverEventSource
queue source (ok events, m) =
    (ok tt, record source { sessions = m; pending = source.pending ++ events })
queue source (err e, m) = (err e, record source { sessions = m })

-- `translate`
unfoldable pub translate :
    ObserverMessage → ObserverEventSource → Result ObserverError (Unit {0}) × ObserverEventSource
translate message source = queue source (message_events message source.sessions)

-- `VecDeque::pop_front`
unfoldable pub pop_front : ObserverEventSource → Option MonitorEvent × ObserverEventSource
pop_front source = elim source.pending [
  | [] ↦ (none, source)
  | event ∷ rest ↦ (some event, record source { pending = rest })
]

-- What the operating system answers to the calls of `connect_to`.
pub record SocketCalls : Type 0 where
  pub connect : Result ErrorKind Stream
  pub set_write_timeout : Result ErrorKind (Unit {0})
  pub write_all : Result ErrorKind (Unit {0})
  pub set_read_timeout : Result ErrorKind (Unit {0})

module _ (version : Text) (client_codec : Codec ObserverClientMessage)
    (codec : Codec ObserverMessage) where
  -- `matches!` on the greeting.
  abbrev accepts_hello : ObserverMessage → Bool
  accepts_hello (ObserverMessage.hello schema observer_version) =
      schema == observer_schema_version && text_eq observer_version version
  accepts_hello _ = false

  -- `connect_to`: the socket and the greetings.
  unfoldable pub connect_to : SocketCalls → Result ObserverError ObserverEventSource
  connect_to calls = do
    stream ← map_err connect calls.connect
    map_err io calls.set_write_timeout
    _ ← write_message client_codec (ObserverClientMessage.hello observer_schema_version version)
    map_err io calls.write_all
    map_err io calls.set_read_timeout
    hello ← (read_message codec stream).0
    fail_if (not (accepts_hello hello)) invalid_handshake
    ok (record { stream = (read_message codec stream).1; sessions = new_machine; pending = [] })

  abbrev pub is_timeout : ObserverError → Bool
  is_timeout (io would_block) = true
  is_timeout (io timed_out) = true
  is_timeout _ = false

  abbrev pub pop_translated :
      Result ObserverError (Unit {0}) × ObserverEventSource
      → Result ObserverError (Option MonitorEvent) × ObserverEventSource
  pop_translated (ok _, source) = (ok (pop_front source).0, (pop_front source).1)
  pop_translated (err e, source) = (err e, source)

  abbrev pub on_message :
      ObserverEventSource
      → Result ObserverError ObserverMessage × Stream
      → Result ObserverError (Option MonitorEvent) × ObserverEventSource
  on_message source (ok message, stream) =
      pop_translated (translate message (record source { stream = stream }))
  on_message source (err e, stream) =
      (if is_timeout e then ok none else err e, record source { stream = stream })

  abbrev pub read_into :
      Result ErrorKind (Unit {0})
      → ObserverEventSource
      → Result ObserverError (Option MonitorEvent) × ObserverEventSource
  read_into (err e) source = (err (io e), source)
  read_into (ok _) source = on_message source (read_message codec source.stream)

  -- `next_event_timeout`: `none` is a timeout. The first argument is what the call that sets the
  -- socket's timeout gives.
  unfoldable pub next_event_timeout :
      Result ErrorKind (Unit {0})
      → ObserverEventSource
      → Result ObserverError (Option MonitorEvent) × ObserverEventSource
  unfolding pop_front translate
  next_event_timeout timeout source = elim source.pending [
    | event ∷ rest ↦ (ok (some event), record source { pending = rest })
    | [] ↦ read_into timeout source
  ]
