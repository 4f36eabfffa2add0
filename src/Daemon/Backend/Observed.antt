-- ===== src/Daemon/Backend/Observed.antt =====
-- The supervisor with the observer's factory: `ObserverBackendFactory`, and the inputs of its rounds.
use lensguard.Prelude.{ℕ, Bool, List, ◌++◌, none, Option, Result, Text, map}
use lensguard.Core.Capture.{ObserverMessage, ObserverClientMessage}
use lensguard.Core.State.{MonitorEvent, observer_availability_changed}
use lensguard.Io.{ErrorKind}
use lensguard.Daemon.Wire.{Codec, ObserverError, availability}
use lensguard.Daemon.Source.{ObserverEventSource, SocketCalls, connect_to, next_event_timeout}
use lensguard.Daemon.Backoff.{BackoffPolicy}
use lensguard.Daemon.Backend.{
  Supervisor, SupervisorExit, Round, Sending, bounded_failure_text, run_backend_supervisor,
}

-- What a poll meets: the call that sets the timeout, the bytes that have come since, and the error
-- of a read past them.
pub record PollInput : Type 0 where
  pub timeout : Result ErrorKind (Unit {0})
  pub arrived : List ℕ
  pub blocked : ErrorKind

-- What a round meets, from the operating system's side.
pub record ObserverRound : Type 0 where
  pub shutdown_now : Bool
  pub calls : SocketCalls
  pub input : PollInput
  pub sending : Sending
  pub shutdown_while_waiting : Bool

-- `ObserverBackendFactory::unavailable_event`
unfoldable pub unavailable_event : (ObserverError → Text) → ObserverError → MonitorEvent
unavailable_event error_text error =
    observer_availability_changed (availability error) (bounded_failure_text (error_text error))

module _ (version : Text) (client_codec : Codec ObserverClientMessage)
    (codec : Codec ObserverMessage) where
  abbrev pub receive : PollInput → ObserverEventSource → ObserverEventSource
  receive input source = record source {
    stream = record { arrived = source.stream.arrived ++ input.arrived; blocked = input.blocked };
  }

  -- `BackendSource::next_event_timeout` of the observer's source.
  unfoldable pub poll :
      PollInput
      → ObserverEventSource
      → Result ObserverError (Option MonitorEvent) × ObserverEventSource
  poll input source =
      next_event_timeout version client_codec codec input.timeout (receive input source)

  abbrev pub to_round : ObserverRound → Round ObserverEventSource ObserverError PollInput
  to_round r = record {
    shutdown_now = r.shutdown_now;
    connection = connect_to version client_codec codec r.calls;
    input = r.input;
    sending = r.sending;
    shutdown_while_waiting = r.shutdown_while_waiting;
  }

  -- The supervisor of the daemon, with no event on a connection.
  unfoldable pub supervise :
      (ObserverError → Text)
      → BackoffPolicy
      → List ObserverRound
      → Supervisor ObserverEventSource
      → Option SupervisorExit × Supervisor ObserverEventSource
  unfolding poll
  supervise error_text backoff rounds s =
      run_backend_supervisor (poll) none (unavailable_event error_text) error_text backoff
        (map to_round rounds) s
