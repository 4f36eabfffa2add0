-- ===== src/Tests/SystemTests.antt =====
-- The theorem on the observer and the daemon together, at a process that cannot be looked up.
use lensguard.Core.Model.{SessionId, session_id_ord}
use lensguard.Core.Machine.{new_machine}
use lensguard.Core.Machine.Presence.{present}
use lensguard.System.Effects.{observed}
use lensguard.Prelude.{
  false, text_eq, ◌≡◌, refl, [], ◌∷◌, List, map, none, some, ok, err, Text, Result, length, drop,
}
use lensguard.Io.{ErrorKind, timed_out}
use lensguard.Order.{nat_ord}
use lensguard.OrderedMap.{get}
use lensguard.Core.Capture.{ObserverMessage}
use lensguard.Core.State.{MonitorEvent, new_state}
use lensguard.Core.State.Invariant.{new_state-IsValid}
use lensguard.Daemon.Wire.{to_be_bytes}
use lensguard.Daemon.Source.{ObserverEventSource, connect_to}
use lensguard.Daemon.Source.Mirror.{consume, tracked}
use lensguard.Observer.Policy.{TrustedBrokerPolicy}
use lensguard.Observer.Messages.{
  RoutedMessage, SharedStatus, diagnostics_of, set_availability, increment_suppression,
}
use lensguard.Observer.Events.{
  Lookups, Wake, event, process_kernel_events, wake, start_candidate, build_candidate,
}
use lensguard.Observer.Startup.{start_up, shut_down}
use lensguard.Observer.Server.{routed, forward, frame_of, greet, serve_client, write}
use lensguard.Observer.Server.Routing.{new_connection}
use lensguard.Observer.Server.Delivery.{open_socket}
use lensguard.Observer.Server.Told.{view_of}
use lensguard.System.Reception.{shown}
use lensguard.System.Polling.{Polled}
use lensguard.System.Accepted.{running}
use lensguard.System.EndToEnd.{process_kernel_events-shown}
use lensguard.Tests.ObserverTests.{raw}
use lensguard.Tests.ServerTests.{
  counts, codec, codec-IsFaithful, client_codec, client_codec-IsFaithful, system, client,
  hello_frame, said, arrived, known, authorized, admitted,
}

abbrev no_lookups : Lookups
no_lookups = record { start_time = none; camera = none; owner = none }

-- A start that cannot be looked up, and what it leads to.
abbrev wakes : List Wake
wakes = event raw no_lookups ∷ []

abbrev received : List RoutedMessage
received = record { user_id = some 1000; message = ObserverMessage.diagnostics (counts 1) } ∷ []

abbrev no_policy : Result Text TrustedBrokerPolicy
no_policy = err []

abbrev attached : Result Text (Unit {0})
attached = ok tt

abbrev no_signal : Result ErrorKind (Unit {0})
no_signal = err timed_out

abbrev after : SharedStatus
after = (shut_down no_signal (process_kernel_events wakes (running no_policy attached [])).shared).1

same_availability : client.status.availability ≡ (running no_policy attached []).shared.availability
unfolding process_kernel_events start_up set_availability
same_availability = refl

same_counts :
    diagnostics_of 1000 client.later_status
    ≡ diagnostics_of 1000 (running no_policy attached []).shared
unfolding process_kernel_events start_up set_availability get
same_counts = refl

received_after :
    drop (length (running no_policy attached []).shared.messages) after.messages ≡ received
unfolding process_kernel_events start_up set_availability get wake start_candidate build_candidate
    increment_suppression
received_after = refl

served :
    (serve_client [] client_codec codec system client (map routed received) (new_connection none)).0
    ≡ ok tt
unfolding serve_client greet write frame_of to_be_bytes forward text_eq get
served = rw admitted

none_tracked : (id : SessionId) → tracked id new_state ≡ false
unfolding get
none_tracked id = refl

process_kernel_events-shown_example :
    (source : ObserverEventSource) × (connect_to [] client_codec codec (
        open_socket [] client_codec codec system
          (serve_client [] client_codec codec system client
            (map routed received)
            (new_connection none)).1.written
          timed_out)
      ≡ ok source)
    × (events : List MonitorEvent) × (last : ObserverEventSource) × Polled [] client_codec codec
        system events source last
    × (last.stream.arrived ≡ [])
    × (last.pending ≡ [])
    × (shown (consume events new_state) ≡ view_of 1000 after)
    × ((id : SessionId)
        → tracked id (consume events new_state)
          ≡ present id (
              observed
                (serve_client [] client_codec codec system client
                  (map routed received)
                  (new_connection none)).1.sent
                new_machine))
process_kernel_events-shown_example =
    process_kernel_events-shown [] client_codec codec system no_policy attached [] wakes no_signal
      client none 1000 42 hello_frame timed_out after received new_state client_codec-IsFaithful
      codec-IsFaithful said arrived known authorized same_availability same_counts refl
      received_after served new_state-IsValid none_tracked
