-- ===== src/System/EndToEnd.antt =====
-- From the kernel to the daemon's state: observer/src/main.rs and ipc.rs at the one end of the
-- socket, daemon/src/observer.rs and application.rs at the other.
use mathlib.Core.Path.{subst, subst₂}
use lensguard.Prelude.{
  ap, false, ℕ, ◌≡◌, refl, sym, ◌∙◌, true, List, [], ◌∷◌, map, Option, some, Text, ok, Result, pos,
  length, drop, All, text_eq_iff,
}
use lensguard.Io.{ErrorKind, FileSystem}
use lensguard.Core.Capture.{observer_schema_version, ObserverMessage, ObserverClientMessage}
use lensguard.Core.Machine.{new_machine}
use lensguard.Core.State.{MonitorEvent, MonitorState}
use lensguard.Core.State.Invariant.{IsValid}
use lensguard.Daemon.Wire.{Codec, IsFaithful, write_message}
use lensguard.Daemon.Source.{ObserverEventSource, connect_to}
use lensguard.Daemon.Source.Mirror.{consume, tracked}
use lensguard.Observer.Messages.{RoutedMessage, SharedStatus, diagnostics_of}
use lensguard.Observer.Policy.{TrustedBrokerPolicy}
use lensguard.Observer.Events.{Processor, Wake, process_kernel_events}
use lensguard.Observer.Startup.{shut_down}
use lensguard.Observer.Server.{Failure, routed, Client, is_authorized_daemon, serve_client}
use lensguard.Observer.Server.Frames.{messages_for, Sends-partial}
use lensguard.Observer.Server.Routing.{new_connection}
use lensguard.Observer.Server.Delivery.{
  Yields, open_socket, daemon_hello, connect_to-serve_client, daemon_admitted,
}
use lensguard.Observer.Server.Current.{sent_all, seen_all}
use lensguard.Observer.Server.Told.{view_of}
use lensguard.System.Reception.{shown, shown-consume, IsAccepted}
use lensguard.System.Effects.{
  observed_hello, new_machine-present, observed, shown-Queues, tracked-Queues,
}
use lensguard.Core.Machine.Presence.{present}
use lensguard.Core.Machine.Invariant.{new_machine-IsValid}
use lensguard.Core.Model.{SessionId}
use lensguard.System.Accepted.{running, sent-IsAccepted}
use lensguard.System.Polling.{Polled, read_whole}

module _ (version : Text) (client_codec : Codec ObserverClientMessage)
    (codec : Codec ObserverMessage) (fs : FileSystem) where
  -- From the kernel to the daemon's state. The observer has started, in whatever way, and has been
  -- running; a user daemon connects and subscribes, greeted with the status that still holds when it
  -- subscribes; the kernel reports whatever it reports, the observer may shut down, and the daemon's
  -- socket takes every message. Then the daemon's handshake succeeds, its polls read the connection
  -- to its end without an error, and a monitor that reduces the events of these polls, from a valid
  -- state without sessions, shows the availability and the counts of its user that the observer
  -- holds, and tracks the sessions that a session machine makes of what the observer has sent. It is
  -- the codecs' part that they read back what they write.
  pub process_kernel_events-shown :
      (policy : Result Text TrustedBrokerPolicy) (attached : Result Text (Unit {0}))
      (earlier wakes : List Wake) (signal : Result ErrorKind (Unit {0})) (client : Client)
      (room : Option Failure) (user_id process_id : ℕ) (bytes : List ℕ) (blocked : ErrorKind)
      (after : SharedStatus) (received : List RoutedMessage) (s : MonitorState)
      → IsFaithful client_codec
      → IsFaithful codec
      → write_message client_codec (daemon_hello version client_codec codec fs) ≡ ok bytes
      → client.stream ≡ record { arrived = bytes; blocked = blocked }
      → client.credentials ≡ ok (record { uid = user_id; pid = some (pos process_id) })
      → is_authorized_daemon fs process_id ≡ true
      → client.status.availability ≡ (running policy attached earlier).shared.availability
      → diagnostics_of user_id client.later_status
        ≡ diagnostics_of user_id (running policy attached earlier).shared
      → (shut_down signal (process_kernel_events wakes (running policy attached earlier)).shared).1
        ≡ after
      → drop (length (running policy attached earlier).shared.messages) after.messages ≡ received
      → (serve_client version client_codec codec fs client
          (map routed received)
          (new_connection room)).0
        ≡ ok tt
      → IsValid s
      → ((id : SessionId) → tracked id s ≡ false)
      → (source : ObserverEventSource) × (connect_to version client_codec codec (
            open_socket version client_codec codec fs
              (serve_client version client_codec codec fs client
                (map routed received)
                (new_connection room)).1.written
              blocked)
          ≡ ok source)
        × (events : List MonitorEvent) × (last : ObserverEventSource) × Polled version client_codec
            codec fs events source last
        × (last.stream.arrived ≡ [])
        × (last.pending ≡ [])
        × (shown (consume events s) ≡ view_of user_id after)
        × ((id : SessionId)
            → tracked id (consume events s)
              ≡ present id (
                  observed
                    (serve_client version client_codec codec fs client
                      (map routed received)
                      (new_connection room)).1.sent
                    new_machine))
  process_kernel_events-shown policy attached earlier wakes signal client room user_id process_id
        bytes blocked after received s fc fs' w st known good a d ends rest done v none_tracked =
      let p : Processor = running policy attached earlier in
      let hello = daemon_hello version client_codec codec fs in
      let availability =
        ObserverMessage.availability client.status.availability.0 client.status.availability.1 in
      let counts = ObserverMessage.diagnostics (diagnostics_of user_id client.later_status) in
      let later = messages_for user_id (map routed received) in
      let sent =
        sent_all version client_codec codec fs client received room user_id hello
          (daemon_admitted version client_codec codec fs client user_id process_id bytes blocked fc
            w st known good)
          ((text_eq_iff version version).1 refl) done in
      let (sends, source, connected, fresh, empty, yields) =
        connect_to-serve_client version client_codec codec fs client (map routed received) room
          user_id process_id bytes blocked (ObserverMessage.hello observer_schema_version version)
          (availability ∷ counts ∷ later) fc fs' w st known good sent in
      let accepted : All IsAccepted (availability ∷ counts ∷ later) = (
        tt,
        (
          tt,
          sent-IsAccepted policy attached earlier wakes signal user_id _ after received ends rest,
        ),
      ) in
      let (events, last, polled, read, drained, queued) =
        read_whole version client_codec codec fs (availability ∷ counts ∷ later) source.stream
          new_machine
          (subst
            (λ bytes.
              Yields version client_codec codec fs bytes (availability ∷ counts ∷ later)
                source.stream)
            (Sends-partial version client_codec codec fs sends done) yields)
          accepted in
      (
        source,
        connected,
        events,
        last,
        subst₂
            (λ m es.
              Polled version client_codec codec fs events
                (record source { sessions = m; pending = es }) last)
            (sym fresh) (sym empty) polled,
        read,
        drained,
        shown-consume events s v
            ∙ shown-Queues (shown s) queued
            ∙ seen_all version client_codec codec fs client user_id p wakes signal after received
                (shown s) a d ends rest,
        λ id.
            tracked-Queues s v new_machine-IsValid
              (λ j. none_tracked j ∙ sym (new_machine-present j)) queued id
            ∙ ap (present id) (
                sym (
                  observed_hello observer_schema_version version (availability ∷ counts ∷ later)
                    new_machine))
            ∙ ap (λ l. present id (observed l new_machine)) (sym sent),
      )
