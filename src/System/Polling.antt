-- ===== src/System/Polling.antt =====
-- The polls of the daemon on one connection.
use lensguard.Prelude.{◌≡◌, refl, List, [], ◌∷◌, ◌++◌, Option, none, some, Result, ok, All, Text}
use lensguard.Io.{FileSystem}
use lensguard.Core.Capture.{ObserverMessage, ObserverClientMessage}
use lensguard.Core.Machine.{V4l2SessionMachine}
use lensguard.Core.State.{MonitorEvent}
use lensguard.Daemon.Wire.{Codec, Stream, ObserverError, read_message}
use lensguard.Daemon.Source.{
  ObserverEventSource, message_events, translate, next_event_timeout, pop_front,
}
use lensguard.Observer.Server.Delivery.{Yields}
use lensguard.System.Effects.{Queues, done, more}
use lensguard.Observer.Server.Told.{nothing_known}
use lensguard.System.Reception.{IsAccepted, message_events-accepts}

module _ (version : Text) (client_codec : Codec ObserverClientMessage)
    (codec : Codec ObserverMessage) (fs : FileSystem) where
  -- One poll of `next_event_timeout`, whose timeout can be set.
  abbrev poll :
      ObserverEventSource → Result ObserverError (Option MonitorEvent) × ObserverEventSource
  poll source = next_event_timeout version client_codec codec (ok tt) source

  -- Polls without an error, with the events that they give.
  pub data Polled : List MonitorEvent → ObserverEventSource → ObserverEventSource → Type 0 where
    idle : {source : ObserverEventSource} → Polled [] source source
    given :
        {event : MonitorEvent} {events : List MonitorEvent} {a b c : ObserverEventSource}
        → poll a ≡ (ok (some event), b)
        → Polled events b c
        → Polled (event ∷ events) a c
    nothing :
        {events : List MonitorEvent} {a b c : ObserverEventSource}
        → poll a ≡ (ok none, b)
        → Polled events b c
        → Polled events a c

  then_polled :
      {xs ys : List MonitorEvent} {a b c : ObserverEventSource}
      → Polled xs a b
      → Polled ys b c
      → Polled (xs ++ ys) a c
  then_polled idle k = k
  then_polled (given e h) k = given e (then_polled h k)
  then_polled (nothing e h) k = nothing e (then_polled h k)

  -- What is queued is given, event by event.
  drained :
      (es : List MonitorEvent) (stream : Stream) (m : V4l2SessionMachine)
      → Polled es
          (record { stream = stream; sessions = m; pending = es })
          (record { stream = stream; sessions = m; pending = [] })
  unfolding next_event_timeout
  drained [] stream m = idle
  drained (e ∷ es) stream m = given refl (drained es stream m)

  -- A message that can be read, and the events that it queues.
  received :
      (message : ObserverMessage) (es : List MonitorEvent) (stream later : Stream)
      (m : V4l2SessionMachine)
      → read_message codec stream ≡ (ok message, later)
      → (message_events message m).0 ≡ ok es
      → Polled es
          (record { stream = stream; sessions = m; pending = [] })
          (record { stream = later; sessions = (message_events message m).1; pending = [] })
  unfolding next_event_timeout translate pop_front
  received message [] stream later m r h = nothing (rw (r, h)) idle
  received message (e ∷ es) stream later m r h =
      given (rw (r, h)) (drained es later (message_events message m).1)

  -- All that can be read is accepted, and the polls give the events that it queues.
  pub read_whole :
      (ms : List ObserverMessage) (stream : Stream) (m : V4l2SessionMachine)
      → Yields version client_codec codec fs [] ms stream
      → All IsAccepted ms
      → (events : List MonitorEvent) × (last : ObserverEventSource) × Polled events
          (record { stream = stream; sessions = m; pending = [] })
          last
        × (last.stream.arrived ≡ [])
        × (last.pending ≡ [])
        × Queues ms m events
  read_whole [] stream m y h =
      ([], record { stream = stream; sessions = m; pending = [] }, idle, y, refl, done)
  read_whole (message ∷ ms) stream m (later, r, y) h =
      let (es, good, shows) = message_events-accepts message m nothing_known h.0 in
      let (events, last, polled, end, empty, queued) =
        read_whole ms later (message_events message m).1 y h.1 in
      (
        es ++ events,
        last,
        then_polled (received message es stream later m r good) polled,
        end,
        empty,
        more message m es h.0 good queued,
      )
