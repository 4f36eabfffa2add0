-- ===== src/System/Effects.antt =====
-- What a run of accepted messages makes of the daemon's machine and of its state.
use lensguard.OrderedMap.AnyValue.{any_value}
use lensguard.Prelude.{
  ℕ, Text, false, sym, ◌≡◌, refl, ap, ◌∙◌, List, [], ◌∷◌, ◌++◌, ok, ok_injective,
}
use lensguard.Core.Model.{SessionId}
use lensguard.Core.Capture.{ObserverMessage}
use lensguard.Core.Machine.{
  new_machine, capture_key_ord, start_or_touch, apply_operation, key_of, V4l2SessionMachine,
  CaptureTransition, no_transition, started, ended, ended_many, backend_lost,
}
use lensguard.Core.Machine
use lensguard.Core.State.{MonitorEvent, MonitorState}
use lensguard.Core.Machine
use lensguard.Core.Machine.Invariant
use lensguard.Core.State.Invariant.{IsValid}
use lensguard.Daemon.Source.{message_events}
use lensguard.Daemon.Source.Mirror.{
  consume, consume-append, consume-IsValid, tracked, message-tracked,
}
use lensguard.Daemon.Backend.Polls.{message_events-IsValid}
use lensguard.Core.Machine.Presence.{present}
use lensguard.Observer.Server.Told.{View, see_all}
use lensguard.System.Reception.{show_events, show_events-append, IsAccepted, message_events-accepts}

-- What messages make of the session machine.
abbrev pub observed : List ObserverMessage → V4l2SessionMachine → V4l2SessionMachine
observed [] m = m
observed (message ∷ rest) m = observed rest (message_events message m).1

-- A greeting leaves the machine alone.
pub observed_hello :
    (n : ℕ) (t : Text) (rest : List ObserverMessage) (m : V4l2SessionMachine)
    → observed (ObserverMessage.hello n t ∷ rest) m ≡ observed rest m
unfolding message_events
observed_hello n t rest m = refl

pub new_machine-present : (id : SessionId) → present id new_machine ≡ false
unfolding any_value
new_machine-present id = refl

-- The events that accepted messages queue, one message after the other.
pub data Queues : List ObserverMessage → V4l2SessionMachine → List MonitorEvent → Type 0 where
  done : {m : V4l2SessionMachine} → Queues [] m []
  more :
      (message : ObserverMessage) {rest : List ObserverMessage} (m : V4l2SessionMachine)
      (es : List MonitorEvent) {events : List MonitorEvent}
      → IsAccepted message
      → (message_events message m).0 ≡ ok es
      → Queues rest (message_events message m).1 events
      → Queues (message ∷ rest) m (es ++ events)

-- The events show what the messages say.
pub shown-Queues :
    {ms : List ObserverMessage} {m : V4l2SessionMachine} {events : List MonitorEvent} (v : View)
    → Queues ms m events
    → show_events events v ≡ see_all ms v
shown-Queues v done = refl
shown-Queues v (more message {rest} m es {events} h good k) =
    let (fs, same, shows) = message_events-accepts message m v h in
    let e : es ≡ fs = ok_injective (sym good ∙ same) in
    show_events-append es events v
    ∙ shown-Queues (show_events es v) k
    ∙ ap (see_all rest) (ap (λ l. show_events l v) e ∙ shows)

-- The state that reduces the events tracks the sessions of the machine.
pub tracked-Queues :
    {ms : List ObserverMessage} {m : V4l2SessionMachine} {events : List MonitorEvent}
    (s : MonitorState)
    → IsValid s
    → Machine.Invariant.IsValid m
    → ((id : SessionId) → tracked id s ≡ present id m)
    → Queues ms m events
    → (id : SessionId) → tracked id (consume events s) ≡ present id (observed ms m)
unfolding consume
tracked-Queues s v mv same done id = same id
tracked-Queues s v mv same (more message m es {events} h good k) id =
    rw (consume-append es events s) (
      tracked-Queues (consume es s) (consume-IsValid es s v) (message_events-IsValid message m mv)
        (λ j. message-tracked message m s j es mv v (same j) good) k id)
