-- ===== src/Daemon/Backend.antt =====
-- daemon/src/backend.rs: the supervisor that connects, polls and reconnects.
--
-- The factory is a parameter: what a poll gives, the event on a connection, the event on a failure
-- and an error's text. A round of the supervisor takes what it meets as an argument: the shutdown
-- flag, the factory's connection, the input of the poll, and how the send fares.
pub mod Polls
pub mod Observed
pub mod Agreement
pub mod Reconnect
use lensguard.Prelude.{
  ℕ, ◌+◌, ◌≤◌, min, Bool, true, false, List, [], ◌∷◌, ◌++◌, Option, none, some, Result, ok, err,
  Text, codes, take, if◌then◌else◌,
}
use lensguard.Core.Capture.{ObserverAvailability}
use lensguard.Core.State.{MonitorEvent, observer_availability_changed}
use lensguard.Daemon.Wire.{u32_max}
use lensguard.Daemon.Backoff.{BackoffPolicy, delay}

abbrev pub max_failure_text_chars : ℕ
max_failure_text_chars = 512

pub data SupervisorExit : Type 0 where
  shutdown consumer_closed : SupervisorExit

-- `bounded_failure_text`
unfoldable pub bounded_failure_text : Text → Text
bounded_failure_text value = take max_failure_text_chars value

-- How a send fares: the event is taken, the flag was already set, or the consumer is gone, with
-- the flag that is read afterwards.
pub data Sending : Type 0 where
  delivered shut_down : Sending
  closed : Bool → Sending

-- `send` and `send_failure_exit`: none when the event was taken.
abbrev pub send : Sending → Option SupervisorExit
send delivered = none
send shut_down = some shutdown
send (closed flag) = if flag then some shutdown else some consumer_closed

-- What one round meets.
pub record Round {ℓ} (S E I : Type ℓ) : Type ℓ where
  pub shutdown_now : Bool
  pub connection : Result E S
  pub input : I
  pub sending : Sending
  pub shutdown_while_waiting : Bool

pub record Supervisor {ℓ} (S : Type ℓ) : Type ℓ where
  pub source : Option S
  pub attempt : ℕ
  pub sent : List MonitorEvent
  pub delays : List ℕ

abbrev pub new_supervisor {ℓ} : {S : Type ℓ} → Supervisor S
new_supervisor = record { source = none; attempt = 0; sent = []; delays = [] }

abbrev pub disconnected : Text → MonitorEvent
disconnected reason =
    observer_availability_changed ObserverAvailability.backend_lost
      (codes "V4L2 observer disconnected: " ++ bounded_failure_text reason)

module _ {ℓ} {S E I : Type ℓ} (next : I → S → Result E (Option MonitorEvent) × S)
    (connected_event : Option MonitorEvent) (unavailable_event : E → MonitorEvent)
    (error_text : E → Text) (backoff : BackoffPolicy) where
  abbrev pub Stepped : Type ℓ
  Stepped = Option SupervisorExit × Supervisor S

  -- Sends an event; goes on only if it was taken.
  abbrev pub send_then :
      Round S E I → MonitorEvent → Supervisor S → (Supervisor S → Stepped) → Stepped
  send_then round event s continue = elim (send round.sending) [
    | none ↦ continue (record s { sent = s.sent ++ event ∷ [] })
    | some exit ↦ (some exit, s)
  ]

  -- Waits for the delay of the attempt, then tries again without a source.
  abbrev pub wait : Round S E I → Supervisor S → Stepped
  wait round s = (
    if round.shutdown_while_waiting then some shutdown else none,
    record s {
      source = none;
      attempt = min (s.attempt + 1) u32_max;
      delays = s.delays ++ delay backoff s.attempt ∷ [];
    },
  )

  abbrev pub connected : Round S E I → S → Supervisor S → Stepped
  connected round source s = elim connected_event [
    | none ↦ (none, record s { source = some source; attempt = 0 })
    | some event ↦
        send_then round event (record s { attempt = 0 })
          (λ s'. (none, record s' { source = some source }))
  ]

  unfoldable pub connect_round : Round S E I → Supervisor S → Stepped
  connect_round round s = elim round.connection [
    | ok source ↦ connected round source s
    | err error ↦ send_then round (unavailable_event error) s (wait round)
  ]

  abbrev pub polled : Round S E I → Supervisor S → Result E (Option MonitorEvent) × S → Stepped
  polled round s (ok none, source) = (none, record s { source = some source })
  polled round s (ok (some event), source) =
      send_then round event (record s { source = some source }) (λ s'. (none, s'))
  polled round s (err error, source) =
      send_then round (disconnected (error_text error)) (record s { source = some source })
        (wait round)

  -- One round of either loop.
  unfoldable pub step : Round S E I → Supervisor S → Stepped
  unfolding connect_round
  step round s = if round.shutdown_now then (some shutdown, s) else elim s.source [
    | none ↦ connect_round round s
    | some source ↦ polled round s (next round.input source)
  ]

  -- `run_backend_supervisor`: none while the rounds that are given have not ended it.
  unfoldable pub run_backend_supervisor : List (Round S E I) → Supervisor S → Stepped
  run_backend_supervisor [] s = (none, s)
  run_backend_supervisor (round ∷ rest) s =
      let (exit, s') = step round s in
      elim exit [ some e ↦ (some e, s') | none ↦ run_backend_supervisor rest s' ]
