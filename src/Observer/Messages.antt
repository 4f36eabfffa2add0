-- ===== src/Observer/Messages.antt =====
-- observer/src/main.rs and ipc.rs: the status that the observer shares, and the messages that it sends.
--
-- Messages that are sent are appended to a list.
use lensguard.Prelude.{ℕ, ◌+◌, min, List, [], ◌∷◌, ◌++◌, Option, none, some, Text, take}
use lensguard.Order.{nat_ord}
use lensguard.OrderedMap.{OrderedMap, get, insert}
use lensguard.Core.Capture.{
  CaptureOwner, ObserverAvailability, ObserverMessage, SuppressionDiagnostics,
}
use lensguard.Core.State.{no_suppression}
use lensguard.Daemon.Backoff.{u64_max}

-- A message with the user that it is for; none is for all.
pub record RoutedMessage : Type 0 where
  pub user_id : Option ℕ
  pub message : ObserverMessage

pub record SharedStatus : Type 0 where
  pub availability : ObserverAvailability × Text
  pub diagnostics : OrderedMap ℕ SuppressionDiagnostics
  pub messages : List RoutedMessage

abbrev pub send : Option ℕ → ObserverMessage → SharedStatus → SharedStatus
send user_id message shared = record shared {
  messages = shared.messages ++ record { user_id = user_id; message = message } ∷ [];
}

-- `set_availability`
unfoldable pub set_availability : ObserverAvailability → Text → SharedStatus → SharedStatus
set_availability availability detail shared =
    let bounded_detail = take 512 detail in
    send none (ObserverMessage.availability availability bounded_detail)
      (record shared { availability = (availability, bounded_detail) })

-- `u64::saturating_add(1)`
abbrev pub saturating_suc : ℕ → ℕ
saturating_suc n = min (n + 1) u64_max

-- The `match` on the owner.
abbrev pub count_suppressed : CaptureOwner → SuppressionDiagnostics → SuppressionDiagnostics
count_suppressed CaptureOwner.broker_owned d = record d {
  suppressed_broker_events = saturating_suc d.suppressed_broker_events;
}
count_suppressed _ d = record d {
  suppressed_unknown_events = saturating_suc d.suppressed_unknown_events;
}

-- `entry(user_id).or_default()`
abbrev pub diagnostics_of : ℕ → SharedStatus → SuppressionDiagnostics
diagnostics_of user_id shared = elim (get user_id shared.diagnostics) [
  | some d ↦ d
  | none ↦ no_suppression
]

-- `increment_suppression`
unfoldable pub increment_suppression : ℕ → CaptureOwner → SharedStatus → SharedStatus
increment_suppression user_id owner shared =
    let diagnostics = count_suppressed owner (diagnostics_of user_id shared) in
    send (some user_id) (ObserverMessage.diagnostics diagnostics)
      (record shared { diagnostics = insert user_id diagnostics shared.diagnostics })
