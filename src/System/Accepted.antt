-- ===== src/System/Accepted.antt =====
-- Whether the daemon accepts what the observer sends.
use lensguard.Prelude.{
  ℕ, zero, suc, ◌≡◌, List, [], ◌∷◌, map, Option, none, some, Text, ok, err, Result, drop, All,
  Bool-cases, inl, inr,
}
use lensguard.Io.{ErrorKind}
use lensguard.Core.Capture.{ObserverMessage}
use lensguard.Observer.Messages.{RoutedMessage, SharedStatus}
use lensguard.Observer.Policy.{TrustedBrokerPolicy}
use lensguard.Observer.Events.{Candidate, event, tick, Processor, Wake, process_kernel_events}
use lensguard.Observer.Events.Safety.{IsTold, AllTold, Informs, process_kernel_events-IsSafe}
use lensguard.Observer.Events.Provenance.{AllTold-set_availability, started-IsSafe}
use lensguard.Observer.Startup.{start_up, processor, shut_down}
use lensguard.Observer.Server.{routed}
use lensguard.Observer.Server.Frames.{is_meant, messages_for}
use lensguard.System.Reception.{IsAccepted}

-- Nothing is asked of the captures.
abbrev AnyCapture : ℕ → Candidate → Type 0
AnyCapture user_id c = Unit

AnyCapture-Informs : (wakes : List Wake) → All (Informs AnyCapture) wakes
AnyCapture-Informs [] = tt
AnyCapture-Informs (event raw lookups ∷ rest) = (λ c started built. tt, AnyCapture-Informs rest)
AnyCapture-Informs (tick exists ∷ rest) = (tt, AnyCapture-Informs rest)

IsTold-IsAccepted : (o : Option ℕ) (m : ObserverMessage) → IsTold AnyCapture o m → IsAccepted m
IsTold-IsAccepted none (ObserverMessage.availability a d) h = tt
IsTold-IsAccepted none (ObserverMessage.hello n t) h = h
IsTold-IsAccepted none (ObserverMessage.capture e) h = elim h [ ]
IsTold-IsAccepted none (ObserverMessage.diagnostics d) h = tt
IsTold-IsAccepted (some u) (ObserverMessage.availability a d) h = tt
IsTold-IsAccepted (some u) (ObserverMessage.hello n t) h = h
IsTold-IsAccepted (some u) (ObserverMessage.capture e) h = h.0
IsTold-IsAccepted (some u) (ObserverMessage.diagnostics d) h = tt

drop-AllTold :
    (n : ℕ) (l : List RoutedMessage) → AllTold AnyCapture l → AllTold AnyCapture (drop n l)
drop-AllTold zero l h = h
drop-AllTold (suc n) [] h = h
drop-AllTold (suc n) (m ∷ l) h = drop-AllTold n l h.1

messages_for-IsAccepted :
    (user_id : ℕ) (l : List RoutedMessage)
    → AllTold AnyCapture l
    → All IsAccepted (messages_for user_id (map routed l))
messages_for-IsAccepted user_id [] h = tt
messages_for-IsAccepted user_id (m ∷ l) h = elim (Bool-cases (is_meant user_id m.user_id)) [
  | inl mine ↦
      rw mine (IsTold-IsAccepted m.user_id m.message h.0, messages_for-IsAccepted user_id l h.1)
  | inr other ↦ rw other (messages_for-IsAccepted user_id l h.1)
]

AllTold-shut_down :
    (signal : Result ErrorKind (Unit {0})) (s : SharedStatus)
    → AllTold AnyCapture s.messages
    → AllTold AnyCapture (shut_down signal s).1.messages
AllTold-shut_down (err e) s h = h
AllTold-shut_down (ok _) s h = AllTold-set_availability AnyCapture _ _ s h

-- The observer's state after its start and some rounds of its loop.
abbrev pub running :
    Result Text TrustedBrokerPolicy → Result Text (Unit {0}) → List Wake → Processor
running policy attached wakes = process_kernel_events wakes (processor (start_up policy attached))

-- What the observer has sent behind a subscription, shutdown included, is accepted.
pub sent-IsAccepted :
    (policy : Result Text TrustedBrokerPolicy) (attached : Result Text (Unit {0}))
    (earlier wakes : List Wake) (signal : Result ErrorKind (Unit {0})) (user_id n : ℕ)
    (after : SharedStatus) (received : List RoutedMessage)
    → (shut_down signal (process_kernel_events wakes (running policy attached earlier)).shared).1
      ≡ after
    → drop n after.messages ≡ received
    → All IsAccepted (messages_for user_id (map routed received))
sent-IsAccepted policy attached earlier wakes signal user_id n after received ends rest =
    let running_safe =
      process_kernel_events-IsSafe AnyCapture wakes (running policy attached earlier)
        (AnyCapture-Informs wakes)
        (started-IsSafe AnyCapture policy attached earlier (AnyCapture-Informs earlier)) in
    let safe : AllTold AnyCapture after.messages = rw ends at (
      AllTold-shut_down signal
        (process_kernel_events wakes (running policy attached earlier)).shared running_safe.told) in
    messages_for-IsAccepted user_id received (rw rest at (drop-AllTold n after.messages safe))
