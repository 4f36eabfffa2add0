-- ===== src/Observer/Startup.antt =====
-- observer/src/main.rs: `main`, from the binding of the socket to the shutdown.
--
-- The outcomes of loading the policy, of attaching the kernel program and of waiting for the signal
-- are arguments; a failure is its text.
pub mod Availability
use lensguard.Prelude.{
  ℕ, Bool, true, false, ◌||◌, List, [], ◌∷◌, Option, none, some, Text, codes, Result, ok, err,
  if◌then◌else◌,
}
use lensguard.Io.{ErrorKind}
use lensguard.Strings.{to_ascii_lowercase, contains}
use lensguard.Core.Capture.{ObserverAvailability}
use lensguard.Observer.Messages.{SharedStatus, set_availability}
use lensguard.Observer.Policy.{TrustedBrokerPolicy}
use lensguard.Observer.Events.{Processor, Wake, process_kernel_events}

-- `classify_bpf_error`
unfoldable pub classify_bpf_error : Text → ObserverAvailability
classify_bpf_error text =
    let error = to_ascii_lowercase text in
    if contains (codes "lockdown") error || contains (codes "security") error
    then ObserverAvailability.blocked_by_policy
    else if contains (codes "operation not permitted") error
        || contains (codes "permission denied") error
    then ObserverAvailability.missing_capability
    else if contains (codes "tracepoint") error || contains (codes "not found") error
    then ObserverAvailability.unsupported_kernel
    else ObserverAvailability.connection_failed

abbrev pub new_status : SharedStatus
new_status = record {
  availability =
      (ObserverAvailability.connection_failed, codes "observer initialization is pending");
  diagnostics = [];
  messages = [];
}

-- The `match` on the policy.
abbrev pub load_policy : Result Text TrustedBrokerPolicy → SharedStatus → SharedStatus
load_policy (ok policy) shared = shared
load_policy (err error) shared =
    set_availability ObserverAvailability.blocked_by_policy error shared

abbrev pub is_ok {ℓ κ} : {E : Type ℓ} {A : Type κ} → Result E A → Bool
is_ok (ok _) = true
is_ok (err _) = false

-- The `match` on the kernel program.
abbrev pub attach_program : Bool → Result Text (Unit {0}) → SharedStatus → SharedStatus
attach_program has_policy (ok _) shared =
    if has_policy
    then set_availability ObserverAvailability.available (codes "direct V4L2 tracepoints attached")
        shared
    else shared
attach_program has_policy (err error) shared =
    set_availability (classify_bpf_error error) error shared

-- The status when the server and the processor are started.
unfoldable pub start_up : Result Text TrustedBrokerPolicy → Result Text (Unit {0}) → SharedStatus
start_up policy attached = attach_program (is_ok policy) attached (load_policy policy new_status)

abbrev pub processor : SharedStatus → Processor
processor shared = record { shared = shared; candidates = []; last_timestamp = 0 }

-- The status behind the signal.
abbrev pub shut_down :
    Result ErrorKind (Unit {0}) → SharedStatus → Result ErrorKind (Unit {0}) × SharedStatus
shut_down (err e) shared = (err e, shared)
shut_down (ok _) shared = (
  ok tt,
  set_availability ObserverAvailability.backend_lost (codes "observer is shutting down") shared,
)

-- `main`: nothing is started if the socket cannot be bound.
unfoldable pub run_observer :
    Result ErrorKind (Unit {0})
    → Result Text TrustedBrokerPolicy
    → Result Text (Unit {0})
    → List Wake
    → Result ErrorKind (Unit {0})
    → Result ErrorKind (Unit {0}) × SharedStatus
run_observer (err e) policy attached wakes signal = (err e, new_status)
run_observer (ok _) policy attached wakes signal =
    shut_down signal (process_kernel_events wakes (processor (start_up policy attached))).shared
