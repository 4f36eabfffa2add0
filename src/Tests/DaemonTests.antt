-- ===== src/Tests/DaemonTests.antt =====
-- The theorems on the daemon at concrete events and bytes.
use lensguard.OrderedMap.{get}
use lensguard.OrderedMap.AnyValue.{any_value}
use lensguard.Core.Session.Identity.{session_of}
use lensguard.Core.Machine
use lensguard.Core.Capture.{
  validate, confirmed_result, expected_confidence, has_long_field, text_fields,
}
use lensguard.Prelude.{
  any, byte_len, len_utf8, ◌==◌, ◌<◌, ◌+◌, ℕ, ◌≡◌, refl, Bool, true, false, List, [], ◌∷◌, ◌++◌,
  none, some, ok, err, arith, codes, map, if◌then◌else◌, Option, length,
}
use lensguard.Core.Model.{ApplicationIdentity}
use lensguard.Core.Capture.{ObserverAvailability, ObserverMessage}
use lensguard.Core.State.{
  MonitorEvent, session_started, session_stopped, observer_availability_changed, snapshot,
  new_state, MonitorState,
}
use lensguard.Core.State
use lensguard.Resolver.Request.{ResolutionRequest}
use lensguard.Daemon.Application.{
  Lookup, in_time, late, Leftover, runs_on, exits, Worker, Pipeline, reduce_and_reconcile,
  run_application,
}
use lensguard.Daemon.Application.Publication.{replay, InStep, run_application-InStep}
use lensguard.Daemon.Application.Reconcile.{stop_of, reduce_and_reconcile_unavailable}
use lensguard.Daemon.Application.Resolution.{run_application-ok, resolved_all, IsCalm}
use lensguard.Io.{timed_out}
use lensguard.Daemon.Wire.{Codec, IsFaithful, write_message, read_message, io, to_be_bytes}
use lensguard.Io.{timed_out}
use lensguard.Daemon.Wire.RoundTrip.{read-write_message}
use lensguard.Io.{timed_out}
use lensguard.Daemon.Wire.Partial.{read_message-partial}
use lensguard.Daemon.Source.{ObserverEventSource, translate, message_events}
use lensguard.Daemon.Source.Mirror.{consume, Mirrors, translate-Mirrors}
use lensguard.Tests.Samples.{stop, session, streaming, watching}
use lensguard.Tests.CoreTests.{streaming-IsValid, watching-IsValid}

-- A resolver that counts its lookups.
abbrev pub counting : ResolutionRequest → ℕ → ApplicationIdentity × ℕ
counting request n = (
  record {
    pid = request.pid;
    app_id = request.app_id;
    display_name = codes "Camera";
    binary = request.binary;
  },
  n + 1,
)

abbrev pub idle : Worker ℕ
idle = record { resolver = 0; busy = false; poisoned = false }

abbrev pub pipeline : Pipeline ℕ
pipeline = record { worker = idle; state = new_state; published = []; room = none }

abbrev pub steps : List (Leftover × Lookup × MonitorEvent)
steps = (runs_on, late, session_started session) ∷ (exits, in_time, session_stopped session.id) ∷ []

pub steps-IsCalm : IsCalm counting steps
steps-IsCalm = ((λ h. cc, λ h. cc), ((λ h. cc, λ h. cc), tt))

run_application-ok_example :
    ((run_application counting steps pipeline).0 ≡ ok tt)
    × ((run_application counting steps pipeline).1.state
        ≡ consume (resolved_all counting steps pipeline.worker) pipeline.state)
run_application-ok_example = run_application-ok counting steps pipeline steps-IsCalm (refl, refl)

pipeline-InStep : InStep new_state pipeline
unfolding replay
pipeline-InStep = refl

run_application-InStep_example : InStep new_state (run_application counting steps pipeline).1
run_application-InStep_example =
    run_application-InStep counting steps new_state pipeline pipeline-InStep
      (run_application-ok counting steps pipeline steps-IsCalm (refl, refl)).0

abbrev lost : MonitorEvent
lost = observer_availability_changed ObserverAvailability.backend_lost (codes "lost")

reduce_and_reconcile_unavailable_example :
    ((reduce_and_reconcile lost watching).0 ≡ record watching {
      active_sessions = [];
      observer_availability = ObserverAvailability.backend_lost;
      observer_status_detail = codes "lost";
    })
    × ((reduce_and_reconcile lost watching).1
        ≡ map stop_of (snapshot watching).active_sessions
          ++ (if (State.apply lost watching).1 then lost ∷ [] else []))
reduce_and_reconcile_unavailable_example =
    reduce_and_reconcile_unavailable ObserverAvailability.backend_lost (codes "lost") watching
      watching-IsValid refl

some_injective : {a b : List ℕ} → ◌≡◌ {A = Option (List ℕ)} (some a) (some b) → a ≡ b
some_injective h = cc

-- A codec for the messages `true` and `false`, one digit each.
abbrev bool_to_vec : Bool → Option (List ℕ)
bool_to_vec b = some ((if b then 49 else 48) ∷ [])

abbrev bool_from_slice : List ℕ → Option Bool
bool_from_slice (c ∷ []) = if c == 49 then some true else if c == 48 then some false else none
bool_from_slice _ = none

abbrev bool_codec : Codec Bool
bool_codec = record { to_vec = bool_to_vec; from_slice = bool_from_slice }

bool_reads_back :
    (b : Bool) (payload : List ℕ) → bool_to_vec b ≡ some payload → bool_from_slice payload ≡ some b
bool_reads_back true payload h = rw (← some_injective h) refl
bool_reads_back false payload h = rw (← some_injective h) refl

bool_not_blank : (b : Bool) (payload : List ℕ) → bool_to_vec b ≡ some payload → 0 < length payload
bool_not_blank true payload h = rw (← some_injective h) (omega arith)
bool_not_blank false payload h = rw (← some_injective h) (omega arith)

bool_codec-IsFaithful : IsFaithful bool_codec
bool_codec-IsFaithful = record { reads_back = bool_reads_back; not_blank = bool_not_blank }

written : write_message bool_codec true ≡ ok (0 ∷ 0 ∷ 0 ∷ 1 ∷ 49 ∷ [])
unfolding write_message to_be_bytes
written = refl

read-write_message_example :
    read_message bool_codec
      (record { arrived = (0 ∷ 0 ∷ 0 ∷ 1 ∷ 49 ∷ []) ++ 0 ∷ []; blocked = timed_out })
    ≡ (ok true, record { arrived = 0 ∷ []; blocked = timed_out })
read-write_message_example =
    read-write_message bool_codec true (0 ∷ 0 ∷ 0 ∷ 1 ∷ 49 ∷ []) (0 ∷ []) timed_out
      bool_codec-IsFaithful written

header : to_be_bytes 1 ++ 49 ∷ [] ≡ (0 ∷ 0 ∷ []) ++ 0 ∷ 1 ∷ 49 ∷ []
unfolding to_be_bytes
header = refl

read_message-partial_example :
    read_message bool_codec (record { arrived = 0 ∷ 0 ∷ []; blocked = timed_out })
    ≡ (err (io timed_out), record { arrived = []; blocked = timed_out })
read_message-partial_example =
    read_message-partial bool_codec (49 ∷ []) (0 ∷ 0 ∷ []) (0 ∷ 1 ∷ 49 ∷ []) timed_out (omega arith)
      (omega arith) header (omega arith)

abbrev source : ObserverEventSource
source = record {
  stream = record { arrived = []; blocked = timed_out };
  sessions = streaming;
  pending = [];
}

source-Mirrors : Mirrors source watching
unfolding consume get any_value
source-Mirrors id = ground arith

accepted : (translate (ObserverMessage.capture stop) source).0 ≡ ok tt
unfolding translate message_events Machine.apply Machine.apply_operation Machine.end_one get
    session_of validate confirmed_result expected_confidence has_long_field text_fields any byte_len
    len_utf8
accepted = refl

translate-Mirrors_example : Mirrors (translate (ObserverMessage.capture stop) source).1 watching
translate-Mirrors_example =
    translate-Mirrors (ObserverMessage.capture stop) source watching streaming-IsValid
      watching-IsValid source-Mirrors accepted
