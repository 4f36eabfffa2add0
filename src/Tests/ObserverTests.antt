-- ===== src/Tests/ObserverTests.antt =====
-- The theorems on the observer at concrete events.
use mathlib.Core.Bool.{decide}
use lensguard.Prelude.{
  List, All, ℕ_discrete, len_utf8, byte_len, text_eq, any, ◌≡◌, refl, Bool, true, false, [], ◌∷◌,
  some, ok, codes, pos, Text, arith,
}
use lensguard.OrderedMap.{get}
use lensguard.Core.Capture.{
  CaptureOwner, DirectCaptureOperation, ObserverAvailability, validate, confirmed_result,
  expected_confidence, has_long_field, text_fields,
}
use lensguard.Observer.Bpf.{KernelEvent, KernelOperation, little, parse_kernel_event}
use lensguard.Observer.Bpf.Layout.{layout, FitsWords, parse_kernel_event-layout}
use lensguard.Paths.{FilePath, Component, OsString, file_name, path_eq}
use lensguard.Observer.Policy.{
  TrustedBrokerPolicy, classify_executable_with, listed_owner, resembles_broker,
}
use lensguard.Observer.Policy.Owners.{IsUnrelated, classify_executable_with-IsUnrelated}
use lensguard.Observer.Events.{
  Wake, Candidate, Lookups, Processor, event, tick, handle, build_candidate, candidate_key_ord,
  candidate_key_of, event_of, process_kernel_events,
}
use lensguard.Observer.Events.Safety.{IsTold}
use lensguard.Observer.Events.Provenance.{IsStarted, process_kernel_events-IsTold}
use lensguard.Observer.Messages.{RoutedMessage}
use lensguard.Observer.Startup.{start_up, processor}
use lensguard.Observer.Events.Candidates.{candidate_after, get-handle}
use lensguard.Tests.Samples.{camera}

abbrev pub raw : KernelEvent
raw = record {
  timestamp_ns = 100;
  process_id = 42;
  thread_group_id = 42;
  user_id = 1000;
  file_descriptor = pos 3;
  operation = KernelOperation.stream_started;
  result = pos 0;
}

raw-FitsWords : FitsWords raw
raw-FitsWords = record {
  timestamp = omega arith;
  process = omega arith;
  group = omega arith;
  user = omega arith;
  descriptor = omega arith;
  result = omega arith;
}

parse_kernel_event-layout_example : parse_kernel_event little (layout little 1000 raw) ≡ some raw
parse_kernel_event-layout_example =
    parse_kernel_event-layout 1000 raw little (omega arith) raw-FitsWords

abbrev in_bin : Text → FilePath
in_bin name =
    Component.root_dir
    ∷ Component.normal (OsString.unicode (codes "bin"))
    ∷ Component.normal (OsString.unicode name)
    ∷ []

abbrev policy : TrustedBrokerPolicy
policy = record {
  schema_version = 1;
  brokers = record { id = codes "broker"; executable_paths = in_bin (codes "pw") ∷ [] } ∷ [];
}

abbrev trusting : FilePath → Bool
trusting path = true

plain-direct : classify_executable_with policy (in_bin (codes "ch")) trusting ≡ CaptureOwner.direct
unfolding classify_executable_with listed_owner resembles_broker file_name path_eq any text_eq
    decide ℕ_discrete
plain-direct = refl

classify_executable_with-IsUnrelated_example : IsUnrelated policy (in_bin (codes "ch"))
classify_executable_with-IsUnrelated_example =
    classify_executable_with-IsUnrelated policy (in_bin (codes "ch")) trusting plain-direct

abbrev lookups : Lookups
lookups = record { start_time = some 7; camera = some camera; owner = some CaptureOwner.direct }

abbrev pub idle : Processor
idle = record {
  shared = record {
    availability = (ObserverAvailability.available, []);
    diagnostics = [];
    messages = [];
  };
  candidates = [];
  last_timestamp = 0;
}

abbrev unplugged : Text → Bool
unplugged path = false

abbrev wakes : List Wake
wakes = event raw lookups ∷ tick unplugged ∷ []

process_kernel_events-IsTold_example :
    All
      (λ (m : RoutedMessage). IsTold (IsStarted wakes) m.user_id m.message)
      (process_kernel_events wakes (processor (start_up (ok policy) (ok tt)))).shared.messages
process_kernel_events-IsTold_example = process_kernel_events-IsTold (ok policy) (ok tt) wakes

get-handle_example :
    get (candidate_key_of raw) (handle KernelOperation.stream_started raw lookups idle).candidates
    ≡ candidate_after KernelOperation.stream_started raw
        (build_candidate raw lookups)
        (candidate_key_of raw)
        (get (candidate_key_of raw) idle.candidates)
get-handle_example =
    get-handle KernelOperation.stream_started raw lookups idle (candidate_key_of raw) tt

abbrev candidate : Candidate
candidate = record {
  process_id = 42;
  thread_group_id = 42;
  process_start_time_ticks = 7;
  file_descriptor = pos 3;
  device = camera;
  owner = CaptureOwner.direct;
}

accepted : validate (event_of candidate DirectCaptureOperation.stream_started 100 (pos 0)) ≡ ok tt
unfolding validate confirmed_result expected_confidence has_long_field text_fields any byte_len
    len_utf8
accepted = refl
