-- ===== src/Observer/Events.antt =====
-- observer/src/main.rs: from the kernel's events to the messages of the daemons' users.
--
-- What the file system says of a process and of a device is an argument: the answers of
-- `identity::process_start_time_ticks`, `identity::physical_camera` and `classify_process` for an
-- event, and whether a device path exists.
pub mod Safety
pub mod Provenance
pub mod Candidates
use lensguard.Prelude.{
  ℕ, zero, suc, ◌+◌, min, max, Bool, true, false, not, ◌&&◌, ◌||◌, List, [], ◌∷◌, ◌++◌, map, Option,
  none, some, ℤ, pos, negsuc, Text, codes, take, filter, any, ◌==◌, if◌then◌else◌, Result, ok, err,
  ◌≡◌, arith,
}
use lensguard.Order.{Ord, ord_by, nat_ord, int_ord, pair_ord}
use lensguard.OrderedMap.{OrderedMap, get, insert, remove, keys}
use lensguard.OrderedMap.Removal.{take_each, entries_where}
use lensguard.Core.Capture.{
  CaptureOwner, CaptureConfidence, DirectCaptureEvent, DirectCaptureOperation, PhysicalCameraId,
  ObserverAvailability, ObserverMessage, SuppressionDiagnostics, observer_schema_version, is_direct,
  validate,
}
use lensguard.Core.State.{no_suppression}
use lensguard.Daemon.Backoff.{u64_max}
use lensguard.Observer.Messages.{
  RoutedMessage, SharedStatus, send, saturating_suc, increment_suppression,
}
use lensguard.Observer.Bpf.{KernelEvent, KernelOperation}

pub record Candidate : Type 0 where
  pub process_id : ℕ
  pub thread_group_id : ℕ
  pub process_start_time_ticks : ℕ
  pub file_descriptor : ℤ
  pub device : PhysicalCameraId
  pub owner : CaptureOwner

pub record CandidateKey : Type 0 where
  pub user_id : ℕ
  pub thread_group_id : ℕ
  pub file_descriptor : ℤ

abbrev pub candidate_fields : CandidateKey → ℕ × (ℕ × ℤ)
candidate_fields k = (k.user_id, (k.thread_group_id, k.file_descriptor))

pub CandidateKey-eq : (a b : CandidateKey) → candidate_fields a ≡ candidate_fields b → a ≡ b
CandidateKey-eq a b e = ground arith

-- `derive(Ord)`
instance abbrev pub candidate_key_ord : Ord CandidateKey
candidate_key_ord = ord_by pair_ord candidate_fields CandidateKey-eq

abbrev pub descriptor_of : DirectCaptureOperation → Candidate → ℤ
descriptor_of DirectCaptureOperation.process_exited candidate = negsuc 0
descriptor_of _ candidate = candidate.file_descriptor

-- The event that `publish_candidate` builds.
abbrev pub event_of : Candidate → DirectCaptureOperation → ℕ → ℤ → DirectCaptureEvent
event_of candidate operation timestamp result = record {
  schema_version = observer_schema_version;
  timestamp_monotonic_ns = timestamp;
  process_id = candidate.process_id;
  thread_group_id = candidate.thread_group_id;
  process_start_time_ticks = candidate.process_start_time_ticks;
  file_descriptor = descriptor_of operation candidate;
  device = candidate.device;
  operation = operation;
  result = result;
  confidence = CaptureConfidence.confirmed;
  owner = CaptureOwner.direct;
}

abbrev pub send_valid : ℕ → DirectCaptureEvent → SharedStatus → SharedStatus
send_valid user_id event shared = elim (validate event) [
  | ok _ ↦ send (some user_id) (ObserverMessage.capture event) shared
  | err _ ↦ shared
]

-- `publish_candidate`
unfoldable pub publish_candidate :
    ℕ → Candidate → DirectCaptureOperation → ℕ → ℤ → SharedStatus → SharedStatus
unfolding increment_suppression
publish_candidate user_id candidate operation timestamp result shared =
    if is_direct candidate.owner
    then send_valid user_id (event_of candidate operation timestamp result) shared
    else increment_suppression user_id candidate.owner shared

-- What the file system says of the process and the descriptor of an event; no owner without a
-- policy.
pub record Lookups : Type 0 where
  pub start_time : Option ℕ
  pub camera : Option PhysicalCameraId
  pub owner : Option CaptureOwner

abbrev owner_of : Option CaptureOwner → CaptureOwner
owner_of none = CaptureOwner.unknown
owner_of (some owner) = owner

-- `build_candidate`
unfoldable pub build_candidate : KernelEvent → Lookups → Option Candidate
build_candidate raw lookups = elim lookups.start_time [
  | none ↦ none
  | some ticks ↦ elim lookups.camera [
    | none ↦ none
    | some device ↦ some (record {
      process_id = raw.process_id;
      thread_group_id = raw.thread_group_id;
      process_start_time_ticks = ticks;
      file_descriptor = raw.file_descriptor;
      device = device;
      owner = owner_of lookups.owner;
    })
  ]
]

-- The state of `process_kernel_events`.
pub record Processor : Type 0 where
  pub shared : SharedStatus
  pub candidates : OrderedMap CandidateKey Candidate
  pub last_timestamp : ℕ

abbrev pub candidate_key_of : KernelEvent → CandidateKey
candidate_key_of raw = record {
  user_id = raw.user_id;
  thread_group_id = raw.thread_group_id;
  file_descriptor = raw.file_descriptor;
}

-- `StreamStarted`
unfoldable pub start_candidate : KernelEvent → Option Candidate → Processor → Processor
start_candidate raw none p = record p {
  shared = increment_suppression raw.user_id CaptureOwner.unknown p.shared;
}
start_candidate raw (some candidate) p = record p {
  shared =
      publish_candidate raw.user_id candidate DirectCaptureOperation.stream_started raw.timestamp_ns
        raw.result p.shared;
  candidates = insert (candidate_key_of raw) candidate p.candidates;
}

-- `StreamStopped` and `DeviceClosed`
unfoldable pub stop_candidate : KernelEvent → DirectCaptureOperation → Processor → Processor
stop_candidate raw operation p = elim (get (candidate_key_of raw) p.candidates) [
  | none ↦ p
  | some candidate ↦ record p {
    shared = publish_candidate raw.user_id candidate operation raw.timestamp_ns raw.result p.shared;
    candidates = remove (candidate_key_of raw) p.candidates;
  }
]

-- Publishes one operation for each entry that was removed.
unfoldable pub publish_each :
    List (CandidateKey × Candidate) → DirectCaptureOperation → ℕ → ℤ → SharedStatus → SharedStatus
publish_each [] operation timestamp result shared = shared
publish_each ((key, candidate) ∷ rest) operation timestamp result shared =
    publish_each rest operation timestamp result
      (publish_candidate key.user_id candidate operation timestamp result shared)

abbrev pub of_process : KernelEvent → CandidateKey → Bool
of_process raw key = key.user_id == raw.user_id && key.thread_group_id == raw.thread_group_id

-- `ProcessExited`: the keys that are collected have the event's user.
unfoldable pub exit_process : KernelEvent → Processor → Processor
exit_process raw p =
    let (left, removed) = take_each (filter (of_process raw) (keys p.candidates)) p.candidates in
    record p {
      shared =
          publish_each removed DirectCaptureOperation.process_exited raw.timestamp_ns raw.result
            p.shared;
      candidates = left;
    }

abbrev is_missing : (Text → Bool) → Option Text → Bool
is_missing exists none = false
is_missing exists (some path) = not (exists path)

abbrev pub device_missing : (Text → Bool) → Candidate → Bool
device_missing exists candidate = is_missing exists candidate.device.udev_syspath

-- The keys of the candidates whose device is gone.
unfoldable pub missing_keys : (Text → Bool) → OrderedMap CandidateKey Candidate → List CandidateKey
missing_keys exists [] = []
missing_keys exists ((key, candidate) ∷ rest) =
    let later = missing_keys exists rest in
    if device_missing exists candidate then key ∷ later else later

-- `remove_missing_devices`
unfoldable pub remove_missing_devices : (Text → Bool) → ℕ → Processor → Processor
remove_missing_devices exists timestamp p =
    let (left, removed) = take_each (missing_keys exists p.candidates) p.candidates in
    record p {
      shared =
          publish_each removed DirectCaptureOperation.device_removed timestamp (pos 0) p.shared;
      candidates = left;
    }

abbrev pub handle : KernelOperation → KernelEvent → Lookups → Processor → Processor
handle KernelOperation.stream_started raw lookups p =
    start_candidate raw (build_candidate raw lookups) p
handle KernelOperation.stream_stopped raw lookups p =
    stop_candidate raw DirectCaptureOperation.stream_stopped p
handle KernelOperation.device_closed raw lookups p =
    stop_candidate raw DirectCaptureOperation.device_closed p
handle KernelOperation.process_exited raw lookups p = exit_process raw p

-- What wakes the loop: an event of the kernel, or the timer.
pub data Wake : Type 0 where
  event : KernelEvent → Lookups → Wake
  tick : (Text → Bool) → Wake

-- One round of `process_kernel_events`.
unfoldable pub wake : Wake → Processor → Processor
wake (event raw lookups) p =
    handle raw.operation raw lookups
      (record p { last_timestamp = max p.last_timestamp raw.timestamp_ns })
wake (tick exists) p = remove_missing_devices exists (saturating_suc p.last_timestamp) p

-- `process_kernel_events`
unfoldable pub process_kernel_events : List Wake → Processor → Processor
process_kernel_events [] p = p
process_kernel_events (w ∷ rest) p = process_kernel_events rest (wake w p)
