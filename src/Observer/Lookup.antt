-- ===== src/Observer/Lookup.antt =====
-- observer/src/main.rs, `build_candidate`, and policy.rs: what the observer looks up of a process
-- and its camera, from a file system.
use lensguard.Prelude.{
  ℕ, ◌≡◌, ◌≢◌, sym, ap, ◌∙◌, All, List, [], ◌∷◌, Bool, Option-cases, inl, inr, ◌++◌, Option, none,
  some, Text, codes, Result, err, map_err, ◌>>=◌,
}
use lensguard.Io.{FileSystem, ErrorKind, ok_value, is_owned_file}
use lensguard.Paths.{FilePath, named}
use lensguard.Core.Capture.{CaptureOwner, ObserverMessage}
use lensguard.Observer.Bpf.{KernelEvent}
use lensguard.Observer.Policy.{TrustedBrokerPolicy, PolicyError, from_json, classify_process}
use lensguard.Observer.Policy
use lensguard.Observer.Identity.{process_directory, process_start_time_ticks, physical_camera}
use lensguard.Observer.Messages.{RoutedMessage}
use lensguard.Observer.Events.{
  Lookups, Candidate, Wake, event, tick, build_candidate, process_kernel_events,
}
use lensguard.Observer.Events.Safety.{AllTold, IsTold, Informs}
use lensguard.Observer.Events.Provenance.{started-IsSafe}
use lensguard.Observer.Startup.{start_up, processor}

-- `is_package_owned`
unfoldable pub is_package_owned : FileSystem → FilePath → Bool
is_package_owned fs path = is_owned_file (fs.metadata path)

-- `TrustedBrokerPolicy::load`, of the file of the policy.
unfoldable pub load :
    FileSystem
    → (Text → Option TrustedBrokerPolicy)
    → FilePath
    → Result PolicyError TrustedBrokerPolicy
load fs from_str path = do
  json ← map_err (λ _. Policy.read) (fs.read_to_string path)
  from_json from_str json

-- The owner of an event's process, if there is a policy.
abbrev owner_by : FileSystem → ℕ → Option TrustedBrokerPolicy → Option CaptureOwner
owner_by fs process_id none = none
owner_by fs process_id (some policy) = some (
    classify_process policy
      (ok_value (fs.read_link (process_directory process_id ++ named (codes "exe"))))
      (is_package_owned fs))

-- The lookups of `build_candidate`.
unfoldable pub look_up : FileSystem → Option TrustedBrokerPolicy → KernelEvent → Lookups
look_up fs policy raw = record {
  start_time = ok_value (process_start_time_ticks fs raw.thread_group_id);
  camera = ok_value (physical_camera fs raw.thread_group_id raw.file_descriptor);
  owner = owner_by fs raw.thread_group_id policy;
}

abbrev IsNotOf : ℕ → ℕ → Candidate → Type 0
IsNotOf process_id user_id c = c.thread_group_id ≢ process_id

-- The lookups of the event are those in some files and with some policy, and if the event is of the
-- process, then its status cannot be read as text.
abbrev pub IsUnreadable : ℕ → Wake → Type 0
IsUnreadable process_id (tick exists) = Unit
IsUnreadable process_id (event raw lookups) =
    (fs : FileSystem) × (policy : Option TrustedBrokerPolicy) × (lookups ≡ look_up fs policy raw)
    × (raw.thread_group_id ≡ process_id
        → (e : ErrorKind) × (fs.read_to_string
              (process_directory process_id ++ named (codes "stat"))
            ≡ err e))

built-thread_group_id :
    (raw : KernelEvent) (lookups : Lookups) (c : Candidate)
    → build_candidate raw lookups ≡ some c
    → raw.thread_group_id ≡ c.thread_group_id
unfolding build_candidate
built-thread_group_id raw lookups c h = elim (Option-cases lookups.start_time) [
  | inl missing ↦ absurd (cc (rw (missing, build_candidate) at h))
  | inr (ticks, timed) ↦ elim (Option-cases lookups.camera) [
    | inl missing ↦ absurd (cc (rw (timed, missing, build_candidate) at h))
    | inr (device, found) ↦ cc (rw (timed, found, build_candidate) at h)
  ]
]

built-IsNotOf :
    (process_id : ℕ) (fs : FileSystem) (policy : Option TrustedBrokerPolicy) (raw : KernelEvent)
    (c : Candidate)
    → (raw.thread_group_id ≡ process_id
        → (e : ErrorKind) × (fs.read_to_string
              (process_directory process_id ++ named (codes "stat"))
            ≡ err e))
    → build_candidate raw (look_up fs policy raw) ≡ some c
    → IsNotOf process_id raw.user_id c
unfolding build_candidate look_up process_start_time_ticks
built-IsNotOf process_id fs policy raw c unreadable built same =
    let group = built-thread_group_id raw (look_up fs policy raw) c built ∙ same in
    let (e, failed) = unreadable group in
    absurd (cc (rw (group, failed, build_candidate, look_up, process_start_time_ticks) at built))

IsUnreadable-Informs :
    (process_id : ℕ) (w : Wake) → IsUnreadable process_id w → Informs (IsNotOf process_id) w
IsUnreadable-Informs process_id (tick exists) h = tt
IsUnreadable-Informs process_id (event raw lookups) (fs, policy, looked, unreadable) =
    λ c started built.
      built-IsNotOf process_id fs policy raw c unreadable
        (sym (ap (build_candidate raw) looked) ∙ built)

All-IsUnreadable :
    (process_id : ℕ) (wakes : List Wake)
    → All (IsUnreadable process_id) wakes
    → All (Informs (IsNotOf process_id)) wakes
All-IsUnreadable process_id [] h = tt
All-IsUnreadable process_id (w ∷ wakes) h =
    (IsUnreadable-Informs process_id w h.0, All-IsUnreadable process_id wakes h.1)

abbrev pub IsElsewhere : ℕ → ObserverMessage → Type 0
IsElsewhere process_id (ObserverMessage.capture e) = e.thread_group_id ≢ process_id
IsElsewhere process_id _ = Unit

told-IsElsewhere :
    (process_id : ℕ) (user_id : Option ℕ) (m : ObserverMessage)
    → IsTold (IsNotOf process_id) user_id m
    → IsElsewhere process_id m
told-IsElsewhere process_id none (ObserverMessage.capture e) h = absurd h
told-IsElsewhere process_id (some user_id) (ObserverMessage.capture e)
      (valid, c, other, direct, about) =
    λ same. other (sym about.0 ∙ same)
told-IsElsewhere process_id user_id (ObserverMessage.hello schema version) h = tt
told-IsElsewhere process_id user_id (ObserverMessage.availability a d) h = tt
told-IsElsewhere process_id user_id (ObserverMessage.diagnostics d) h = tt

All-IsElsewhere :
    (process_id : ℕ) (l : List RoutedMessage)
    → AllTold (IsNotOf process_id) l
    → All (λ (m : RoutedMessage). IsElsewhere process_id m.message) l
All-IsElsewhere process_id [] h = tt
All-IsElsewhere process_id (m ∷ l) h =
    (told-IsElsewhere process_id m.user_id m.message h.0, All-IsElsewhere process_id l h.1)

-- A process whose status cannot be read as text whenever the kernel reports it, for instance because
-- the name that it gave itself is no valid Unicode, is told to nobody: from the start of the observer
-- on, whatever the kernel reports and whatever the cameras, the executables and the policy are, no
-- capture that is sent is about this process.
pub process_kernel_events-unreadable :
    (rules : Result Text TrustedBrokerPolicy) (attached : Result Text (Unit {0})) (process_id : ℕ)
    (wakes : List Wake)
    → All (IsUnreadable process_id) wakes
    → All
        (λ (m : RoutedMessage). IsElsewhere process_id m.message)
        (process_kernel_events wakes (processor (start_up rules attached))).shared.messages
process_kernel_events-unreadable rules attached process_id wakes h =
    All-IsElsewhere process_id _
      (started-IsSafe (IsNotOf process_id) rules attached wakes
        (All-IsUnreadable process_id wakes h)).told
