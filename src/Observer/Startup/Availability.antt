-- ===== src/Observer/Startup/Availability.antt =====
-- When the observer says that it is available.
use lensguard.Prelude.{
  ℕ, ◌≡◌, ◌≢◌, ◌↔◌, refl, ◌∙◌, List, [], ◌∷◌, Option, none, some, ℤ, pos, true, ok, err, inl, inr,
  Result, Result-cases, Bool-cases, Option-cases, Text, ◌||◌, codes,
}
use lensguard.OrderedMap.{get}
use lensguard.Strings.{to_ascii_lowercase, contains}
use lensguard.Core.Capture.{
  CaptureOwner, DirectCaptureEvent, DirectCaptureOperation, ObserverAvailability, validate,
  is_direct,
}
use lensguard.Observer.Bpf.{KernelEvent, KernelOperation}
use lensguard.Observer.Policy.{TrustedBrokerPolicy}
use lensguard.Observer.Messages.{SharedStatus, increment_suppression, set_availability}
use lensguard.Observer.Events.{
  candidate_key_of, Candidate, CandidateKey, candidate_key_ord, send_valid, event_of,
  publish_candidate, Processor, start_candidate, stop_candidate, publish_each, exit_process,
  remove_missing_devices, handle, Wake, wake, process_kernel_events, build_candidate, event, tick,
  Lookups,
}
use lensguard.Observer.Startup.{classify_bpf_error, is_ok, start_up, processor}

-- Between the start and the shutdown no step touches the availability.
availability-increment_suppression :
    (user_id : ℕ) (owner : CaptureOwner) (shared : SharedStatus)
    → (increment_suppression user_id owner shared).availability ≡ shared.availability
unfolding increment_suppression
availability-increment_suppression user_id owner shared = refl

availability-send_valid :
    (user_id : ℕ) (e : DirectCaptureEvent) (shared : SharedStatus)
    → (send_valid user_id e shared).availability ≡ shared.availability
availability-send_valid user_id e shared = elim (Result-cases (validate e)) [
  | inl (done, good) ↦ rw (good, send_valid) refl
  | inr (x, bad) ↦ rw (bad, send_valid) refl
]

availability-publish_candidate :
    (user_id : ℕ) (c : Candidate) (o : DirectCaptureOperation) (t : ℕ) (r : ℤ)
    (shared : SharedStatus)
    → (publish_candidate user_id c o t r shared).availability ≡ shared.availability
unfolding publish_candidate
availability-publish_candidate user_id c o t r shared = elim (Bool-cases (is_direct c.owner)) [
  | inl direct ↦ rw direct (availability-send_valid user_id (event_of c o t r) shared)
  | inr other ↦ rw other (availability-increment_suppression user_id c.owner shared)
]

availability-publish_each :
    (l : List (CandidateKey × Candidate)) (o : DirectCaptureOperation) (t : ℕ) (r : ℤ)
    (shared : SharedStatus)
    → (publish_each l o t r shared).availability ≡ shared.availability
unfolding publish_each
availability-publish_each [] o t r shared = refl
availability-publish_each ((k, c) ∷ l) o t r shared =
    availability-publish_each l o t r _ ∙ availability-publish_candidate k.user_id c o t r shared

availability-start_candidate :
    (raw : KernelEvent) (c : Option Candidate) (p : Processor)
    → (start_candidate raw c p).shared.availability ≡ p.shared.availability
unfolding start_candidate
availability-start_candidate raw none p =
    availability-increment_suppression raw.user_id CaptureOwner.unknown p.shared
availability-start_candidate raw (some c) p =
    availability-publish_candidate raw.user_id c DirectCaptureOperation.stream_started
      raw.timestamp_ns raw.result p.shared

availability-stop_candidate :
    (raw : KernelEvent) (o : DirectCaptureOperation) (p : Processor)
    → (stop_candidate raw o p).shared.availability ≡ p.shared.availability
unfolding stop_candidate
availability-stop_candidate raw o p =
    elim (Option-cases (get (candidate_key_of raw) p.candidates)) [
      | inl absent ↦ rw (absent, stop_candidate) refl
      | inr (c, found) ↦
          rw (found, stop_candidate)
            (availability-publish_candidate raw.user_id c o raw.timestamp_ns raw.result p.shared)
    ]

availability-handle :
    (o : KernelOperation) (raw : KernelEvent) (lookups : Lookups) (p : Processor)
    → (handle o raw lookups p).shared.availability ≡ p.shared.availability
unfolding exit_process
availability-handle KernelOperation.stream_started raw lookups p =
    availability-start_candidate raw (build_candidate raw lookups) p
availability-handle KernelOperation.stream_stopped raw lookups p =
    availability-stop_candidate raw _ p
availability-handle KernelOperation.device_closed raw lookups p =
    availability-stop_candidate raw _ p
availability-handle KernelOperation.process_exited raw lookups p =
    availability-publish_each _ DirectCaptureOperation.process_exited raw.timestamp_ns raw.result
      p.shared

availability-wake :
    (w : Wake) (p : Processor) → (wake w p).shared.availability ≡ p.shared.availability
unfolding wake remove_missing_devices
availability-wake (event raw lookups) p = availability-handle raw.operation raw lookups _
availability-wake (tick exists) p =
    availability-publish_each _ DirectCaptureOperation.device_removed _ (pos 0) p.shared

availability-process_kernel_events :
    (wakes : List Wake) (p : Processor)
    → (process_kernel_events wakes p).shared.availability ≡ p.shared.availability
unfolding process_kernel_events
availability-process_kernel_events [] p = refl
availability-process_kernel_events (w ∷ rest) p =
    availability-process_kernel_events rest (wake w p) ∙ availability-wake w p

classify-ne-available : (text : Text) → classify_bpf_error text ≢ ObserverAvailability.available
unfolding classify_bpf_error
classify-ne-available text h =
    elim (Bool-cases (
      contains (codes "lockdown") (to_ascii_lowercase text)
      || contains (codes "security") (to_ascii_lowercase text))) [
        | inl a ↦ cc (rw a at h)
        | inr a ↦
            elim (Bool-cases (
              contains (codes "operation not permitted") (to_ascii_lowercase text)
              || contains (codes "permission denied") (to_ascii_lowercase text))) [
                | inl b ↦ cc (rw (a, b) at h)
                | inr b ↦
                    elim (Bool-cases (
                      contains (codes "tracepoint") (to_ascii_lowercase text)
                      || contains (codes "not found") (to_ascii_lowercase text))) [
                        | inl c ↦ cc (rw (a, b, c) at h)
                        | inr c ↦ cc (rw (a, b, c) at h)
                      ]
              ]
      ]

start_up-available :
    (policy : Result Text TrustedBrokerPolicy) (attached : Result Text (Unit {0}))
    → ((start_up policy attached).availability.0 ≡ ObserverAvailability.available)
      ↔ ((is_ok policy ≡ true) × (is_ok attached ≡ true))
unfolding start_up set_availability
start_up-available (ok policy) (ok _) = (λ h. (refl, refl), λ h. refl)
start_up-available (err e) (ok _) = (λ h. absurd (cc h), λ h. absurd (cc h.0))
start_up-available (ok policy) (err e) =
    (λ h. absurd (classify-ne-available e h), λ h. absurd (cc h.1))
start_up-available (err d) (err e) = (λ h. absurd (classify-ne-available e h), λ h. absurd (cc h.1))

-- Whatever the kernel reports after the start: the observer says that it is available exactly if the
-- policy could be loaded and the kernel program attached.
pub process_kernel_events-available :
    (policy : Result Text TrustedBrokerPolicy) (attached : Result Text (Unit {0}))
    (wakes : List Wake)
    → ((process_kernel_events wakes (processor (start_up policy attached))).shared.availability.0
        ≡ ObserverAvailability.available)
      ↔ ((is_ok policy ≡ true) × (is_ok attached ≡ true))
process_kernel_events-available policy attached wakes =
    rw (availability-process_kernel_events wakes (processor (start_up policy attached)))
      (start_up-available policy attached)
