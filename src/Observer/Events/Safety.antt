-- ===== src/Observer/Events/Safety.antt =====
-- What the observer tells whom, and of which captures.
use lensguard.Prelude.{
  refl, ◌≡◌, List, [], ◌∷◌, ◌++◌, Option, none, some, ℕ, ℤ, ok, inl, inr, Result-cases, Bool-cases,
  Option-cases, All,
}
use lensguard.OrderedMap.{OrderedMap, get, remove}
use lensguard.OrderedMap.Removal.{take_each}
use lensguard.OrderedMap.Entries.{AllEntries, AllEntries-insert, AllEntries-remove, AllEntries-get}
use lensguard.Core.Capture.{
  CaptureOwner, DirectCaptureEvent, DirectCaptureOperation, ObserverMessage, validate, is_direct,
}
use lensguard.Observer.Bpf.{KernelEvent, KernelOperation}
use lensguard.Observer.Messages.{RoutedMessage, SharedStatus, increment_suppression}
use lensguard.Observer.Events.{
  true, pos, candidate_key_of, Candidate, CandidateKey, candidate_key_ord, send_valid, event_of,
  publish_candidate, Processor, start_candidate, stop_candidate, publish_each, exit_process,
  remove_missing_devices, handle, Wake, wake, process_kernel_events, build_candidate, event, tick,
  Lookups,
}

is_direct-direct : (o : CaptureOwner) → is_direct o ≡ true → o ≡ CaptureOwner.direct
is_direct-direct CaptureOwner.direct h = refl
is_direct-direct CaptureOwner.broker_owned h = absurd (cc h)
is_direct-direct CaptureOwner.unknown h = absurd (cc h)

-- The event is about the capture, by its process and its camera.
abbrev pub IsAbout : Candidate → DirectCaptureEvent → Type 0
IsAbout c e =
    (e.thread_group_id ≡ c.thread_group_id)
    × (e.process_id ≡ c.process_id)
    × (e.process_start_time_ticks ≡ c.process_start_time_ticks)
    × (e.device ≡ c.device)

module _ (IsKnown : ℕ → Candidate → Type 0) where
  -- A capture is told to one user, is about a direct capture that is known of this user, and passes
  -- the daemon's own check; counts are told to one user; availability is told to all.
  abbrev pub IsTold : Option ℕ → ObserverMessage → Type 0
  IsTold none (ObserverMessage.availability a d) = Unit
  IsTold (some user_id) (ObserverMessage.capture e) =
      (validate e ≡ ok tt)
      × (c : Candidate) × IsKnown user_id c
      × (c.owner ≡ CaptureOwner.direct)
      × IsAbout c e
  IsTold (some user_id) (ObserverMessage.diagnostics d) = Unit
  IsTold _ _ = ⊥

  abbrev pub AllTold : List RoutedMessage → Type 0
  AllTold l = All (λ (m : RoutedMessage). IsTold m.user_id m.message) l

  abbrev HasUser : CandidateKey → Candidate → Type 0
  HasUser k c = IsKnown k.user_id c

  -- What was sent is safe, and what is followed is known.
  pub record IsSafe (p : Processor) : Type 0 where
    pub told : AllTold p.shared.messages
    pub followed : AllEntries HasUser p.candidates

  -- A start that can be looked up is of a known capture.
  abbrev pub Informs : Wake → Type 0
  Informs (event raw lookups) =
      (c : Candidate)
      → raw.operation ≡ KernelOperation.stream_started
      → build_candidate raw lookups ≡ some c
      → IsKnown raw.user_id c
  Informs (tick exists) = Unit

  pub AllTold-last :
      (l : List RoutedMessage) (m : RoutedMessage)
      → AllTold l
      → IsTold m.user_id m.message
      → AllTold (l ++ m ∷ [])
  AllTold-last [] m h p = (p, tt)
  AllTold-last (x ∷ l) m h p = (h.0, AllTold-last l m h.1 p)

  AllTold-increment_suppression :
      (user_id : ℕ) (owner : CaptureOwner) (shared : SharedStatus)
      → AllTold shared.messages
      → AllTold (increment_suppression user_id owner shared).messages
  unfolding increment_suppression
  AllTold-increment_suppression user_id owner shared h = AllTold-last shared.messages _ h tt

  AllTold-publish_candidate :
      (user_id : ℕ) (c : Candidate) (o : DirectCaptureOperation) (t : ℕ) (r : ℤ)
      (shared : SharedStatus)
      → IsKnown user_id c
      → AllTold shared.messages
      → AllTold (publish_candidate user_id c o t r shared).messages
  unfolding publish_candidate
  AllTold-publish_candidate user_id c o t r shared k h = elim (Bool-cases (is_direct c.owner)) [
    | inr other ↦ rw other (AllTold-increment_suppression user_id c.owner shared h)
    | inl direct ↦ rw direct (elim (Result-cases (validate (event_of c o t r))) [
      | inl (done, good) ↦
          rw (good, send_valid)
            (AllTold-last shared.messages _ h
              (good, c, k, is_direct-direct c.owner direct, (refl, refl, refl, refl)))
      | inr (x, bad) ↦ rw (bad, send_valid) h
    ])
  ]

  AllTold-publish_each :
      (l : List (CandidateKey × Candidate)) (o : DirectCaptureOperation) (t : ℕ) (r : ℤ)
      (shared : SharedStatus)
      → All (λ (e : CandidateKey × Candidate). HasUser e.0 e.1) l
      → AllTold shared.messages
      → AllTold (publish_each l o t r shared).messages
  unfolding publish_each
  AllTold-publish_each [] o t r shared k h = h
  AllTold-publish_each ((key, c) ∷ l) o t r shared k h =
      AllTold-publish_each l o t r _ k.1
        (AllTold-publish_candidate key.user_id c o t r shared k.0 h)

  -- What is taken out was followed, and what is left still is.
  AllEntries-take_each :
      (keys : List CandidateKey) (m : OrderedMap CandidateKey Candidate)
      → AllEntries HasUser m
      → AllEntries HasUser (take_each keys m).0
        × All (λ (e : CandidateKey × Candidate). HasUser e.0 e.1) (take_each keys m).1
  unfolding take_each
  AllEntries-take_each [] m h = (h, tt)
  AllEntries-take_each (key ∷ keys) m h =
      let (left, taken) =
        AllEntries-take_each keys (remove key m) (AllEntries-remove HasUser key m h) in
      elim (Option-cases (get key m)) [
        | inl absent ↦ rw absent (left, taken)
        | inr (c, found) ↦ rw found (left, (AllEntries-get HasUser key m c h found, taken))
      ]

  start_candidate-IsSafe :
      (raw : KernelEvent) (c : Option Candidate) (p : Processor)
      → ((d : Candidate) → c ≡ some d → IsKnown raw.user_id d)
      → IsSafe p
      → IsSafe (start_candidate raw c p)
  unfolding start_candidate
  start_candidate-IsSafe raw none p k h = record {
    told = AllTold-increment_suppression raw.user_id CaptureOwner.unknown p.shared h.told;
    followed = h.followed;
  }
  start_candidate-IsSafe raw (some c) p k h = record {
    told =
        AllTold-publish_candidate raw.user_id c DirectCaptureOperation.stream_started
          raw.timestamp_ns raw.result p.shared (k c refl) h.told;
    followed =
        AllEntries-insert HasUser (candidate_key_of raw) c p.candidates (k c refl) h.followed;
  }

  stop_candidate-IsSafe :
      (raw : KernelEvent) (o : DirectCaptureOperation) (p : Processor)
      → IsSafe p
      → IsSafe (stop_candidate raw o p)
  unfolding stop_candidate
  stop_candidate-IsSafe raw o p h = elim (Option-cases (get (candidate_key_of raw) p.candidates)) [
    | inl absent ↦ rw (absent, stop_candidate) h
    | inr (c, found) ↦
        rw (found, stop_candidate)
          (record {
            told =
                AllTold-publish_candidate raw.user_id c o raw.timestamp_ns raw.result p.shared
                  (AllEntries-get HasUser (candidate_key_of raw) p.candidates c h.followed found)
                  h.told;
            followed = AllEntries-remove HasUser (candidate_key_of raw) p.candidates h.followed;
          })
  ]

  -- The captures under the keys are no longer followed, and their end is told.
  end_each-IsSafe :
      (keys : List CandidateKey) (o : DirectCaptureOperation) (t : ℕ) (r : ℤ) (p : Processor)
      → IsSafe p
      → IsSafe (record p {
        shared = publish_each (take_each keys p.candidates).1 o t r p.shared;
        candidates = (take_each keys p.candidates).0;
      })
  end_each-IsSafe keys o t r p h =
      let (left, taken) = AllEntries-take_each keys p.candidates h.followed in
      record { told = AllTold-publish_each _ o t r p.shared taken h.told; followed = left }

  handle-IsSafe :
      (o : KernelOperation) (raw : KernelEvent) (lookups : Lookups) (p : Processor)
      → ((c : Candidate)
          → o ≡ KernelOperation.stream_started
          → build_candidate raw lookups ≡ some c
          → IsKnown raw.user_id c)
      → IsSafe p
      → IsSafe (handle o raw lookups p)
  unfolding exit_process
  handle-IsSafe KernelOperation.stream_started raw lookups p k h =
      start_candidate-IsSafe raw (build_candidate raw lookups) p (λ c e. k c refl e) h
  handle-IsSafe KernelOperation.stream_stopped raw lookups p k h = stop_candidate-IsSafe raw _ p h
  handle-IsSafe KernelOperation.device_closed raw lookups p k h = stop_candidate-IsSafe raw _ p h
  handle-IsSafe KernelOperation.process_exited raw lookups p k h =
      end_each-IsSafe _ DirectCaptureOperation.process_exited raw.timestamp_ns raw.result p h

  wake-IsSafe : (w : Wake) (p : Processor) → Informs w → IsSafe p → IsSafe (wake w p)
  unfolding wake remove_missing_devices
  wake-IsSafe (event raw lookups) p k h =
      handle-IsSafe raw.operation raw lookups _ k (record { told = h.told; followed = h.followed })
  wake-IsSafe (tick exists) p k h =
      end_each-IsSafe _ DirectCaptureOperation.device_removed _ (pos 0) p h

  -- The loop keeps what was sent safe, if its starts are of known captures.
  pub process_kernel_events-IsSafe :
      (wakes : List Wake) (p : Processor)
      → All Informs wakes
      → IsSafe p
      → IsSafe (process_kernel_events wakes p)
  unfolding process_kernel_events
  process_kernel_events-IsSafe [] p k h = h
  process_kernel_events-IsSafe (w ∷ rest) p k h =
      process_kernel_events-IsSafe rest (wake w p) k.1 (wake-IsSafe w p k.0 h)
