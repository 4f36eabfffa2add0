-- ===== src/Observer/Server/Told.antt =====
-- What a client knows of the shared status by the messages that it has been told.
use mathlib.Core.List.{append-nil, append_assoc}
use lensguard.Prelude.{
  ℕ, ℤ, Bool, ◌≡◌, refl, sym, ap, ◌∙◌, true, false, List, [], ◌∷◌, ◌++◌, map, Option, none, some,
  Text, ◌==◌, pos, take, Result-cases, Bool-cases, Option-cases, inl, inr, arith, if◌then◌else◌,
}
use lensguard.Order.{nat_ord}
use lensguard.OrderedMap.{get, insert}
use lensguard.OrderedMap.Laws.{get-insert, same}
use lensguard.Core.Capture.{
  CaptureOwner, DirectCaptureEvent, DirectCaptureOperation, ObserverAvailability, ObserverMessage,
  SuppressionDiagnostics, validate, is_direct,
}
use lensguard.Observer.Bpf.{KernelEvent, KernelOperation}
use lensguard.Observer.Messages.{
  RoutedMessage, SharedStatus, send, diagnostics_of, count_suppressed, increment_suppression,
  set_availability,
}
use lensguard.Observer.Events.{
  candidate_key_of, Candidate, CandidateKey, candidate_key_ord, send_valid, event_of,
  publish_candidate, Processor, start_candidate, stop_candidate, publish_each, exit_process,
  remove_missing_devices, handle, Wake, wake, process_kernel_events, build_candidate, event, tick,
  Lookups,
}
use lensguard.Observer.Server.{routed}
use lensguard.Observer.Server.Frames.{is_meant, messages_for}

-- The availability and the counts, as far as they are known.
pub record View : Type 0 where
  pub availability : Option (ObserverAvailability × Text)
  pub diagnostics : Option SuppressionDiagnostics

abbrev pub nothing_known : View
nothing_known = record { availability = none; diagnostics = none }

-- A message takes the place of what was known before.
abbrev pub see : ObserverMessage → View → View
see (ObserverMessage.hello n t) v = v
see (ObserverMessage.availability a t) v = record v { availability = some (a, t) }
see (ObserverMessage.capture e) v = v
see (ObserverMessage.diagnostics d) v = record v { diagnostics = some d }

abbrev pub see_all : List ObserverMessage → View → View
see_all [] v = v
see_all (m ∷ rest) v = see_all rest (see m v)

-- What there is to know of the status for a user.
abbrev pub view_of : ℕ → SharedStatus → View
view_of user_id shared = record {
  availability = some shared.availability;
  diagnostics = some (diagnostics_of user_id shared);
}

pub see_all-append :
    (xs ys : List ObserverMessage) (v : View) → see_all (xs ++ ys) v ≡ see_all ys (see_all xs v)
see_all-append [] ys v = refl
see_all-append (x ∷ xs) ys v = see_all-append xs ys (see x v)

messages_for-append :
    (user_id : ℕ) (xs ys : List RoutedMessage)
    → messages_for user_id (map routed (xs ++ ys))
      ≡ messages_for user_id (map routed xs) ++ messages_for user_id (map routed ys)
messages_for-append user_id [] ys = refl
messages_for-append user_id (x ∷ xs) ys = elim (Bool-cases (is_meant user_id x.user_id)) [
  | inl mine ↦ rw mine (ap (◌∷◌ x.message) (messages_for-append user_id xs ys))
  | inr other ↦ rw other (messages_for-append user_id xs ys)
]

if_same : (b : Bool) (v : View) → v ≡ (if b then v else v)
if_same true v = refl
if_same false v = refl

view_if :
    (b : Bool) (view : SuppressionDiagnostics → View) (d e : SuppressionDiagnostics)
    → view (if b then d else e) ≡ (if b then view d else view e)
view_if true view d e = refl
view_if false view d e = refl

module _ (user_id : ℕ) where
  -- The messages that are sent on the way bring a user's view from the one status to the other.
  pub record Told (before after : SharedStatus) : Type 0 where
    pub later : List RoutedMessage
    pub appended : after.messages ≡ before.messages ++ later
    pub seen :
        see_all (messages_for user_id (map routed later)) (view_of user_id before)
        ≡ view_of user_id after

  pub unchanged-Told : (s : SharedStatus) → Told s s
  unchanged-Told s = record { later = []; appended = sym (append-nil s.messages); seen = refl }

  pub then-Told : (a b c : SharedStatus) → Told a b → Told b c → Told a c
  then-Told a b c h k = record {
    later = h.later ++ k.later;
    appended =
        k.appended ∙ ap (λ l. l ++ k.later) h.appended ∙ append_assoc a.messages h.later k.later;
    seen = rw (messages_for-append user_id h.later k.later) (
        see_all-append (messages_for user_id (map routed h.later))
          (messages_for user_id (map routed k.later)) (view_of user_id a)
        ∙ ap (see_all (messages_for user_id (map routed k.later))) h.seen
        ∙ k.seen);
  }

  pub set_availability-Told :
      (a : ObserverAvailability) (t : Text) (s : SharedStatus) → Told s (set_availability a t s)
  unfolding set_availability
  set_availability-Told a t s = record {
    later = record { user_id = none; message = ObserverMessage.availability a (take 512 t) } ∷ [];
    appended = refl;
    seen = refl;
  }

  diagnostics_of-insert :
      (u : ℕ) (d : SuppressionDiagnostics) (s : SharedStatus)
      → diagnostics_of user_id (record s { diagnostics = insert u d s.diagnostics })
        ≡ (if u == user_id then d else diagnostics_of user_id s)
  diagnostics_of-insert u d s = ground (arith, get-insert u user_id d s.diagnostics)

  send-Told :
      (u : ℕ) (m : ObserverMessage) (s after : SharedStatus)
      → after.messages ≡ s.messages
      → view_of user_id after
        ≡ (if u == user_id then see m (view_of user_id s) else view_of user_id s)
      → Told s (send (some u) m after)
  send-Told u m s after same h = record {
    later = record { user_id = some u; message = m } ∷ [];
    appended = ap (λ l. l ++ record { user_id = some u; message = m } ∷ []) same;
    seen = elim (Bool-cases (u == user_id)) [
      | inl mine ↦ rw mine (sym (rw mine at h))
      | inr other ↦ rw other (sym (rw other at h))
    ];
  }

  increment_suppression-Told :
      (u : ℕ) (owner : CaptureOwner) (s : SharedStatus) → Told s (increment_suppression u owner s)
  unfolding increment_suppression
  increment_suppression-Told u owner s =
      let d = count_suppressed owner (diagnostics_of u s) in
      let view : SuppressionDiagnostics → View =
        λ x. record { availability = some s.availability; diagnostics = some x } in
      send-Told u (ObserverMessage.diagnostics d) s
        (record s { diagnostics = insert u d s.diagnostics }) refl
        (ap view (diagnostics_of-insert u d s) ∙ view_if (u == user_id) view d _)

  send_valid-Told : (u : ℕ) (e : DirectCaptureEvent) (s : SharedStatus) → Told s (send_valid u e s)
  send_valid-Told u e s = elim (Result-cases (validate e)) [
    | inl (done, good) ↦
        rw (good, send_valid)
          (send-Told u (ObserverMessage.capture e) s s refl
            (if_same (u == user_id) (view_of user_id s)))
    | inr (x, bad) ↦ rw (bad, send_valid) (unchanged-Told s)
  ]

  publish_candidate-Told :
      (u : ℕ) (c : Candidate) (o : DirectCaptureOperation) (t : ℕ) (r : ℤ) (s : SharedStatus)
      → Told s (publish_candidate u c o t r s)
  unfolding publish_candidate
  publish_candidate-Told u c o t r s = elim (Bool-cases (is_direct c.owner)) [
    | inl direct ↦ rw direct (send_valid-Told u (event_of c o t r) s)
    | inr other ↦ rw other (increment_suppression-Told u c.owner s)
  ]

  publish_each-Told :
      (l : List (CandidateKey × Candidate)) (o : DirectCaptureOperation) (t : ℕ) (r : ℤ)
      (s : SharedStatus)
      → Told s (publish_each l o t r s)
  unfolding publish_each
  publish_each-Told [] o t r s = unchanged-Told s
  publish_each-Told ((k, c) ∷ l) o t r s =
      then-Told s _ _ (publish_candidate-Told k.user_id c o t r s)
        (publish_each-Told l o t r (publish_candidate k.user_id c o t r s))

  start_candidate-Told :
      (raw : KernelEvent) (c : Option Candidate) (p : Processor)
      → Told p.shared (start_candidate raw c p).shared
  unfolding start_candidate
  start_candidate-Told raw none p =
      increment_suppression-Told raw.user_id CaptureOwner.unknown p.shared
  start_candidate-Told raw (some c) p =
      publish_candidate-Told raw.user_id c DirectCaptureOperation.stream_started raw.timestamp_ns
        raw.result p.shared

  stop_candidate-Told :
      (raw : KernelEvent) (o : DirectCaptureOperation) (p : Processor)
      → Told p.shared (stop_candidate raw o p).shared
  unfolding stop_candidate
  stop_candidate-Told raw o p = elim (Option-cases (get (candidate_key_of raw) p.candidates)) [
    | inl absent ↦ rw (absent, stop_candidate) (unchanged-Told p.shared)
    | inr (c, found) ↦
        rw (found, stop_candidate)
          (publish_candidate-Told raw.user_id c o raw.timestamp_ns raw.result p.shared)
  ]

  handle-Told :
      (o : KernelOperation) (raw : KernelEvent) (lookups : Lookups) (p : Processor)
      → Told p.shared (handle o raw lookups p).shared
  unfolding exit_process
  handle-Told KernelOperation.stream_started raw lookups p =
      start_candidate-Told raw (build_candidate raw lookups) p
  handle-Told KernelOperation.stream_stopped raw lookups p = stop_candidate-Told raw _ p
  handle-Told KernelOperation.device_closed raw lookups p = stop_candidate-Told raw _ p
  handle-Told KernelOperation.process_exited raw lookups p =
      publish_each-Told _ DirectCaptureOperation.process_exited raw.timestamp_ns raw.result p.shared

  wake-Told : (w : Wake) (p : Processor) → Told p.shared (wake w p).shared
  unfolding wake remove_missing_devices
  wake-Told (event raw lookups) p = handle-Told raw.operation raw lookups _
  wake-Told (tick exists) p =
      publish_each-Told _ DirectCaptureOperation.device_removed _ (pos 0) p.shared

  -- So does every run of the observer's loop.
  pub process_kernel_events-Told :
      (wakes : List Wake) (p : Processor) → Told p.shared (process_kernel_events wakes p).shared
  unfolding process_kernel_events
  process_kernel_events-Told [] p = unchanged-Told p.shared
  process_kernel_events-Told (w ∷ rest) p =
      then-Told p.shared _ _ (wake-Told w p) (process_kernel_events-Told rest (wake w p))
