-- ===== src/Observer/Events/Candidates.antt =====
-- Which captures the observer follows after each event of the kernel, and the events it makes.
use lensguard.Prelude.{
  is_negative, refl, ◌≡◌, refl, true, not, Option, none, some, ℕ, pos, arith, ok, if◌then◌else◌,
}
use lensguard.OrderedMap.{get}
use lensguard.OrderedMap.Sorted.{IsSorted}
use lensguard.OrderedMap.Removal.{take_each-filter, get-entries_where}
use lensguard.OrderedMap.Laws.{same, same_iff, get-insert, get-remove}
use lensguard.Core.Capture.{
  CaptureConfidence, DirectCaptureOperation, needs_no_descriptor, validate,
}
use lensguard.Core.Capture.Validation.{
  HasConfirmedResult, HasConfidence, IsAcceptable, validate_iff,
}
use lensguard.Observer.Bpf.{KernelEvent, KernelOperation}
use lensguard.Observer.Events.{
  Candidate, CandidateKey, candidate_key_ord, candidate_key_of, descriptor_of, event_of, Processor,
  start_candidate, stop_candidate, of_process, exit_process, handle, build_candidate, Lookups,
}

-- The candidate `k` after an event, from what it was before.
abbrev pub candidate_after :
    KernelOperation
    → KernelEvent
    → Option Candidate
    → CandidateKey
    → Option Candidate
    → Option Candidate
candidate_after KernelOperation.stream_started raw none k old = old
candidate_after KernelOperation.stream_started raw (some built) k old =
    if same k (candidate_key_of raw) then some built else old
candidate_after KernelOperation.stream_stopped raw built k old =
    if same k (candidate_key_of raw) then none else old
candidate_after KernelOperation.device_closed raw built k old =
    if same k (candidate_key_of raw) then none else old
candidate_after KernelOperation.process_exited raw built k old =
    if of_process raw k then none else old

get-start_candidate :
    (raw : KernelEvent) (built : Option Candidate) (p : Processor) (k : CandidateKey)
    → get k (start_candidate raw built p).candidates
      ≡ candidate_after KernelOperation.stream_started raw built k (get k p.candidates)
unfolding start_candidate
get-start_candidate raw none p k = refl
get-start_candidate raw (some c) p k = get-insert (candidate_key_of raw) k c p.candidates

get-stop_candidate :
    (raw : KernelEvent) (o : DirectCaptureOperation) (p : Processor) (k : CandidateKey)
    → get k (stop_candidate raw o p).candidates
      ≡ (if same k (candidate_key_of raw) then none else get k p.candidates)
unfolding stop_candidate
get-stop_candidate raw o p k =
    ground
      (arith, get-remove (candidate_key_of raw) k p.candidates, same_iff k (candidate_key_of raw))

get-exit_process :
    (raw : KernelEvent) (p : Processor) (k : CandidateKey)
    → IsSorted p.candidates
    → get k (exit_process raw p).candidates
      ≡ (if of_process raw k then none else get k p.candidates)
unfolding exit_process
get-exit_process raw p k s =
    rw (take_each-filter (of_process raw) p.candidates s)
      (ground (arith, get-entries_where (λ j. not (of_process raw j)) k p.candidates))

-- After an event of the kernel, the captures that the observer follows are what `candidate_after`
-- says: a start that could be looked up is followed, a stop or a close ends the one capture, the
-- exit of a process ends all of the user's process, and no other capture changes.
pub get-handle :
    (o : KernelOperation) (raw : KernelEvent) (lookups : Lookups) (p : Processor) (k : CandidateKey)
    → IsSorted p.candidates
    → get k (handle o raw lookups p).candidates
      ≡ candidate_after o raw (build_candidate raw lookups) k (get k p.candidates)
get-handle KernelOperation.stream_started raw lookups p k s =
    get-start_candidate raw (build_candidate raw lookups) p k
get-handle KernelOperation.stream_stopped raw lookups p k s = get-stop_candidate raw _ p k
get-handle KernelOperation.device_closed raw lookups p k s = get-stop_candidate raw _ p k
get-handle KernelOperation.process_exited raw lookups p k s = get-exit_process raw p k s

-- The operations that end a capture.
abbrev pub Ends : DirectCaptureOperation → Type 0
Ends DirectCaptureOperation.stream_stopped = Unit
Ends DirectCaptureOperation.device_closed = Unit
Ends DirectCaptureOperation.process_exited = Unit
Ends DirectCaptureOperation.device_removed = Unit
Ends _ = ⊥

end-IsAcceptable :
    (c : Candidate) (o : DirectCaptureOperation) (started ended : ℕ)
    → IsAcceptable (event_of c DirectCaptureOperation.stream_started started (pos 0))
    → (is_negative (descriptor_of o c) ≡ true → needs_no_descriptor o ≡ true)
    → HasConfirmedResult o (pos 0)
    → HasConfidence o CaptureConfidence.confirmed
    → IsAcceptable (event_of c o ended (pos 0))
end-IsAcceptable c o started ended a d r k = record {
  schema = refl;
  owner = refl;
  process = a.process;
  group = a.group;
  start = a.start;
  descriptor = d;
  result = r;
  confidence = k;
  fields = a.fields;
}

event_of-IsAcceptable :
    (c : Candidate) (o : DirectCaptureOperation) (started ended : ℕ)
    → Ends o
    → IsAcceptable (event_of c DirectCaptureOperation.stream_started started (pos 0))
    → IsAcceptable (event_of c o ended (pos 0))
event_of-IsAcceptable c DirectCaptureOperation.stream_stopped started ended e a =
    end-IsAcceptable c _ started ended a a.descriptor refl refl
event_of-IsAcceptable c DirectCaptureOperation.device_closed started ended e a =
    end-IsAcceptable c _ started ended a a.descriptor (0, refl) refl
event_of-IsAcceptable c DirectCaptureOperation.process_exited started ended e a =
    end-IsAcceptable c _ started ended a (λ negative. refl) (0, refl) refl
event_of-IsAcceptable c DirectCaptureOperation.device_removed started ended e a =
    end-IsAcceptable c _ started ended a (λ negative. refl) (0, refl) refl
event_of-IsAcceptable c _ started ended e a = absurd e

-- If the start of a candidate's capture passes the validation, so does each of its ends with the
-- result zero: no session that the daemon was told of stays for want of a valid end.
validate-event_of :
    (c : Candidate) (o : DirectCaptureOperation) (started ended : ℕ)
    → Ends o
    → validate (event_of c DirectCaptureOperation.stream_started started (pos 0)) ≡ ok tt
    → validate (event_of c o ended (pos 0)) ≡ ok tt
validate-event_of c o started ended e h = (validate_iff (event_of c o ended (pos 0))).1 (
    event_of-IsAcceptable c o started ended e
      ((validate_iff (event_of c DirectCaptureOperation.stream_started started (pos 0))).0 h))
