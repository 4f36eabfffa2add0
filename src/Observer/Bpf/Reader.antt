-- ===== src/Observer/Bpf/Reader.antt =====
-- observer/src/bpf.rs, `attach`: the kernel program's programs and the readers of its records.
--
-- What the eBPF library answers is an argument: whether each call succeeds, and the batches of
-- records that a buffer gives, up to its error.
use lensguard.Prelude.{
  ℕ, zero, suc, ◌≡◌, refl, sym, ap, ◌∙◌, Bool, true, false, List, [], ◌∷◌, ◌++◌, Option, none, some,
  Text, codes, Result, ok, err, ◌>>=◌, ◌>>◌, Option-cases, inl, inr,
}
use lensguard.Observer.Bpf.{KernelEvent, Endian, parse_kernel_event}

-- `BpfError`, without the texts of the library.
pub data BpfError : Type 0 where
  load program map_error perf cpu : BpfError
  absent : Text → BpfError

-- The answers to the calls for one program.
pub record ProgramCalls : Type 0 where
  pub found : Bool
  pub is_tracepoint : Result BpfError (Unit {0})
  pub load_program : Result BpfError (Unit {0})
  pub attach_program : Result BpfError (Unit {0})

abbrev present : Bool → Text → Result BpfError (Unit {0})
present true name = ok tt
present false name = err (absent name)

-- `attach_tracepoint`
unfoldable pub attach_tracepoint : Text → ProgramCalls → Result BpfError (Unit {0})
attach_tracepoint program_name calls = do
  present calls.found program_name
  calls.is_tracepoint
  calls.load_program
  calls.attach_program

pub record AttachCalls : Type 0 where
  pub load_object : Result BpfError (Unit {0})
  pub enter_ioctl : ProgramCalls
  pub exit_ioctl : ProgramCalls
  pub enter_close : ProgramCalls
  pub exit_close : ProgramCalls
  pub process_exit : ProgramCalls
  pub has_events : Bool
  pub events_map : Result BpfError (Unit {0})
  pub online_cpus : Result BpfError (List ℕ)
  pub open_buffer : ℕ → Result BpfError (Unit {0})

unfoldable pub open_each : (ℕ → Result BpfError (Unit {0})) → List ℕ → Result BpfError (Unit {0})
open_each open_buffer [] = ok tt
open_each open_buffer (c ∷ cpus) = open_buffer c >> open_each open_buffer cpus

-- `attach`: the processors whose buffers are read.
unfoldable pub attach : AttachCalls → Result BpfError (List ℕ)
attach calls = do
  calls.load_object
  attach_tracepoint (codes "enter_ioctl") calls.enter_ioctl
  attach_tracepoint (codes "exit_ioctl") calls.exit_ioctl
  attach_tracepoint (codes "enter_close") calls.enter_close
  attach_tracepoint (codes "exit_close") calls.exit_close
  attach_tracepoint (codes "process_exit") calls.process_exit
  present calls.has_events (codes "EVENTS")
  calls.events_map
  cpus ← calls.online_cpus
  open_each calls.open_buffer cpus
  ok cpus

-- A channel that takes so many events before it closes, or that stays open.
abbrev Room : Type 0
Room = Option ℕ

-- One batch: what is sent, and the room that is left unless the channel has closed.
unfoldable pub read_batch : Endian → List (List ℕ) → Room → List KernelEvent × Option Room
read_batch endian [] room = ([], some room)
read_batch endian (payload ∷ rest) room = elim (parse_kernel_event endian payload) [
  | none ↦ read_batch endian rest room
  | some event ↦ elim room [
    | some zero ↦ ([], none)
    | some (suc n) ↦ let (sent, left) = read_batch endian rest (some n) in (event ∷ sent, left)
    | none ↦ let (sent, left) = read_batch endian rest none in (event ∷ sent, left)
  ]
]

-- Goes on with the room that a batch has left, if the channel is still there.
abbrev go_on : List KernelEvent × Option Room → (Room → List KernelEvent) → List KernelEvent
go_on (sent, none) rest = sent
go_on (sent, some room) rest = sent ++ rest room

-- The loop of one reader, until its buffer fails or the channel closes.
unfoldable pub read_events :
    Endian → List (Result BpfError (List (List ℕ))) → Room → List KernelEvent
read_events endian [] room = []
read_events endian (err e ∷ rest) room = []
read_events endian (ok payloads ∷ rest) room =
    go_on (read_batch endian payloads room) (λ left. read_events endian rest left)

abbrev cons_event : Option KernelEvent → List KernelEvent → List KernelEvent
cons_event none events = events
cons_event (some event) events = event ∷ events

-- The events among records, in their order.
abbrev pub decoded : Endian → List (List ℕ) → List KernelEvent
decoded endian [] = []
decoded endian (payload ∷ rest) =
    cons_event (parse_kernel_event endian payload) (decoded endian rest)

-- The records up to the first failure of the buffer.
abbrev pub read_payloads : List (Result BpfError (List (List ℕ))) → List (List ℕ)
read_payloads [] = []
read_payloads (err e ∷ rest) = []
read_payloads (ok payloads ∷ rest) = payloads ++ read_payloads rest

decoded-append :
    (endian : Endian) (xs ys : List (List ℕ))
    → decoded endian (xs ++ ys) ≡ decoded endian xs ++ decoded endian ys
decoded-append endian [] ys = refl
decoded-append endian (x ∷ xs) ys = elim (Option-cases (parse_kernel_event endian x)) [
  | inl bad ↦ rw bad (decoded-append endian xs ys)
  | inr (event, good) ↦ rw good (ap (◌∷◌ event) (decoded-append endian xs ys))
]

read_batch-open :
    (endian : Endian) (payloads : List (List ℕ))
    → read_batch endian payloads none ≡ (decoded endian payloads, some none)
unfolding read_batch
read_batch-open endian [] = refl
read_batch-open endian (payload ∷ rest) = elim (Option-cases (parse_kernel_event endian payload)) [
  | inl bad ↦ rw (bad, read_batch) (read_batch-open endian rest)
  | inr (event, good) ↦ rw (good, read_batch, read_batch-open endian rest)
]

-- While the channel stays open, a reader sends the event of every record that decodes, in the
-- order of the records and up to the failure of its buffer, and nothing else.
pub read_events-decoded :
    (endian : Endian) (batches : List (Result BpfError (List (List ℕ))))
    → read_events endian batches none ≡ decoded endian (read_payloads batches)
unfolding read_events
read_events-decoded endian [] = refl
read_events-decoded endian (err e ∷ rest) = refl
read_events-decoded endian (ok payloads ∷ rest) =
    ap (λ b. go_on b (λ left. read_events endian rest left)) (read_batch-open endian payloads)
    ∙ ap (λ l. decoded endian payloads ++ l) (read_events-decoded endian rest)
    ∙ sym (decoded-append endian payloads (read_payloads rest))
