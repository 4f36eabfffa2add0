-- ===== src/Observer/Bpf/Layout.antt =====
-- The record that the kernel program writes, and the event that it stands for.
use lensguard.Prelude.{
  refl, ℕ, zero, suc, ◌+◌, ◌-◌, ◌*◌, ◌/◌, ◌%◌, ◌^◌, ◌<◌, ◌≡◌, List, [], ◌∷◌, ◌++◌, ℤ, pos, negsuc,
  arith,
}
use lensguard.Observer.Bpf.{
  try_u32, operation_of, some, parse_kernel_event, KernelEvent, KernelOperation, stream_started,
  stream_stopped, device_closed, process_exited, Endian, little, big, rev_onto, from_le_bytes,
  signed,
}

-- The bytes of a number of `k` bytes, as the machine stores it.
abbrev pub to_le_bytes : ℕ → ℕ → List ℕ
to_le_bytes zero n = []
to_le_bytes (suc k) n = n % 256 ∷ to_le_bytes k (n / 256)

abbrev pub to_ne_bytes : Endian → ℕ → ℕ → List ℕ
to_ne_bytes little k n = to_le_bytes k n
to_ne_bytes big k n = rev_onto (to_le_bytes k n) []

abbrev pub complement : ℕ → ℤ → ℕ
complement w (pos n) = n
complement w (negsuc n) = 2 ^ w - 1 - n

abbrev pub code_of : KernelOperation → ℕ
code_of stream_started = 1
code_of stream_stopped = 2
code_of device_closed = 3
code_of process_exited = 4

-- `struct kernel_event` of the kernel program, with the group of the user beside the user.
abbrev pub layout : Endian → ℕ → KernelEvent → List ℕ
layout endian group_id e =
    to_ne_bytes endian 8 e.timestamp_ns
    ++ (to_ne_bytes endian 8 (e.thread_group_id * 2 ^ 32 + e.process_id)
        ++ (to_ne_bytes endian 8 (group_id * 2 ^ 32 + e.user_id)
            ++ (to_ne_bytes endian 4 (complement 32 e.file_descriptor)
                ++ (to_ne_bytes endian 4 (code_of e.operation)
                    ++ to_ne_bytes endian 8 (complement 64 e.result)))))

-- What the widths of the fields say.
abbrev pub FitsSigned : ℕ → ℤ → Type 0
FitsSigned w (pos n) = n < 2 ^ (w - 1)
FitsSigned w (negsuc n) = n < 2 ^ (w - 1)

pub record FitsWords (e : KernelEvent) : Type 0 where
  pub timestamp : e.timestamp_ns < 2 ^ 64
  pub process : e.process_id < 2 ^ 32
  pub group : e.thread_group_id < 2 ^ 32
  pub user : e.user_id < 2 ^ 32
  pub descriptor : FitsSigned 32 e.file_descriptor
  pub result : FitsSigned 64 e.result

word8 : (n : ℕ) → n < 2 ^ 64 → from_le_bytes (to_le_bytes 8 n) ≡ n
word8 n h = omega arith

word4 : (n : ℕ) → n < 2 ^ 32 → from_le_bytes (to_le_bytes 4 n) ≡ n
word4 n h = omega arith

signed32-complement : (z : ℤ) → FitsSigned 32 z → signed 32 (complement 32 z) ≡ z
signed32-complement (pos n) h = ground arith
signed32-complement (negsuc n) h = ground arith

signed64-complement : (z : ℤ) → FitsSigned 64 z → signed 64 (complement 64 z) ≡ z
signed64-complement (pos n) h = ground arith
signed64-complement (negsuc n) h = ground arith

operation_of-code_of :
    (o : KernelOperation) → operation_of (from_le_bytes (to_le_bytes 4 (code_of o))) ≡ some o
operation_of-code_of stream_started = refl
operation_of-code_of stream_stopped = refl
operation_of-code_of device_closed = refl
operation_of-code_of process_exited = refl

low_word : (high low : ℕ) → low < 2 ^ 32 → try_u32 ((high * 2 ^ 32 + low) % 2 ^ 32) ≡ some low
low_word high low h =
    let same : (high * 2 ^ 32 + low) % 2 ^ 32 ≡ low = omega arith in rw same (ground arith)

high_word :
    (high low : ℕ)
    → high < 2 ^ 32
    → low < 2 ^ 32
    → try_u32 ((high * 2 ^ 32 + low) / 2 ^ 32) ≡ some high
high_word high low g h =
    let same : (high * 2 ^ 32 + low) / 2 ^ 32 ≡ high = omega arith in rw same (ground arith)

complement-lt : (z : ℤ) → FitsSigned 32 z → complement 32 z < 2 ^ 32
complement-lt (pos n) h = omega arith
complement-lt (negsuc n) h = omega arith

complement64-lt : (z : ℤ) → FitsSigned 64 z → complement 64 z < 2 ^ 64
complement64-lt (pos n) h = omega arith
complement64-lt (negsuc n) h = omega arith

module _ (group_id : ℕ) (e : KernelEvent) where
  -- A record as the kernel program writes it, on a machine of either byte order, is decoded to the
  -- event that it stands for, when each field fits into its width.
  pub parse_kernel_event-layout :
      (endian : Endian)
      → group_id < 2 ^ 32
      → FitsWords e
      → parse_kernel_event endian (layout endian group_id e) ≡ some e
  unfolding parse_kernel_event
  parse_kernel_event-layout little g h =
      rw
        (
          word8 e.timestamp_ns h.timestamp,
          word8 (e.thread_group_id * 2 ^ 32 + e.process_id) (omega (arith, h.group, h.process)),
          word8 (group_id * 2 ^ 32 + e.user_id) (omega (arith, h.user)),
          word4 (complement 32 e.file_descriptor) (complement-lt e.file_descriptor h.descriptor),
          word8 (complement 64 e.result) (complement64-lt e.result h.result),
          operation_of-code_of e.operation,
          low_word e.thread_group_id e.process_id h.process,
          high_word e.thread_group_id e.process_id h.group h.process,
          low_word group_id e.user_id h.user,
          signed32-complement e.file_descriptor h.descriptor,
          signed64-complement e.result h.result,
        )
        refl
  parse_kernel_event-layout big g h =
      rw
        (
          word8 e.timestamp_ns h.timestamp,
          word8 (e.thread_group_id * 2 ^ 32 + e.process_id) (omega (arith, h.group, h.process)),
          word8 (group_id * 2 ^ 32 + e.user_id) (omega (arith, h.user)),
          word4 (complement 32 e.file_descriptor) (complement-lt e.file_descriptor h.descriptor),
          word8 (complement 64 e.result) (complement64-lt e.result h.result),
          operation_of-code_of e.operation,
          low_word e.thread_group_id e.process_id h.process,
          high_word e.thread_group_id e.process_id h.group h.process,
          low_word group_id e.user_id h.user,
          signed32-complement e.file_descriptor h.descriptor,
          signed64-complement e.result h.result,
        )
        refl
