-- ===== src/Observer/Bpf.antt =====
-- observer/src/bpf.rs: the kernel program's records, decoded.
--
-- The byte order of the machine is a parameter. `x & u32::MAX` is `x % 2 ^ 32` and `x >> 32` is
-- `x / 2 ^ 32`.
pub mod Layout
pub mod Reader
use lensguard.Prelude.{
  ℕ, zero, suc, ◌+◌, ◌-◌, ◌*◌, ◌/◌, ◌%◌, ◌^◌, Bool, true, false, List, [], ◌∷◌, ◌++◌, Option, none,
  some, ℤ, pos, negsuc, length, take, drop, ltb, leb, ◌==◌, if◌then◌else◌,
}
use lensguard.Daemon.Wire.{u32_max}

pub data KernelOperation : Type 0 where
  stream_started stream_stopped device_closed process_exited : KernelOperation

pub record KernelEvent : Type 0 where
  pub timestamp_ns : ℕ
  pub process_id : ℕ
  pub thread_group_id : ℕ
  pub user_id : ℕ
  pub file_descriptor : ℤ
  pub operation : KernelOperation
  pub result : ℤ

pub data Endian : Type 0 where
  little big : Endian

abbrev pub rev_onto : List ℕ → List ℕ → List ℕ
rev_onto [] acc = acc
rev_onto (b ∷ bs) acc = rev_onto bs (b ∷ acc)

abbrev pub from_le_bytes : List ℕ → ℕ
from_le_bytes [] = 0
from_le_bytes (b ∷ bs) = b + 256 * from_le_bytes bs

-- `u64::from_ne_bytes` and `u32::from_ne_bytes`
abbrev pub from_ne_bytes : Endian → List ℕ → ℕ
from_ne_bytes little bs = from_le_bytes bs
from_ne_bytes big bs = from_le_bytes (rev_onto bs [])

-- The signed number with the two's complement `n` of `w` bits.
abbrev pub signed : ℕ → ℕ → ℤ
signed w n = if ltb n (2 ^ (w - 1)) then pos n else negsuc (2 ^ w - 1 - n)

-- `payload[first..last]`
abbrev pub slice : ℕ → ℕ → List ℕ → List ℕ
slice first last payload = take (last - first) (drop first payload)

abbrev pub operation_of : ℕ → Option KernelOperation
operation_of n =
    if n == 1
    then some stream_started
    else if n == 2
    then some stream_stopped
    else if n == 3
    then some device_closed
    else if n == 4
    then some process_exited
    else none

-- `u32::try_from`
abbrev pub try_u32 : ℕ → Option ℕ
try_u32 n = if leb n u32_max then some n else none

infixl 5 ◌>>=ₒ◌
abbrev pub ◌>>=ₒ◌ {ℓ κ} : {A : Type ℓ} {B : Type κ} → Option A → (A → Option B) → Option B
none >>=ₒ f = none
some a >>=ₒ f = f a

-- `parse_kernel_event`
unfoldable pub parse_kernel_event : Endian → List ℕ → Option KernelEvent
parse_kernel_event endian payload =
    let pid_tgid = from_ne_bytes endian (slice 8 16 payload) in
    let uid_gid = from_ne_bytes endian (slice 16 24 payload) in
    if ltb (length payload) 40
    then none
    else operation_of (from_ne_bytes endian (slice 28 32 payload)) >>=ₒ λ operation.
        try_u32 (pid_tgid % 2 ^ 32) >>=ₒ λ process_id.
        try_u32 (pid_tgid / 2 ^ 32) >>=ₒ λ thread_group_id.
        try_u32 (uid_gid % 2 ^ 32) >>=ₒ λ user_id. some (record {
          timestamp_ns = from_ne_bytes endian (slice 0 8 payload);
          process_id = process_id;
          thread_group_id = thread_group_id;
          user_id = user_id;
          file_descriptor = signed 32 (from_ne_bytes endian (slice 24 28 payload));
          operation = operation;
          result = signed 64 (from_ne_bytes endian (slice 32 40 payload));
        })
