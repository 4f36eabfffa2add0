-- ===== src/Observer/Identity/DeviceNumber.antt =====
-- Device numbers as the kernel encodes them.
use lensguard.Prelude.{ℕ, ◌+◌, ◌*◌, ◌/◌, ◌%◌, ◌^◌, ◌<◌, ◌≡◌, arith}
use lensguard.Observer.Identity.{linux_major, linux_minor}

-- `makedev`: the low parts of the two numbers in the low half, the high parts outside them.
abbrev pub makedev : ℕ → ℕ → ℕ
makedev major minor =
    minor % 2 ^ 8 + major % 2 ^ 12 * 2 ^ 8 + minor / 2 ^ 8 * 2 ^ 20 + major / 2 ^ 12 * 2 ^ 44

-- The two numbers of a device, of 32 bits each, are read back from the kernel's encoding.
pub linux_major-makedev :
    (major minor : ℕ)
    → major < 2 ^ 32
    → minor < 2 ^ 32
    → (linux_major (makedev major minor) ≡ major) × (linux_minor (makedev major minor) ≡ minor)
unfolding linux_major linux_minor
linux_major-makedev major minor h k = ground arith
