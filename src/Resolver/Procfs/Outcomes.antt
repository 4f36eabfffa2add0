-- ===== src/Resolver/Procfs/Outcomes.antt =====
-- When the reader of processes fails.
use lensguard.Prelude.{
  ℕ, ◌≡◌, ◌>>=◌, Option, none, some, codes, Result, ok, err, map_err, Result-cases, inl, inr,
}
use lensguard.Io.{FileSystem}
use lensguard.Paths.{FilePath, join, named}
use lensguard.Resolver.Procfs.{process_dir, read_process, map_error}

-- `Result::err`
abbrev pub error_of {ℓ κ} : {E : Type ℓ} {A : Type κ} → Result E A → Option E
error_of (ok a) = none
error_of (err e) = some e

-- Whether and how a process cannot be read is decided by its directory and its name alone: the
-- first of the two that fails gives the error, with its path, and a file system in which both can
-- be read gives a snapshot, whatever fails of the executable, the sandbox and the groups.
pub error-read_process :
    (fs : FileSystem) (root : FilePath) (pid : ℕ)
    → error_of (read_process fs root pid)
      ≡ error_of (
          map_err (map_error pid (process_dir root pid)) (fs.metadata (process_dir root pid))
          >>= λ _.
              map_err
                (map_error pid (join (process_dir root pid) (named (codes "comm"))))
                (fs.read_to_string (join (process_dir root pid) (named (codes "comm")))))
unfolding read_process
error-read_process fs root pid = elim (Result-cases (fs.metadata (process_dir root pid))) [
  | inl (m, found) ↦
      elim (Result-cases (fs.read_to_string (join (process_dir root pid) (named (codes "comm"))))) [
        | inl (comm, got) ↦ rw (found, got)
        | inr (e, failed) ↦ rw (found, failed)
      ]
  | inr (e, gone) ↦ rw gone
]
