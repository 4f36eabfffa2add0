-- ===== src/Resolver/Procfs.antt =====
-- crates/camera-app-resolver/src/procfs.rs: what is read of a process.
pub mod Outcomes
use lensguard.Prelude.{
  ℕ, ◌++◌, Option, none, some, Text, codes, Result, ok, err, ◌>>=◌, ◌>>◌, map_err, trim, is_empty,
  if◌then◌else◌,
}
use lensguard.Decimal.{show}
use lensguard.Io.{FileSystem, ErrorKind, not_found, permission_denied, ok_value, Metadata}
use lensguard.Paths.{FilePath, join, named, path_of}
use lensguard.Resolver.DesktopIndex.{or_else, and_then}
use lensguard.Resolver.Flatpak.{app_id_from_flatpak_info, app_id_from_cgroup}
use lensguard.Resolver.Identity.{ProcessSnapshot}

-- `ProcfsError`
pub data ProcfsError : Type 0 where
  missing_process denied : ℕ → FilePath → ProcfsError
  read : ℕ → FilePath → ErrorKind → ProcfsError

-- `map_error`
unfoldable pub map_error : ℕ → FilePath → ErrorKind → ProcfsError
map_error pid path not_found = missing_process pid path
map_error pid path permission_denied = denied pid path
map_error pid path source = read pid path source

abbrev pub nonempty_name : Text → Option Text
nonempty_name value = if is_empty value then none else some value

-- The process's directory below the root of the reader.
abbrev pub process_dir : FilePath → ℕ → FilePath
process_dir root pid = join root (named (show pid))

abbrev pub flatpak_id : Option Text → Option Text → Option Text
flatpak_id flatpak_info cgroup =
    or_else (and_then flatpak_info app_id_from_flatpak_info) (and_then cgroup app_id_from_cgroup)

-- `ProcfsReader::read_process`
unfoldable pub read_process : FileSystem → FilePath → ℕ → Result ProcfsError ProcessSnapshot
read_process fs root pid = do
  let dir = process_dir root pid
  _ ← map_err (map_error pid dir) (fs.metadata dir)
  comm ←
      map_err (map_error pid (join dir (named (codes "comm"))))
        (fs.read_to_string (join dir (named (codes "comm"))))
  let flatpak_info = ok_value (fs.read_to_string (join dir (path_of (codes "root/.flatpak-info"))))
  let cgroup = ok_value (fs.read_to_string (join dir (named (codes "cgroup"))))
  ok (record {
    process_name = nonempty_name (trim comm);
    executable = ok_value (fs.read_link (join dir (named (codes "exe"))));
    flatpak_app_id = flatpak_id flatpak_info cgroup;
  })
