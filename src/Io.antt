-- ===== src/Io.antt =====
-- What the operating system answers: the kinds of errors, and the file system as the calls that the
-- code makes of it.
use lensguard.Prelude.{
  ℕ, ◌/◌, ◌%◌, Bool, false, ◌&&◌, List, Option, none, some, Result, ok, err, Text, ◌==◌,
}
use lensguard.Paths.{FilePath, OsString}

-- `io::ErrorKind`, as far as the code tells kinds apart.
pub data ErrorKind : Type 0 where
  not_found permission_denied already_exists invalid_data broken_pipe : ErrorKind
  would_block timed_out unexpected_eof other : ErrorKind

-- `fs::Metadata`
pub record Metadata : Type 0 where
  pub is_file : Bool
  pub is_char_device : Bool
  pub is_socket : Bool
  pub rdev : ℕ
  pub uid : ℕ
  pub mode : ℕ

-- The answers of the file system at one moment, and how a name that is not Unicode is shown.
pub record FileSystem : Type 0 where
  pub read_to_string : FilePath → Result ErrorKind Text
  pub read_link : FilePath → Result ErrorKind FilePath
  pub canonicalize : FilePath → Result ErrorKind FilePath
  pub metadata : FilePath → Result ErrorKind Metadata
  pub symlink_metadata : FilePath → Result ErrorKind Metadata
  pub read_dir : FilePath → Result ErrorKind (List (Result ErrorKind OsString))
  pub to_string_lossy : List ℕ → Text

-- `Result::ok`
abbrev pub ok_value {ℓ κ} : {E : Type ℓ} {A : Type κ} → Result E A → Option A
ok_value (ok a) = some a
ok_value (err e) = none

-- `is_file() && uid() == 0 && mode() & 0o022 == 0`: only root can write the file. The bits of the
-- mask are the fifth and the second from the right.
abbrev pub is_owned_file : Result ErrorKind Metadata → Bool
is_owned_file (err _) = false
is_owned_file (ok m) = m.is_file && m.uid == 0 && m.mode / 16 % 2 == 0 && m.mode / 2 % 2 == 0
