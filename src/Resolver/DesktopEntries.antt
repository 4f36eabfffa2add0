-- ===== src/Resolver/DesktopEntries.antt =====
-- crates/camera-app-resolver/src/desktop_entry.rs: desktop files, parsed and indexed.
--
-- The file system is an argument, and so are the variables of the environment, read as paths.
pub mod Shadowing
pub mod Groups
use lensguard.Prelude.{
  ℕ, Bool, true, false, not, ◌||◌, List, [], ◌∷◌, ◌++◌, Option, none, some, Text, codes, text_eq,
  ◌==◌, if◌then◌else◌, trim, is_empty, any, find, Result, ok, err, ◌>>=◌, map,
}
use lensguard.Order.{list_ord, nat_ord}
use lensguard.Sorting.{sort_by, dedup_by}
use lensguard.Sorting.Stable.{by_key}
use lensguard.Io.{FileSystem, ErrorKind, not_found}
use lensguard.Paths.{
  FilePath, OsString, normal, join, named, path_of, extension, file_stem, file_name, compare_path,
}
use lensguard.Strings.{split_once, split_whitespace, starts_with, eq_ignore_ascii_case, lines}
use lensguard.Resolver.DesktopIndex.{DesktopEntry, and_then, or_else}
use lensguard.Resolver.Flatpak.{is_header}

-- `DesktopEntryError`
pub data DesktopEntryError : Type 0 where
  read_directory inspect_path read_file : FilePath → ErrorKind → DesktopEntryError

-- `nonempty`
abbrev pub nonempty : Text → Option Text
nonempty value = if is_empty (trim value) then none else some (trim value)

abbrev has_equals : Text → Bool
has_equals word = any (λ c. c == b'=') word

-- The word that names the executable, behind `env` and its variables.
abbrev executable_word : List Text → Option Text
executable_word [] = none
executable_word (first ∷ words) =
    if text_eq first (codes "env") then find (λ word. not (has_equals word)) words else some first

-- `executable_from_exec`
unfoldable pub executable_from_exec : Text → Option Text
executable_from_exec value =
    and_then (executable_word (split_whitespace value))
      (λ executable. and_then (file_name (path_of executable)) nonempty)

-- The variables of `parse_desktop_entry`.
pub record EntryParser : Type 0 where
  pub in_desktop_entry : Bool
  pub name : Option Text
  pub exec : Option Text
  pub flatpak_app_id : Option Text
  pub hidden : Bool

abbrev pub new_parser : EntryParser
new_parser = record {
  in_desktop_entry = false;
  name = none;
  exec = none;
  flatpak_app_id = none;
  hidden = false;
}

-- The `match` on the key.
unfoldable pub set_field : Text → Text → EntryParser → EntryParser
set_field key value p =
    if text_eq key (codes "Name")
    then record p { name = nonempty value }
    else if text_eq key (codes "Exec")
    then record p { exec = executable_from_exec value }
    else if text_eq key (codes "X-Flatpak")
    then record p { flatpak_app_id = nonempty value }
    else if text_eq key (codes "Hidden")
    then record p { hidden = eq_ignore_ascii_case value (codes "true") }
    else p

abbrev set_pair : Option (Text × Text) → EntryParser → EntryParser
set_pair none p = p
set_pair (some pair) p = set_field pair.0 pair.1 p

-- The body of the loop, on a line that is trimmed.
unfoldable pub read_line : Text → EntryParser → EntryParser
read_line line p =
    if is_header line
    then record p { in_desktop_entry = text_eq line (codes "[Desktop Entry]") }
    else if not p.in_desktop_entry || starts_with (codes "#") line
    then p
    else set_pair (split_once b'=' line) p

unfoldable pub read_lines : List Text → EntryParser → EntryParser
read_lines [] p = p
read_lines (raw_line ∷ rest) p = read_lines rest (read_line (trim raw_line) p)

-- What follows the loop.
unfoldable pub finish_entry : FilePath → EntryParser → Option DesktopEntry
finish_entry path p =
    if p.hidden
    then none
    else (and_then (file_stem path) (λ id. and_then p.name (λ name. some (record {
      id = id;
      name = name;
      executable_name = p.exec;
      flatpak_app_id = p.flatpak_app_id;
    }))))

-- `parse_desktop_entry`
unfoldable pub parse_desktop_entry : FilePath → Text → Option DesktopEntry
parse_desktop_entry path contents = finish_entry path (read_lines (lines contents) new_parser)

abbrev is_desktop_file : FilePath → Bool
is_desktop_file path = elim (extension path) [
  | none ↦ false
  | some ext ↦ text_eq ext (codes "desktop")
]

abbrev pub cons_if {ℓ} : {A : Type ℓ} → Bool → A → List A → List A
cons_if true a l = a ∷ l
cons_if false a l = l

-- The items of one directory: the paths of the desktop files.
unfoldable pub inspect_items :
    FilePath → List (Result ErrorKind OsString) → Result DesktopEntryError (List FilePath)
inspect_items path [] = ok []
inspect_items path (err source ∷ rest) = err (inspect_path path source)
inspect_items path (ok name ∷ rest) = do
  files ← inspect_items path rest
  ok (cons_if (is_desktop_file (path ++ normal name ∷ [])) (path ++ normal name ∷ []) files)

module _ (fs : FileSystem) where
  abbrev directory_files :
      FilePath
      → Result ErrorKind (List (Result ErrorKind OsString))
      → Result DesktopEntryError (List FilePath)
  directory_files path (ok items) = inspect_items path items
  directory_files path (err not_found) = ok []
  directory_files path (err source) = err (read_directory path source)

  -- The first loop of `from_paths`.
  unfoldable pub collect_files : List FilePath → Result DesktopEntryError (List FilePath)
  collect_files [] = ok []
  collect_files (path ∷ paths) = do
    files ← directory_files path (fs.read_dir path)
    later ← collect_files paths
    ok (files ++ later)

  abbrev push_entry : Option DesktopEntry → List DesktopEntry → List DesktopEntry
  push_entry none entries = entries
  push_entry (some entry) entries = entry ∷ entries

  abbrev file_contents : FilePath → Result ErrorKind Text → Result DesktopEntryError Text
  file_contents path (ok contents) = ok contents
  file_contents path (err source) = err (read_file path source)

  -- The second loop of `from_paths`.
  unfoldable pub parse_files : List FilePath → Result DesktopEntryError (List DesktopEntry)
  parse_files [] = ok []
  parse_files (path ∷ paths) = do
    contents ← file_contents path (fs.read_to_string path)
    entries ← parse_files paths
    ok (push_entry (parse_desktop_entry path contents) entries)

abbrev pub entry_id : DesktopEntry → Text
entry_id entry = entry.id

-- `from_entries`: sorted by the identifier.
unfoldable pub from_entries : List DesktopEntry → List DesktopEntry
from_entries entries = sort_by (by_key entry_id) entries

-- `XDG_DATA_HOME`, `HOME` and `XDG_DATA_DIRS`, the last one split into its paths.
pub record Environment : Type 0 where
  pub data_home : Option FilePath
  pub home : Option FilePath
  pub data_dirs : Option (List FilePath)

abbrev applications : FilePath → FilePath
applications path = join path (named (codes "applications"))

abbrev pub local_share : Option FilePath → Option FilePath
local_share none = none
local_share (some home) = some (join home (path_of (codes ".local/share")))

abbrev path_list : Option FilePath → List FilePath
path_list none = []
path_list (some path) = path ∷ []

abbrev pub data_dirs_or_default : Option (List FilePath) → List FilePath
data_dirs_or_default none = path_of (codes "/usr/local/share") ∷ path_of (codes "/usr/share") ∷ []
data_dirs_or_default (some paths) = paths

-- `standard_application_paths`
unfoldable pub standard_application_paths : Environment → List FilePath
standard_application_paths env =
    map applications (path_list (or_else env.data_home (local_share env.home)))
    ++ map applications (data_dirs_or_default env.data_dirs)

abbrev pub ok_entries : Result DesktopEntryError (List DesktopEntry) → List DesktopEntry
ok_entries (ok entries) = entries
ok_entries (err _) = []

module _ (fs : FileSystem) where
  -- `from_paths`
  unfoldable pub from_paths : List FilePath → Result DesktopEntryError (List DesktopEntry)
  from_paths paths = do
    files ← collect_files fs paths
    entries ← parse_files fs (sort_by compare_path files)
    ok (from_entries entries)

  -- The entries of the directories that can be read whole, in the order of the directories.
  unfoldable pub readable_entries : List FilePath → List DesktopEntry
  readable_entries [] = []
  readable_entries (path ∷ paths) = ok_entries (from_paths (path ∷ [])) ++ readable_entries paths

  -- `from_standard_paths`
  unfoldable pub from_standard_paths : Environment → List DesktopEntry
  from_standard_paths env =
      dedup_by (λ left right. text_eq left.id right.id)
        (from_entries (readable_entries (standard_application_paths env)))
