-- ===== src/Tests/LookupTests.antt =====
-- The theorems on what is looked up in files, at concrete files.
use lensguard.Prelude.{
  map, ℕ, zero, suc, ap, ◌≡◌, refl, true, [], ◌∷◌, ◌++◌, List, none, some, Text, codes, text_eq, ok,
  err, find, arith, is_whitespace, trim, trim_end, trim_start, keep_before, All,
}
use lensguard.Decimal.{show_into, show}
use lensguard.Io.{FileSystem, invalid_data, not_found}
use lensguard.Paths.{FilePath, join, unicode, path_of, named}
use lensguard.Sorting.Sorted.{Climbs}
use lensguard.Order.{list_ord, nat_ord}
use lensguard.Strings.{lines, strip_prefix, ends_with}
use lensguard.Observer.Messages.{RoutedMessage}
use lensguard.Observer.Events.{Wake, event, tick, process_kernel_events}
use lensguard.Observer.Startup.{start_up, processor}
use lensguard.Observer.Identity.{start_time_of, linux_major, linux_minor}
use lensguard.Observer.Identity.DeviceNumber.{makedev, linux_major-makedev}
use lensguard.Observer.Identity.StartTime.{IsField, spaced, start_time_of-stat}
use lensguard.Observer.Lookup.{look_up, IsUnreadable, IsElsewhere, process_kernel_events-unreadable}
use lensguard.Resolver.Flatpak.{app_id_from_cgroup, is_header}
use lensguard.Resolver.Flatpak.Scopes.{scope, cgroup_line, app_id_from_cgroup-scope}
use lensguard.Resolver.DesktopIndex.{or_else}
use lensguard.Resolver.DesktopEntries.{
  from_paths, ok_entries, local_share, data_dirs_or_default, Environment, entry_id,
  from_standard_paths, readable_entries, parse_desktop_entry,
}
use lensguard.Resolver.DesktopEntries.Shadowing.{from_standard_paths-first}
use lensguard.Resolver.DesktopEntries.Groups.{IsForeign, parse_desktop_entry-foreign}
use lensguard.Tests.ObserverTests.{raw}

abbrev desktop_text : Text
desktop_text = codes "[Desktop Entry]\nName=A\n"

-- No file can be read.
abbrev files : FileSystem
files = record {
  read_to_string = λ path. err invalid_data;
  read_link = λ path. err not_found;
  canonicalize = λ path. err not_found;
  metadata = λ path. err not_found;
  symlink_metadata = λ path. err not_found;
  read_dir = λ path. err not_found;
  to_string_lossy = λ bytes. bytes;
}

abbrev environment : Environment
environment = record { data_home = none; home = some (path_of (codes "/home/u")); data_dirs = none }

-- Each directory holds the same desktop file.
abbrev desktops : FileSystem
desktops = record files {
  read_to_string = λ path. ok desktop_text;
  read_dir = λ path. ok (ok (unicode (codes "a.desktop")) ∷ []);
}

-- The user's directory of the environment.
abbrev share : FilePath
share = join (path_of (codes "/home/u")) (path_of (codes ".local/share"))

user_share : or_else environment.data_home (local_share environment.home) ≡ some share
user_share = refl

from_standard_paths-first_example :
    Climbs entry_id (from_standard_paths desktops environment)
    × (find (λ entry. text_eq entry.id (codes "a")) (from_standard_paths desktops environment)
        ≡ find
            (λ entry. text_eq entry.id (codes "a"))
            (ok_entries (from_paths desktops (join share (named (codes "applications")) ∷ []))
              ++ readable_entries desktops (
                  map
                    (λ path. join path (named (codes "applications")))
                    (data_dirs_or_default environment.data_dirs))))
from_standard_paths-first_example =
    from_standard_paths-first desktops environment share (codes "a") user_share

abbrev reported : List Wake
reported = event raw (look_up files none raw) ∷ tick (λ path. true) ∷ []

unreadable : All (IsUnreadable raw.thread_group_id) reported
unreadable = ((files, none, refl, λ same. (invalid_data, refl)), (tt, tt))

process_kernel_events-unreadable_example :
    All
      (λ (m : RoutedMessage). IsElsewhere raw.thread_group_id m.message)
      (process_kernel_events reported (processor (start_up (err []) (ok tt)))).shared.messages
process_kernel_events-unreadable_example =
    process_kernel_events-unreadable (err []) (ok tt) raw.thread_group_id reported unreadable

abbrev one : Text
one = codes "1"

abbrev ones : ℕ → List Text → List Text
ones zero rest = rest
ones (suc n) rest = one ∷ ones n rest

one-IsField : IsField one
unfolding is_whitespace
one-IsField = (refl, (refl, tt), (refl, tt))

last-IsField : IsField (codes "775")
unfolding is_whitespace
last-IsField = (refl, (refl, (refl, (refl, tt))), (refl, (refl, (refl, tt))))

ones-IsField : (n : ℕ) (rest : List Text) → All IsField rest → All IsField (ones n rest)
ones-IsField zero rest h = h
ones-IsField (suc n) rest h = (one-IsField, ones-IsField n rest h)

abbrev twenty_fields : List Text
twenty_fields = ones 19 (codes "775" ∷ [])

shown : codes "775" ≡ show 775
unfolding show show_into
shown = refl

-- A process that calls itself `) R (`.
start_time_of-stat_example :
    start_time_of (codes "42 () R (" ++ b')' ∷ spaced twenty_fields) ≡ ok 775
start_time_of-stat_example =
    start_time_of-stat (codes "42 () R (") twenty_fields 775
      (ones-IsField 19 (codes "775" ∷ []) (last-IsField, tt)) (ap some shown) (omega arith)
      (omega arith)

app_id_from_cgroup-scope_example :
    app_id_from_cgroup (
      cgroup_line (codes "0:") (codes "/app.slice") (scope (codes "org.a-b") (codes "17"))
      ++ 10 ∷ codes "1::/")
    ≡ some (codes "org.a-b")
app_id_from_cgroup-scope_example =
    app_id_from_cgroup-scope (codes "0:") (codes "/app.slice") (codes "org.a-b") (codes "17")
      (codes "1::/") (ground arith) (ground arith) (ground arith) (ground arith) (ground arith) refl
      refl (ground arith, ground arith, ground arith, ground arith)
      (ground arith, ground arith, ground arith, ground arith) (ground arith) (ground arith)

-- A file with an action behind its entry.
abbrev action : Text
action = codes "[Desktop Action new]\nName=B"

abbrev action_header : Text
action_header = codes "[Desktop Action new]"

action-lines : lines action ≡ action_header ∷ codes "Name=B" ∷ []
unfolding lines
action-lines = refl

action-header : is_header (trim action_header) ≡ true
unfolding trim is_whitespace strip_prefix trim_end trim_start keep_before ends_with
action-header = refl

header-IsForeign : IsForeign action_header
unfolding trim is_whitespace text_eq trim_end trim_start keep_before
header-IsForeign = refl

name-IsForeign : IsForeign (codes "Name=B")
unfolding trim is_whitespace text_eq trim_end trim_start keep_before
name-IsForeign = refl

parse_desktop_entry-foreign_example :
    parse_desktop_entry
      (path_of (codes "/a.desktop"))
      (codes "[Desktop Entry]\nName=A" ++ 10 ∷ action)
    ≡ parse_desktop_entry
        (path_of (codes "/a.desktop"))
        (codes "[Desktop Entry]\nName=A" ++ 10 ∷ [])
parse_desktop_entry-foreign_example =
    parse_desktop_entry-foreign (path_of (codes "/a.desktop")) (codes "[Desktop Entry]\nName=A")
      action action_header (codes "Name=B" ∷ []) action-lines action-header header-IsForeign
      (name-IsForeign, tt)

linux_major-makedev_example :
    (linux_major (makedev 81 300) ≡ 81) × (linux_minor (makedev 81 300) ≡ 300)
linux_major-makedev_example = linux_major-makedev 81 300 (omega arith) (omega arith)
