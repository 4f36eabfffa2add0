-- ===== src/Resolver/Flatpak.antt =====
-- crates/camera-app-resolver/src/flatpak.rs: the identifier of an application in a sandbox.
pub mod Scopes
use lensguard.Prelude.{
  ℕ, zero, Bool, true, false, not, ◌&&◌, List, [], ◌∷◌, Option, none, some, Text, codes, text_eq,
  ◌==◌, if◌then◌else◌, trim, is_empty, find_map,
}
use lensguard.Strings.{
  strip_prefix, strip_suffix, starts_with, ends_with, rsplit_once, after_last, lines, replace_from,
}
use lensguard.Resolver.DesktopIndex.{or_else, and_then}

-- `line.starts_with('[') && line.ends_with(']')`
abbrev pub is_header : Text → Bool
is_header line = starts_with (codes "[") line && ends_with b']' line

-- The name that a line of the group `[Application]` gives.
abbrev info_name : Text → Option Text
info_name line =
    and_then (strip_prefix (codes "name=") line)
      (λ value. if is_empty (trim value) then none else some (trim value))

-- The loop of `app_id_from_flatpak_info`.
unfoldable pub info_loop : Bool → List Text → Option Text
info_loop in_application [] = none
info_loop in_application (raw_line ∷ rest) =
    let line = trim raw_line in
    elim (is_header line) [
      | true ↦ info_loop (text_eq line (codes "[Application]")) rest
      | false ↦ elim (if in_application then info_name line else none) [
        | some name ↦ some name
        | none ↦ info_loop in_application rest
      ]
    ]

-- `app_id_from_flatpak_info`
unfoldable pub app_id_from_flatpak_info : Text → Option Text
app_id_from_flatpak_info contents = info_loop false (lines contents)

-- `unescape_systemd`
unfoldable pub unescape_systemd : Text → Text
unescape_systemd value =
    replace_from zero (codes "\\x2e") (codes ".")
      (replace_from zero (codes "\\x2d") (codes "-") value)

abbrev encoded_id : Text × Text → Option Text
encoded_id (app_id, instance_id) =
    if not (is_empty app_id) && not (is_empty instance_id)
    then some (unescape_systemd app_id)
    else none

-- What the name of a unit says.
unfoldable pub unit_app_id : Text → Option Text
unit_app_id unit =
    and_then
      (or_else (strip_prefix (codes "app-flatpak-") unit) (strip_prefix (codes "flatpak-") unit))
      (λ tail.
        and_then (strip_suffix (codes ".scope") tail)
          (λ encoded. and_then (rsplit_once b'-' encoded) encoded_id))

-- `app_id_from_cgroup`: the path behind a line's last colon, and its last part.
unfoldable pub app_id_from_cgroup : Text → Option Text
app_id_from_cgroup contents =
    find_map (λ line. unit_app_id (after_last b'/' (after_last b':' line))) (lines contents)
