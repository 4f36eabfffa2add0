-- ===== src/Resolver/Identity.antt =====
-- crates/camera-app-resolver/src/resolver.rs, `resolve_uncached`: the identity from what is known.
pub mod Texts
use lensguard.Prelude.{
  ℕ, ◌≡◌, refl, ◌⊎◌, inl, inr, Bool, true, false, ◌||◌, List, [], ◌∷◌, Option, none, some, Text,
  find, text_eq, any, if◌then◌else◌, arith, Bool-cases, Option-cases, is_whitespace, is_control,
  is_empty, length,
}
use lensguard.Paths.{FilePath, file_name}
use lensguard.Core.Model.{ApplicationIdentity}
use lensguard.Resolver.Request.{ResolutionRequest, unknown_application}
use lensguard.Resolver.PlainText.{plain_text, looks_like_app_id}
use lensguard.Resolver.DesktopIndex.{DesktopEntry, is_text, or_else, and_then, find_entry}

-- `ProcessSnapshot`
pub record ProcessSnapshot : Type 0 where
  pub process_name : Option Text
  pub executable : Option FilePath
  pub flatpak_app_id : Option Text

abbrev pub only_app_id : Text → Option Text
only_app_id name = if looks_like_app_id name then some name else none

abbrev pub metadata_name : ResolutionRequest → Option Text
metadata_name request = and_then request.metadata_display_name plain_text

abbrev pub app_id_of : ResolutionRequest → Option ProcessSnapshot → Option Text
app_id_of request process = or_else (and_then request.app_id plain_text) (
    or_else (and_then (and_then process (λ p. p.flatpak_app_id)) plain_text)
      (and_then (metadata_name request) only_app_id))

abbrev pub executable_name : Option ProcessSnapshot → Option Text
executable_name process =
    and_then (and_then (and_then process (λ p. p.executable)) file_name) plain_text

abbrev pub process_name : Option ProcessSnapshot → Option Text
process_name process = and_then (and_then process (λ p. p.process_name)) plain_text

abbrev pub binary_of : ResolutionRequest → Option ProcessSnapshot → Option Text
binary_of request process =
    or_else (and_then request.binary plain_text)
      (or_else (executable_name process) (process_name process))

abbrev pub entry_name : Option DesktopEntry → Option Text
entry_name none = none
entry_name (some entry) = some entry.name

-- `metadata_is_machine_label`
abbrev pub is_machine_label : Option Text → Option Text → Option Text → Bool
is_machine_label none app_id binary = false
is_machine_label (some name) app_id binary =
    is_text name app_id || is_text name binary || looks_like_app_id name

abbrev pub unwrap_or_unknown : Option Text → Text
unwrap_or_unknown none = unknown_application
unwrap_or_unknown (some name) = name

-- The name to show: a machine's label gives way to the desktop entry's name, any other name does not.
abbrev pub preferred_name : Bool → Option Text → Option Text → Option Text
preferred_name true metadata entry = or_else entry metadata
preferred_name false metadata entry = or_else metadata entry

-- `resolve_uncached`
unfoldable pub resolve_uncached :
    List DesktopEntry → ResolutionRequest → Option ProcessSnapshot → ApplicationIdentity
resolve_uncached entries request process =
    let metadata = metadata_name request in
    let app_id = app_id_of request process in
    let binary = binary_of request process in
    let entry =
      find_entry entries app_id
        (or_else binary (or_else (process_name process) (executable_name process))) in
    record {
      pid = request.pid;
      app_id = app_id;
      display_name = unwrap_or_unknown (
          or_else
            (preferred_name (is_machine_label metadata app_id binary) metadata (entry_name entry))
            (or_else (process_name process)
              (or_else (executable_name process) (or_else binary app_id))));
      binary = binary;
    }
