-- ===== src/Resolver/DesktopIndex.antt =====
-- crates/camera-app-resolver/src/desktop_entry.rs: the index of desktop entries.
use lensguard.Strings.{strip_suffix}
use lensguard.Prelude.{Bool, false, ◌||◌, List, Option, none, some, Text, codes, text_eq, find}

pub record DesktopEntry : Type 0 where
  pub id : Text
  pub name : Text
  pub executable_name : Option Text
  pub flatpak_app_id : Option Text

-- `==` on an optional text and one that is there.
abbrev pub is_text : Text → Option Text → Bool
is_text t none = false
is_text t (some u) = text_eq u t

abbrev pub or_else {ℓ} : {A : Type ℓ} → Option A → Option A → Option A
or_else (some a) b = some a
or_else none b = b

abbrev pub and_then {ℓ κ} : {A : Type ℓ} {B : Type κ} → Option A → (A → Option B) → Option B
and_then none f = none
and_then (some a) f = f a

abbrev pub without_suffix : Text → Option Text → Text
without_suffix app_id none = app_id
without_suffix app_id (some stem) = stem

abbrev pub has_id : Text → DesktopEntry → Bool
has_id normalized entry = text_eq entry.id normalized || is_text normalized entry.flatpak_app_id

abbrev pub runs : Text → DesktopEntry → Bool
runs executable_name entry = is_text executable_name entry.executable_name

-- `DesktopEntryIndex::find`
unfoldable pub find_entry : List DesktopEntry → Option Text → Option Text → Option DesktopEntry
find_entry entries app_id executable_name =
    or_else
      (and_then app_id
        (λ id. find (has_id (without_suffix id (strip_suffix (codes ".desktop") id))) entries))
      (and_then executable_name (λ name. find (runs name) entries))
