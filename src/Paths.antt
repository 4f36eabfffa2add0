-- ===== src/Paths.antt =====
-- `std::path::Path` and `OsStr`: a path is its components, as `Path` compares them.
use mathlib.Core.Bool.{decide}
use lensguard.Prelude.{
  map, Ordering, ℕ, Bool, true, false, List, [], ◌∷◌, ◌++◌, Option, none, some, Text, ℕ_discrete,
  codes, text_eq, is_empty, ◌==◌, if◌then◌else◌,
}
use lensguard.Strings.{rsplit_once, utf8}
use lensguard.Order.{compare_list, pair_ord, nat_ord, list_ord}

-- The name of a file: valid Unicode or not.
pub data OsString : Type 0 where
  unicode : Text → OsString
  other : List ℕ → OsString

pub data Component : Type 0 where
  root_dir cur_dir parent_dir : Component
  normal : OsString → Component

abbrev pub FilePath : Type 0
FilePath = List Component

unfoldable pub FilePath-discrete : Discrete FilePath
FilePath-discrete = hlevel ℕ_discrete

-- `==` on paths.
unfoldable pub path_eq : FilePath → FilePath → Bool
unfolding FilePath-discrete
path_eq a b = decide (FilePath-discrete a b)

-- `path.file_name().and_then(to_str)`: the last component, if it is a name in Unicode.
unfoldable pub file_name : FilePath → Option Text
file_name [] = none
file_name (normal (unicode name) ∷ []) = some name
file_name (c ∷ []) = none
file_name (c ∷ d ∷ path) = file_name (d ∷ path)

-- `Path::parent`, by the components: what is in front of the last one, unless that is the root.
unfoldable pub parent : FilePath → Option FilePath
parent [] = none
parent (root_dir ∷ []) = none
parent (c ∷ []) = some []
parent (c ∷ d ∷ path) = elim (parent (d ∷ path)) [ none ↦ some (c ∷ []) | some p ↦ some (c ∷ p) ]

abbrev is_absolute : FilePath → Bool
is_absolute (root_dir ∷ _) = true
is_absolute _ = false

abbrev without_cur_dir : FilePath → FilePath
without_cur_dir (cur_dir ∷ path) = path
without_cur_dir path = path

-- `Path::join`: an absolute path replaces the one that it is joined to, and a dot at its head is
-- dropped, unless it comes to stand at the head of the whole.
unfoldable pub join : FilePath → FilePath → FilePath
join [] path = path
join (c ∷ base) path = if is_absolute path then path else c ∷ (base ++ without_cur_dir path)

abbrev pub named : Text → FilePath
named name = normal (unicode name) ∷ []

-- The parts of a text between slashes.
unfoldable pub segments : Text → List Text
segments [] = [] ∷ []
segments (c ∷ s) = elim (segments s) [
  | [] ↦ []
  | part ∷ parts ↦ if c == b'/' then [] ∷ part ∷ parts else (c ∷ part) ∷ parts
]

-- The component of a part behind the head: empty parts and dots are dropped.
abbrev pub component : Text → FilePath
component part =
    if is_empty part
    then []
    else if text_eq part (codes ".")
    then []
    else if text_eq part (codes "..")
    then parent_dir ∷ []
    else named part

unfoldable pub components : List Text → FilePath
components [] = []
components (part ∷ parts) = component part ++ components parts

-- `Path::new` of a text: an empty first part is the root, and a dot at the head counts.
abbrev head_component : Text → List Text → FilePath
head_component [] [] = []
head_component [] (_ ∷ _) = root_dir ∷ []
head_component part _ = if text_eq part (codes ".") then cur_dir ∷ [] else component part

abbrev of_segments : List Text → FilePath
of_segments [] = []
of_segments (part ∷ parts) = head_component part parts ++ components parts

unfoldable pub path_of : Text → FilePath
path_of text = of_segments (segments text)

-- The name before and after its last dot, if it has one that is not its first character.
abbrev split_extension : List ℕ → List ℕ × Option (List ℕ)
split_extension name = elim (rsplit_once b'.' name) [
  | none ↦ (name, none)
  | some parts ↦ if is_empty parts.0 then (name, none) else (parts.0, some parts.1)
]

abbrev pub last_name : FilePath → Option OsString
last_name [] = none
last_name (normal name ∷ []) = some name
last_name (c ∷ []) = none
last_name (c ∷ d ∷ path) = last_name (d ∷ path)

-- `Path::extension`, as its bytes or characters.
unfoldable pub extension : FilePath → Option (List ℕ)
extension path = elim (last_name path) [
  | none ↦ none
  | some (unicode name) ↦ (split_extension name).1
  | some (other bytes) ↦ (split_extension bytes).1
]

-- `path.file_stem()?.to_str()`, of a name whose extension is Unicode.
unfoldable pub file_stem : FilePath → Option Text
file_stem path = elim (last_name path) [
  | some (unicode name) ↦ some (split_extension name).0
  | _ ↦ none
]

-- `Ord` on paths: component by component, names by their bytes.
abbrev name_bytes : OsString → List ℕ
name_bytes (unicode name) = utf8 name
name_bytes (other bytes) = bytes

abbrev component_key : Component → ℕ × List ℕ
component_key root_dir = (0, [])
component_key cur_dir = (1, [])
component_key parent_dir = (2, [])
component_key (normal name) = (3, name_bytes name)

unfoldable pub compare_path : FilePath → FilePath → Ordering
compare_path a b = compare_list (map component_key a) (map component_key b)
