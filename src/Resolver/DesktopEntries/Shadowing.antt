-- ===== src/Resolver/DesktopEntries/Shadowing.antt =====
-- Which of several desktop entries with one identifier counts.
use lensguard.Paths.{FilePath, join, named}
use lensguard.Resolver.DesktopIndex.{or_else}
use lensguard.Prelude.{
  refl, ap, some, codes, [], ◌∷◌, ◌++◌, map, ◌≡◌, sym, ◌∙◌, true, Text, text_eq, text_eq_iff, find,
}
use lensguard.Order.{list_ord, nat_ord}
use lensguard.Sorting.Stable.{find-sort_by, find-dedup_by}
use lensguard.Sorting.Sorted.{Climbs, dedup_by-Climbs}
use lensguard.Io.{FileSystem}
use lensguard.Resolver.DesktopEntries.{
  Environment, entry_id, from_entries, standard_application_paths, readable_entries,
  from_standard_paths, from_paths, ok_entries, local_share, data_dirs_or_default,
}

same_id : (id j k : Text) → text_eq j id ≡ true → text_eq k id ≡ true → j ≡ k
same_id id j k p q = (text_eq_iff j id).0 p ∙ sym ((text_eq_iff k id).0 q)

from_standard_paths-order :
    (fs : FileSystem) (env : Environment)
    → Climbs entry_id (from_standard_paths fs env)
      × ((id : Text)
          → find (λ entry. text_eq entry.id id) (from_standard_paths fs env)
            ≡ find
                (λ entry. text_eq entry.id id)
                (readable_entries fs (standard_application_paths env)))
unfolding from_standard_paths from_entries
from_standard_paths-order fs env =
    let found = readable_entries fs (standard_application_paths env) in
    (
      dedup_by-Climbs entry_id text_eq text_eq_iff found,
      λ id.
          find-dedup_by entry_id (λ k. text_eq k id) (same_id id) text_eq text_eq_iff
            (from_entries found)
          ∙ find-sort_by entry_id (λ k. text_eq k id) (same_id id) found,
    )

user_first :
    (env : Environment) (home : FilePath)
    → or_else env.data_home (local_share env.home) ≡ some home
    → standard_application_paths env
      ≡ join home (named (codes "applications"))
        ∷ map
            (λ path. join path (named (codes "applications")))
            (data_dirs_or_default env.data_dirs)
unfolding standard_application_paths
user_first env home h = rw h refl

-- The standard index holds an identifier at most once, in rising order, and for each identifier the
-- first entry that there is, by directories: the user's, which `XDG_DATA_HOME` or else `HOME` gives,
-- and then those of `XDG_DATA_DIRS`, in its order, or without it `/usr/local/share` and
-- `/usr/share`. A directory that cannot be read whole gives no entries, and a file that is hidden or
-- without a name gives none.
pub from_standard_paths-first :
    (fs : FileSystem) (env : Environment) (home : FilePath) (id : Text)
    → or_else env.data_home (local_share env.home) ≡ some home
    → Climbs entry_id (from_standard_paths fs env)
      × (find (λ entry. text_eq entry.id id) (from_standard_paths fs env)
          ≡ find
              (λ entry. text_eq entry.id id)
              (ok_entries (from_paths fs (join home (named (codes "applications")) ∷ []))
                ++ readable_entries fs (
                    map
                      (λ path. join path (named (codes "applications")))
                      (data_dirs_or_default env.data_dirs))))
unfolding readable_entries
from_standard_paths-first fs env home id h =
    let (climbs, first) = from_standard_paths-order fs env in
    (
      climbs,
      first id
          ∙ ap (λ paths. find (λ entry. text_eq entry.id id) (readable_entries fs paths))
              (user_first env home h),
    )
