-- ===== src/Sorting.antt =====
-- `slice::sort_by` is a stable sort; any one gives the same list, so the model inserts element by
-- element. `Vec::dedup_by` keeps the first of equal neighbours.
pub mod Stable
pub mod Sorted
use lensguard.Prelude.{ℕ, Bool, true, false, List, [], ◌∷◌, Ordering, if◌then◌else◌}

module _ {ℓ} {A : Type ℓ} (cmp : A → A → Ordering) where
  unfoldable pub insert_sorted : A → List A → List A
  insert_sorted a [] = a ∷ []
  insert_sorted a (b ∷ l) = elim (cmp a b) [ Ordering.gt ↦ b ∷ insert_sorted a l | _ ↦ a ∷ b ∷ l ]

  -- `sort_by`
  unfoldable pub sort_by : List A → List A
  sort_by [] = []
  sort_by (a ∷ l) = insert_sorted a (sort_by l)

module _ {ℓ} {A : Type ℓ} (same : A → A → Bool) where
  -- What is left behind an element that is kept.
  unfoldable pub dedup_behind : A → List A → List A
  dedup_behind last [] = []
  dedup_behind last (a ∷ l) = elim (same a last) [
    | true ↦ dedup_behind last l
    | false ↦ a ∷ dedup_behind a l
  ]

  -- `dedup_by`
  unfoldable pub dedup_by : List A → List A
  dedup_by [] = []
  dedup_by (a ∷ l) = a ∷ dedup_behind a l
