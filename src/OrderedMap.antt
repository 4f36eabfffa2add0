-- ===== src/OrderedMap.antt =====
-- `BTreeMap` by its contents: the entries, in the order of their keys.
pub mod Laws
pub mod Sorted
pub mod Removal
pub mod Entries
pub mod AnyValue
pub mod Size
use lensguard.Prelude.{
  Ordering, Bool, true, false, List, [], ◌∷◌, Option, none, some, if◌then◌else◌,
}
use lensguard.Order.{Ord}

abbrev pub OrderedMap {ℓ κ} : Type ℓ → Type κ → Type (ℓ ⊔ κ)
OrderedMap K V = List (K × V)

module _ {ℓ κ} {K : Type ℓ} {V : Type κ} ⦃o : Ord K⦄ where
  -- `BTreeMap::get`
  unfoldable pub get : K → OrderedMap K V → Option V
  get k [] = none
  get k ((j, v) ∷ m) = elim (o.cmp k j) [ Ordering.eq ↦ some v | _ ↦ get k m ]

  -- `BTreeMap::insert`: replaces the entry of the key, or adds one at its place.
  unfoldable pub insert : K → V → OrderedMap K V → OrderedMap K V
  insert k v [] = (k, v) ∷ []
  insert k v ((j, w) ∷ m) = elim (o.cmp k j) [
    | Ordering.lt ↦ (k, v) ∷ (j, w) ∷ m
    | Ordering.eq ↦ (k, v) ∷ m
    | Ordering.gt ↦ (j, w) ∷ insert k v m
  ]

  -- `BTreeMap::remove`: the value it returns is that of `get`.
  unfoldable pub remove : K → OrderedMap K V → OrderedMap K V
  remove k [] = []
  remove k ((j, w) ∷ m) = elim (o.cmp k j) [ Ordering.eq ↦ remove k m | _ ↦ (j, w) ∷ remove k m ]

  -- `BTreeMap::keys` and `BTreeMap::values`, in the order of the keys.
  unfoldable pub keys : OrderedMap K V → List K
  keys [] = []
  keys ((j, w) ∷ m) = j ∷ keys m

  unfoldable pub values : OrderedMap K V → List V
  values [] = []
  values ((j, w) ∷ m) = w ∷ values m
