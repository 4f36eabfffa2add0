-- ===== src/OrderedMap/Sorted.antt =====
-- Strict order of the keys: each operation keeps it, and the entry of a key is its only one.
use lensguard.Prelude.{Ordering, ◌≡◌, refl, [], ◌∷◌, none, arith}
use lensguard.Order.{Ord}
use lensguard.OrderedMap.{OrderedMap, get, insert, remove}

module _ {ℓ κ} {K : Type ℓ} {V : Type κ} ⦃o : Ord K⦄ where
  -- Every key of the map is above `k`, and the keys rise.
  abbrev pub Above : K → OrderedMap K V → Type 0
  Above k [] = Unit
  Above k ((j, v) ∷ m) = (o.cmp k j ≡ Ordering.lt) × Above j m

  abbrev pub IsSorted : OrderedMap K V → Type 0
  IsSorted [] = Unit
  IsSorted ((j, v) ∷ m) = Above j m

  pub Above-IsSorted : (k : K) (m : OrderedMap K V) → Above k m → IsSorted m
  Above-IsSorted k [] h = tt
  Above-IsSorted k ((j, v) ∷ m) h = h.1

  pub Above-lower : (k j : K) (m : OrderedMap K V) → o.cmp k j ≡ Ordering.lt → Above j m → Above k m
  Above-lower k j [] h a = tt
  Above-lower k j ((i, v) ∷ m) h a = (o.lt_trans k j i h a.0, a.1)

  pub get_of_Above : (k : K) (m : OrderedMap K V) → Above k m → get k m ≡ none
  unfolding get
  get_of_Above k [] a = refl
  get_of_Above k ((j, v) ∷ m) a = ground (arith, get_of_Above k m (Above-lower k j m a.0 a.1))

  pub Above-insert :
      (i k : K) (v : V) (m : OrderedMap K V)
      → o.cmp i k ≡ Ordering.lt
      → Above i m
      → Above i (insert k v m)
  unfolding insert
  Above-insert i k v [] h a = (h, tt)
  Above-insert i k v ((j, w) ∷ m) h a =
      ground (arith, o.lt_flip j k, o.eq_iff k j, Above-insert j k v m)

  pub IsSorted-insert : (k : K) (v : V) (m : OrderedMap K V) → IsSorted m → IsSorted (insert k v m)
  unfolding insert
  IsSorted-insert k v [] a = tt
  IsSorted-insert k v ((j, w) ∷ m) a =
      ground (arith, o.lt_flip j k, o.eq_iff k j, Above-insert j k v m)

  pub Above-remove : (i k : K) (m : OrderedMap K V) → Above i m → Above i (remove k m)
  unfolding remove
  Above-remove i k [] a = tt
  Above-remove i k ((j, w) ∷ m) a =
      ground (arith, Above-lower i j (remove k m), Above-remove j k m a.1)

  pub IsSorted-remove : (k : K) (m : OrderedMap K V) → IsSorted m → IsSorted (remove k m)
  unfolding remove
  IsSorted-remove k [] a = tt
  IsSorted-remove k ((j, w) ∷ m) a =
      ground (arith, Above-IsSorted j (remove k m), Above-remove j k m a)
