-- ===== src/OrderedMap/Size.antt =====
-- The number of entries after each operation.
use lensguard.Prelude.{suc, ◌≤◌, ◌≡◌, [], ◌∷◌, some, length, arith}
use lensguard.Order.{Ord}
use lensguard.OrderedMap.{OrderedMap, get, insert, remove}

module _ {ℓ κ} {K : Type ℓ} {V : Type κ} ⦃o : Ord K⦄ where
  pub length-insert-le :
      (k : K) (v : V) (m : OrderedMap K V) → length (insert k v m) ≤ suc (length m)
  unfolding insert
  length-insert-le k v [] = ground arith
  length-insert-le k v ((j, w) ∷ m) = ground (arith, length-insert-le k v m)

  pub length-remove-le : (k : K) (m : OrderedMap K V) → length (remove k m) ≤ length m
  unfolding remove
  length-remove-le k [] = ground arith
  length-remove-le k ((j, w) ∷ m) = ground (arith, length-remove-le k m)

  -- Removing a key that is there leaves fewer.
  pub length-remove-lt :
      (k : K) (v : V) (m : OrderedMap K V) → get k m ≡ some v → suc (length (remove k m)) ≤ length m
  unfolding get remove
  length-remove-lt k v [] h = cc
  length-remove-lt k v ((j, w) ∷ m) h = ground (arith, length-remove-le k m, length-remove-lt k v m)
