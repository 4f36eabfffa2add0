-- ===== src/OrderedMap/Laws.antt =====
-- What `get` reads after each operation.
use lensguard.Prelude.{
  Ordering, ◌≡◌, refl, ◌↔◌, Bool, true, false, [], ◌∷◌, none, some, arith, if◌then◌else◌,
}
use lensguard.Order.{Ord}
use lensguard.OrderedMap.{OrderedMap, get, insert, remove}

-- `k == j` by the order.
abbrev pub same {ℓ} : {K : Type ℓ} ⦃o : Ord K⦄ → K → K → Bool
same ⦃o⦄ k j = elim (o.cmp k j) [ Ordering.eq ↦ true | _ ↦ false ]

pub same_iff {ℓ} : {K : Type ℓ} ⦃o : Ord K⦄ (k j : K) → (same k j ≡ true) ↔ (k ≡ j)
same_iff ⦃o⦄ k j = ground (arith, o.eq_iff k j)

module _ {ℓ κ} {K : Type ℓ} {V : Type κ} ⦃o : Ord K⦄ where
  pub get-insert :
      (k j : K) (v : V) (m : OrderedMap K V)
      → get j (insert k v m) ≡ (if same j k then some v else get j m)
  unfolding get insert
  get-insert k j v [] = ground arith
  get-insert k j v ((i, w) ∷ m) =
      ground (arith, get-insert k j v m, o.eq_iff k i, o.eq_iff j k, o.eq_iff j i)

  pub get-remove :
      (k j : K) (m : OrderedMap K V) → get j (remove k m) ≡ (if same j k then none else get j m)
  unfolding get remove
  get-remove k j [] = ground arith
  get-remove k j ((i, w) ∷ m) =
      ground (arith, get-remove k j m, o.eq_iff k i, o.eq_iff j k, o.eq_iff j i)

  pub get-insert_self : (k : K) (v : V) (m : OrderedMap K V) → get k (insert k v m) ≡ some v
  get-insert_self k v m = ground (arith, get-insert k k v m, o.eq_iff k k)

  -- What is absent is not removed, and what is stored already is not inserted.
  pub remove_absent : (k : K) (m : OrderedMap K V) → get k m ≡ none → remove k m ≡ m
  unfolding get remove
  remove_absent k [] h = refl
  remove_absent k ((j, w) ∷ m) h = ground (arith, remove_absent k m)
