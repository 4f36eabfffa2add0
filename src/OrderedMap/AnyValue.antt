-- ===== src/OrderedMap/AnyValue.antt =====
-- Whether some value of a map passes a test, through each operation.
use lensguard.Prelude.{
  ◌≡◌, refl, Bool, true, false, not, ◌||◌, ◌&&◌, [], ◌∷◌, map, none, some, arith, any,
}
use lensguard.Order.{Ord}
use lensguard.OrderedMap.{OrderedMap, get, insert, remove, values}
use lensguard.OrderedMap.Sorted.{IsSorted, Above-IsSorted, get_of_Above, Above-lower}
use lensguard.OrderedMap.Removal.{entries_where}
use lensguard.OrderedMap.Laws.{remove_absent}

module _ {ℓ κ} {K : Type ℓ} {V : Type κ} where
  unfoldable pub any_value : (V → Bool) → OrderedMap K V → Bool
  any_value q [] = false
  any_value q ((k, v) ∷ m) = q v || any_value q m

  -- The test holds of one value at most.
  abbrev pub AtMostOne : (V → Bool) → OrderedMap K V → Type 0
  AtMostOne q [] = Unit
  AtMostOne q ((k, v) ∷ m) = (q v ≡ true → any_value q m ≡ false) × AtMostOne q m

module _ {ℓ κ} {K : Type ℓ} {V : Type κ} ⦃o : Ord K⦄ (q : V → Bool) where
  pub any_value-replace :
      (k : K) (s t : V) (m : OrderedMap K V)
      → IsSorted m
      → get k m ≡ some s
      → q t ≡ q s
      → any_value q (insert k t m) ≡ any_value q m
  unfolding any_value insert get
  any_value-replace k s t [] sorted g e = cc
  any_value-replace k s t ((j, u) ∷ m) sorted g e = ground (
    arith,
    get_of_Above k m,
    Above-lower k j m,
    any_value-replace k s t m (Above-IsSorted j m sorted),
  )

  pub any_value-insert_new :
      (k : K) (t : V) (m : OrderedMap K V)
      → get k m ≡ none
      → any_value q (insert k t m) ≡ (q t || any_value q m)
  unfolding any_value insert get
  any_value-insert_new k t [] g = refl
  any_value-insert_new k t ((j, u) ∷ m) g = ground (arith, any_value-insert_new k t m)

  get_passes :
      (k : K) (s : V) (m : OrderedMap K V) → get k m ≡ some s → q s ≡ true → any_value q m ≡ true
  unfolding any_value get
  get_passes k s [] g h = cc
  get_passes k s ((j, u) ∷ m) g h = ground (arith, get_passes k s m)

  pub any_value-remove :
      (k : K) (s : V) (m : OrderedMap K V)
      → IsSorted m
      → AtMostOne q m
      → get k m ≡ some s
      → any_value q (remove k m) ≡ (not (q s) && any_value q m)
  unfolding any_value remove get
  any_value-remove k s [] sorted one g = cc
  any_value-remove k s ((j, u) ∷ m) sorted one g = ground (
    arith,
    o.eq_iff k j,
    remove_absent k m,
    get_of_Above j m sorted,
    one.0,
    get_passes k s m,
    any_value-remove k s m (Above-IsSorted j m sorted) one.1,
  )

  any_value-where-le :
      (p : K → Bool) (m : OrderedMap K V)
      → any_value q m ≡ false
      → any_value q (entries_where p m) ≡ false
  unfolding any_value entries_where
  any_value-where-le p [] h = refl
  any_value-where-le p ((k, s) ∷ m) h = ground (arith, any_value-where-le p m)

  pub any_value-split :
      (p : K → Bool) (m : OrderedMap K V)
      → AtMostOne q m
      → any_value q (entries_where (λ k. not (p k)) m)
        ≡ (not (any_value q (entries_where p m)) && any_value q m)
  unfolding any_value entries_where
  any_value-split p [] one = refl
  any_value-split p ((k, s) ∷ m) one = ground (
    arith,
    one.0,
    any_value-split p m one.1,
    any_value-where-le p m,
    any_value-where-le (λ j. not (p j)) m,
  )

  -- The same test over a list made from the entries.
  pub any-entries {μ} :
      {S : Type μ} (state : S) (m : OrderedMap K V)
      → any (λ (e : V × S). q e.0) (map (λ (entry : K × V). (entry.1, state)) m) ≡ any_value q m
  unfolding any any_value
  any-entries state [] = refl
  any-entries state ((k, s) ∷ m) = ground (arith, any-entries state m)

  pub any-values {μ} :
      {S : Type μ} (state : S) (m : OrderedMap K V)
      → any (λ (e : V × S). q e.0) (map (λ (v : V). (v, state)) (values m)) ≡ any_value q m
  unfolding any any_value values
  any-values state [] = refl
  any-values state ((k, s) ∷ m) = ground (arith, any-values state m)
