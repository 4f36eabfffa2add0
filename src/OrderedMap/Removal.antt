-- ===== src/OrderedMap/Removal.antt =====
-- The loop `for key in keys { map.remove(&key) }` over keys that a test picked from the map.
use lensguard.Prelude.{
  Ordering, ◌≡◌, refl, Bool, not, List, [], ◌∷◌, Option, none, some, arith, filter, All,
  if◌then◌else◌,
}
use lensguard.Order.{Ord}
use lensguard.OrderedMap.{false, OrderedMap, get, remove, keys}
use lensguard.OrderedMap.Sorted.{Above, IsSorted, Above-IsSorted, Above-lower, get_of_Above}
use lensguard.OrderedMap.Laws.{remove_absent}

module _ {ℓ κ} {K : Type ℓ} {V : Type κ} ⦃o : Ord K⦄ where
  abbrev put_first : Option V → K → OrderedMap K V × List (K × V) → OrderedMap K V × List (K × V)
  put_first none k r = r
  put_first (some v) k r = (r.0, (k, v) ∷ r.1)

  -- What is left, and the removed entries in the order of the keys given.
  unfoldable pub take_each : List K → OrderedMap K V → OrderedMap K V × List (K × V)
  take_each [] m = (m, [])
  take_each (k ∷ ks) m = put_first (get k m) k (take_each ks (remove k m))

  -- The entries whose keys pass the test.
  unfoldable pub entries_where : (K → Bool) → OrderedMap K V → OrderedMap K V
  entries_where p [] = []
  entries_where p ((k, v) ∷ m) = let rest = entries_where p m in if p k then (k, v) ∷ rest else rest

  skip_head :
      (ks : List K) (j : K) (w : V) (m : OrderedMap K V)
      → All (λ k. o.cmp j k ≡ Ordering.lt) ks
      → take_each ks ((j, w) ∷ m) ≡ ((j, w) ∷ (take_each ks m).0, (take_each ks m).1)
  unfolding take_each get remove
  skip_head [] j w m a = refl
  skip_head (k ∷ ks) j w m a = ground (arith, o.lt_flip j k, skip_head ks j w (remove k m) a.1)

  keys-Above :
      (p : K → Bool) (j : K) (m : OrderedMap K V)
      → Above j m
      → All (λ k. o.cmp j k ≡ Ordering.lt) (filter p (keys m))
  unfolding filter keys
  keys-Above p j [] a = tt
  keys-Above p j ((k, w) ∷ m) a = ground (arith, keys-Above p j m (Above-lower j k m a.0 a.1))

  -- In a sorted map the loop splits the map in two by the test.
  pub take_each-filter :
      (p : K → Bool) (m : OrderedMap K V)
      → IsSorted m
      → take_each (filter p (keys m)) m ≡ (entries_where (λ k. not (p k)) m, entries_where p m)
  unfolding take_each entries_where filter keys get remove
  take_each-filter p [] s = refl
  take_each-filter p ((j, w) ∷ m) s = ground (
    arith,
    o.eq_iff j j,
    remove_absent j m (get_of_Above j m s),
    skip_head (filter p (keys m)) j w m (keys-Above p j m s),
    take_each-filter p m (Above-IsSorted j m s),
  )

  get-skip :
      (p : K → Bool) (j : K) (m : OrderedMap K V) → p j ≡ false → get j (entries_where p m) ≡ none
  unfolding get entries_where
  get-skip p j [] h = refl
  get-skip p j ((k, v) ∷ m) h = ground (arith, o.eq_iff j k, get-skip p j m h)

  pub get-entries_where :
      (p : K → Bool) (j : K) (m : OrderedMap K V)
      → get j (entries_where p m) ≡ (if p j then get j m else none)
  unfolding get entries_where
  get-entries_where p j [] = ground arith
  get-entries_where p j ((k, v) ∷ m) = ground (arith, o.eq_iff j k, get-entries_where p j m)

  Above-entries_where :
      (p : K → Bool) (j : K) (m : OrderedMap K V) → Above j m → Above j (entries_where p m)
  unfolding entries_where
  Above-entries_where p j [] a = tt
  Above-entries_where p j ((k, v) ∷ m) a =
      ground (arith, Above-entries_where p k m a.1, Above-lower j k (entries_where p m))

  pub IsSorted-entries_where :
      (p : K → Bool) (m : OrderedMap K V) → IsSorted m → IsSorted (entries_where p m)
  unfolding entries_where
  IsSorted-entries_where p [] s = tt
  IsSorted-entries_where p ((k, v) ∷ m) s =
      ground (arith, Above-entries_where p k m s, Above-IsSorted k (entries_where p m))
