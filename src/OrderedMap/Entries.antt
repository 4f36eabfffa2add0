-- ===== src/OrderedMap/Entries.antt =====
-- A property of every entry of a map, through each operation.
use lensguard.Prelude.{sym, inr, inl, Bool-cases, ◌≡◌, Bool, [], ◌∷◌, some}
use mathlib.Core.Path.{subst₂}
use mathlib.Core.Option.{some-injective}
use lensguard.Order.{Ord, Ordering-cases}
use lensguard.OrderedMap.{OrderedMap, get, insert, remove}
use lensguard.OrderedMap.Removal.{entries_where}

module _ {ℓ κ} {K : Type ℓ} {V : Type κ} where
  abbrev pub AllEntries {μ} : (K → V → Type μ) → OrderedMap K V → Type μ
  AllEntries P [] = Unit
  AllEntries P ((k, v) ∷ m) = P k v × AllEntries P m

  pub AllEntries-weaken {μ ν} :
      {P : K → V → Type μ} {Q : K → V → Type ν} (m : OrderedMap K V)
      → ((k : K) (v : V) → P k v → Q k v)
      → AllEntries P m
      → AllEntries Q m
  AllEntries-weaken [] f a = tt
  AllEntries-weaken ((k, v) ∷ m) f a = (f k v a.0, AllEntries-weaken m f a.1)

module _ {ℓ κ} {K : Type ℓ} {V : Type κ} ⦃o : Ord K⦄ where
  pub AllEntries-entries_where {μ} :
      (P : K → V → Type μ) (p : K → Bool) (m : OrderedMap K V)
      → AllEntries P m
      → AllEntries P (entries_where p m)
  unfolding entries_where
  AllEntries-entries_where P p [] a = tt
  AllEntries-entries_where P p ((k, v) ∷ m) a = elim (Bool-cases (p k)) [
    | inl t ↦ rw t (a.0, AllEntries-entries_where P p m a.1)
    | inr f ↦ rw f (AllEntries-entries_where P p m a.1)
  ]

  pub AllEntries-insert {μ} :
      (P : K → V → Type μ) (k : K) (v : V) (m : OrderedMap K V)
      → P k v
      → AllEntries P m
      → AllEntries P (insert k v m)
  unfolding insert
  AllEntries-insert P k v [] h a = (h, tt)
  AllEntries-insert P k v ((j, w) ∷ m) h a = elim (Ordering-cases (o.cmp k j)) [
    | inl e ↦ rw (e, insert) (h, a)
    | inr (inl e) ↦ rw (e, insert) (h, a.1)
    | inr (inr e) ↦ rw (e, insert) (a.0, AllEntries-insert P k v m h a.1)
  ]

  pub AllEntries-remove {μ} :
      (P : K → V → Type μ) (k : K) (m : OrderedMap K V) → AllEntries P m → AllEntries P (remove k m)
  unfolding remove
  AllEntries-remove P k [] a = tt
  AllEntries-remove P k ((j, w) ∷ m) a = elim (Ordering-cases (o.cmp k j)) [
    | inl e ↦ rw (e, remove) (a.0, AllEntries-remove P k m a.1)
    | inr (inl e) ↦ rw (e, remove) (AllEntries-remove P k m a.1)
    | inr (inr e) ↦ rw (e, remove) (a.0, AllEntries-remove P k m a.1)
  ]

  pub AllEntries-get {μ} :
      (P : K → V → Type μ) (k : K) (m : OrderedMap K V) (v : V)
      → AllEntries P m
      → get k m ≡ some v
      → P k v
  unfolding get
  AllEntries-get P k [] v a e = cc
  AllEntries-get P k ((j, w) ∷ m) v a e = elim (Ordering-cases (o.cmp k j)) [
    | inl c ↦ AllEntries-get P k m v a.1 (rw (c, get) at e)
    | inr (inl c) ↦ subst₂ P (sym ((o.eq_iff k j).0 c)) (some-injective w v (rw (c, get) at e)) a.0
    | inr (inr c) ↦ AllEntries-get P k m v a.1 (rw (c, get) at e)
  ]
