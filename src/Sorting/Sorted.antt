-- ===== src/Sorting/Sorted.antt =====
-- Sorting by a key, and leaving out elements with the key of a neighbour, gives each key once, in
-- rising order.
use lensguard.Sorting.{insert_sorted, sort_by, dedup_behind, dedup_by}
use lensguard.Sorting.Stable.{by_key}
use lensguard.Order.{Ord, Ordering-cases}
use lensguard.Prelude.{
  ◌≡◌, ◌≢◌, ◌↔◌, sym, ap, ◌∙◌, Bool, true, false, List, [], ◌∷◌, Ordering, Bool-cases, inl, inr,
}

module _ {ℓ κ} {A : Type ℓ} {K : Type κ} ⦃o : Ord K⦄ (key : A → K) where
  abbrev IsSorted : List A → Type 0
  IsSorted [] = Unit
  IsSorted (a ∷ []) = Unit
  IsSorted (a ∷ b ∷ l) = (by_key key a b ≢ Ordering.gt) × IsSorted (b ∷ l)

  -- Every key stands before the next.
  abbrev pub Climbs : List A → Type 0
  Climbs [] = Unit
  Climbs (a ∷ []) = Unit
  Climbs (a ∷ b ∷ l) = (by_key key a b ≡ Ordering.lt) × Climbs (b ∷ l)

  not_gt : (a b : A) → by_key key a b ≡ Ordering.gt → by_key key b a ≢ Ordering.gt
  not_gt a b g h = let e : by_key key b a ≡ Ordering.lt = (o.lt_flip (key b) (key a)).1 g in cc

  insert_sorted-IsSorted :
      (a : A) (l : List A) → IsSorted l → IsSorted (insert_sorted (by_key key) a l)
  unfolding insert_sorted
  insert_sorted-IsSorted a [] h = tt
  insert_sorted-IsSorted a (b ∷ []) h = elim (Ordering-cases (by_key key a b)) [
    | inl lt ↦ rw (lt, insert_sorted) (λ g. cc, tt)
    | inr (inl eq) ↦ rw (eq, insert_sorted) (λ g. cc, tt)
    | inr (inr gt) ↦ rw (gt, insert_sorted) (not_gt a b gt, tt)
  ]
  insert_sorted-IsSorted a (b ∷ c ∷ l) h = elim (Ordering-cases (by_key key a b)) [
    | inl lt ↦ rw (lt, insert_sorted) (λ g. cc, h)
    | inr (inl eq) ↦ rw (eq, insert_sorted) (λ g. cc, h)
    | inr (inr gt) ↦
        let later = insert_sorted-IsSorted a (c ∷ l) h.1 in
        rw (gt, insert_sorted)
          (elim (Ordering-cases (by_key key a c)) [
            | inl lt ↦ rw (lt, insert_sorted) (not_gt a b gt, rw (lt, insert_sorted) at later)
            | inr (inl eq) ↦ rw (eq, insert_sorted) (not_gt a b gt, rw (eq, insert_sorted) at later)
            | inr (inr g) ↦ rw (g, insert_sorted) (h.0, rw (g, insert_sorted) at later)
          ])
  ]

  sort_by-IsSorted : (l : List A) → IsSorted (sort_by (by_key key) l)
  unfolding sort_by
  sort_by-IsSorted [] = tt
  sort_by-IsSorted (a ∷ l) = insert_sorted-IsSorted a (sort_by (by_key key) l) (sort_by-IsSorted l)

  module _ (same : K → K → Bool) (same_iff : (j k : K) → (same j k ≡ true) ↔ (j ≡ k)) where
    rises :
        (a b : A)
        → by_key key a b ≢ Ordering.gt
        → same (key b) (key a) ≡ false
        → by_key key a b ≡ Ordering.lt
    rises a b h d = elim (Ordering-cases (by_key key a b)) [
      | inl lt ↦ lt
      | inr (inl eq) ↦
          let e : key b ≡ key a = sym ((o.eq_iff (key a) (key b)).0 eq) in
          let s : same (key b) (key a) ≡ true = (same_iff (key b) (key a)).1 e in absurd (cc)
      | inr (inr gt) ↦ absurd (h gt)
    ]

    IsSorted-skip :
        (last a : A) (l : List A) → key a ≡ key last → IsSorted (a ∷ l) → IsSorted (last ∷ l)
    IsSorted-skip last a [] e h = tt
    IsSorted-skip last a (b ∷ l) e h = (λ g. h.0 (ap (λ k. o.cmp k (key b)) e ∙ g), h.1)

    dedup_behind-Climbs :
        (last : A) (l : List A)
        → IsSorted (last ∷ l)
        → Climbs (last ∷ dedup_behind (λ a b. same (key a) (key b)) last l)
    unfolding dedup_behind
    dedup_behind-Climbs last [] h = tt
    dedup_behind-Climbs last (a ∷ l) h = elim (Bool-cases (same (key a) (key last))) [
      | inl s ↦
          rw (s, dedup_behind)
            (dedup_behind-Climbs last l
              (IsSorted-skip last a l ((same_iff (key a) (key last)).0 s) h.1))
      | inr d ↦ rw (d, dedup_behind) (rises last a h.0 d, dedup_behind-Climbs a l h.1)
    ]

    pub dedup_by-Climbs :
        (l : List A) → Climbs (dedup_by (λ a b. same (key a) (key b)) (sort_by (by_key key) l))
    dedup_by-Climbs l = go (sort_by (by_key key) l) (sort_by-IsSorted l)
      where
        go : (m : List A) → IsSorted m → Climbs (dedup_by (λ a b. same (key a) (key b)) m)
        go [] h = unfold dedup_by in tt
        go (a ∷ m) h = unfold dedup_by in dedup_behind-Climbs a m h
