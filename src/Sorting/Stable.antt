-- ===== src/Sorting/Stable.antt =====
-- Sorting by a key, and leaving out elements with the key of a neighbour before them, keep the first
-- element of every key.
use lensguard.Sorting.{dedup_by, dedup_behind, insert_sorted, sort_by}
use lensguard.Order.{Ord, Ordering-cases}
use lensguard.Prelude.{
  ◌↔◌, ◌≡◌, refl, ap, ◌∙◌, Bool, true, false, List, [], ◌∷◌, some, find, Ordering, if◌then◌else◌,
  Bool-cases, inl, inr,
}

module _ {ℓ κ} {A : Type ℓ} {K : Type κ} ⦃o : Ord K⦄ (key : A → K) where
  abbrev pub by_key : A → A → Ordering
  by_key a b = o.cmp (key a) (key b)

  module _ (test : K → Bool) (one : (j k : K) → test j ≡ true → test k ≡ true → j ≡ k) where
    gt-fails : (a b : A) → test (key a) ≡ true → by_key a b ≡ Ordering.gt → test (key b) ≡ false
    gt-fails a b h g = elim (Bool-cases (test (key b))) [
      | inl k ↦
          let e : by_key a b ≡ Ordering.eq =
            (o.eq_iff (key a) (key b)).1 (one (key a) (key b) h k) in
          cc
      | inr k ↦ k
    ]

    find-insert_sorted :
        (a : A) (l : List A)
        → find (λ x. test (key x)) (insert_sorted by_key a l)
          ≡ (if test (key a) then some a else find (λ x. test (key x)) l)
    unfolding find insert_sorted
    find-insert_sorted a [] = refl
    find-insert_sorted a (b ∷ l) = elim (Ordering-cases (by_key a b)) [
      | inl lt ↦ rw (lt, insert_sorted)
      | inr (inl eq) ↦ rw (eq, insert_sorted)
      | inr (inr gt) ↦ elim (Bool-cases (test (key a))) [
        | inl h ↦ rw (gt, insert_sorted) (rw (gt-fails a b h gt) (find-insert_sorted a l))
        | inr h ↦
            rw (gt, insert_sorted)
              (rw h (ap (λ r. if test (key b) then some b else r) (find-insert_sorted a l ∙ rw h)))
      ]
    ]

    pub find-sort_by :
        (l : List A) → find (λ x. test (key x)) (sort_by by_key l) ≡ find (λ x. test (key x)) l
    unfolding find sort_by
    find-sort_by [] = refl
    find-sort_by (a ∷ l) = find-insert_sorted a (sort_by by_key l) ∙ rw (find-sort_by l)

    module _ (same : K → K → Bool) (same_iff : (j k : K) → (same j k ≡ true) ↔ (j ≡ k)) where
      find-dedup_behind :
          (last : A) (l : List A)
          → test (key last) ≡ false
          → find (λ x. test (key x)) (dedup_behind (λ a b. same (key a) (key b)) last l)
            ≡ find (λ x. test (key x)) l
      unfolding find dedup_behind
      find-dedup_behind last [] h = refl
      find-dedup_behind last (a ∷ l) h = elim (Bool-cases (same (key a) (key last))) [
        | inl s ↦
            let absent : test (key a) ≡ false = ap test ((same_iff (key a) (key last)).0 s) ∙ h in
            rw (s, dedup_behind) (rw absent (find-dedup_behind last l h))
        | inr d ↦
            rw (d, dedup_behind)
              (elim (Bool-cases (test (key a))) [
                | inl t ↦ rw t
                | inr t ↦ rw t (find-dedup_behind a l t)
              ])
      ]

      pub find-dedup_by :
          (l : List A)
          → find (λ x. test (key x)) (dedup_by (λ a b. same (key a) (key b)) l)
            ≡ find (λ x. test (key x)) l
      unfolding find dedup_by
      find-dedup_by [] = refl
      find-dedup_by (a ∷ l) = elim (Bool-cases (test (key a))) [
        | inl t ↦ rw t
        | inr t ↦ rw t (find-dedup_behind a l t)
      ]
