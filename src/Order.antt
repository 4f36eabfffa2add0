-- ===== src/Order.antt =====
-- Total orders as an interface (Rust's `Ord`): numbers, signed numbers, texts, pairs, and the order
-- that an injection pulls back, which is what `derive(Ord)` gives on a record's fields in order.
use lensguard.Prelude.{
  ◌≢◌, inr, inl, ◌⊎◌, ℕ, Ordering, compare, ◌≡◌, refl, ap, ◌↔◌, List, [], ◌∷◌, arith, ℤ, pos,
  negsuc,
}

pub record Ord {ℓ} (A : Type ℓ) : Type ℓ where
  pub cmp : A → A → Ordering
  pub eq_iff : (a b : A) → (cmp a b ≡ Ordering.eq) ↔ (a ≡ b)
  pub lt_flip : (a b : A) → (cmp a b ≡ Ordering.lt) ↔ (cmp b a ≡ Ordering.gt)
  pub lt_trans : (a b c : A) → cmp a b ≡ Ordering.lt → cmp b c ≡ Ordering.lt → cmp a c ≡ Ordering.lt

pub Ordering-cases : (x : Ordering) → (x ≡ Ordering.lt) ⊎ ((x ≡ Ordering.eq) ⊎ (x ≡ Ordering.gt))
Ordering-cases Ordering.lt = inl refl
Ordering-cases Ordering.eq = inr (inl refl)
Ordering-cases Ordering.gt = inr (inr refl)

pub lt_irreflexive : Ordering.lt ≢ Ordering.eq
lt_irreflexive h = cc

-- `Ordering::then`.
abbrev pub then_cmp : Ordering → Ordering → Ordering
then_cmp Ordering.lt y = Ordering.lt
then_cmp Ordering.eq y = y
then_cmp Ordering.gt y = Ordering.gt

pub nat-eq_iff : (a b : ℕ) → (compare a b ≡ Ordering.eq) ↔ (a ≡ b)
nat-eq_iff a b = ground arith

pub nat-lt_flip : (a b : ℕ) → (compare a b ≡ Ordering.lt) ↔ (compare b a ≡ Ordering.gt)
nat-lt_flip a b = ground arith

pub nat-lt_trans :
    (a b c : ℕ) → compare a b ≡ Ordering.lt → compare b c ≡ Ordering.lt → compare a c ≡ Ordering.lt
nat-lt_trans a b c p q = ground arith

instance abbrev pub nat_ord : Ord ℕ
nat_ord = record {
  cmp = compare;
  eq_iff = nat-eq_iff;
  lt_flip = nat-lt_flip;
  lt_trans = nat-lt_trans;
}

-- A negative number is below every other; among negative numbers the larger tail is the smaller.
abbrev pub compare_ℤ : ℤ → ℤ → Ordering
compare_ℤ (pos a) (pos b) = compare a b
compare_ℤ (pos a) (negsuc b) = Ordering.gt
compare_ℤ (negsuc a) (pos b) = Ordering.lt
compare_ℤ (negsuc a) (negsuc b) = compare b a

pub int-eq_iff : (a b : ℤ) → (compare_ℤ a b ≡ Ordering.eq) ↔ (a ≡ b)
int-eq_iff a b = ground arith

pub int-lt_flip : (a b : ℤ) → (compare_ℤ a b ≡ Ordering.lt) ↔ (compare_ℤ b a ≡ Ordering.gt)
int-lt_flip a b = ground arith

pub int-lt_trans :
    (a b c : ℤ)
    → compare_ℤ a b ≡ Ordering.lt
    → compare_ℤ b c ≡ Ordering.lt
    → compare_ℤ a c ≡ Ordering.lt
int-lt_trans a b c p q = ground arith

instance abbrev pub int_ord : Ord ℤ
int_ord = record {
  cmp = compare_ℤ;
  eq_iff = int-eq_iff;
  lt_flip = int-lt_flip;
  lt_trans = int-lt_trans;
}

module _ {ℓ κ} {A : Type ℓ} {B : Type κ} ⦃o : Ord A⦄ ⦃r : Ord B⦄ where
  abbrev pub compare_pair : A × B → A × B → Ordering
  compare_pair (a, b) (c, d) = then_cmp (o.cmp a c) (r.cmp b d)

  pub pair-eq_iff : (x y : A × B) → (compare_pair x y ≡ Ordering.eq) ↔ (x ≡ y)
  pair-eq_iff (a, b) (c, d) = ground (arith, o.eq_iff a c, r.eq_iff b d)

  pub pair-lt_flip :
      (x y : A × B) → (compare_pair x y ≡ Ordering.lt) ↔ (compare_pair y x ≡ Ordering.gt)
  pair-lt_flip (a, b) (c, d) =
      ground (arith, o.lt_flip a c, o.lt_flip c a, o.eq_iff a c, o.eq_iff c a, r.lt_flip b d)

  pub pair-lt_trans :
      (x y z : A × B)
      → compare_pair x y ≡ Ordering.lt
      → compare_pair y z ≡ Ordering.lt
      → compare_pair x z ≡ Ordering.lt
  pair-lt_trans (a, b) (c, d) (e, f) p q =
      ground (arith, o.eq_iff a c, o.eq_iff c e, o.eq_iff a e, o.lt_trans a c e, r.lt_trans b d f)

  instance abbrev pub pair_ord : Ord (A × B)
  pair_ord = record {
    cmp = compare_pair;
    eq_iff = pair-eq_iff;
    lt_flip = pair-lt_flip;
    lt_trans = pair-lt_trans;
  }

module _ {ℓ} {A : Type ℓ} ⦃o : Ord A⦄ where
  unfoldable pub compare_list : List A → List A → Ordering
  compare_list [] [] = Ordering.eq
  compare_list [] (y ∷ ys) = Ordering.lt
  compare_list (x ∷ xs) [] = Ordering.gt
  compare_list (x ∷ xs) (y ∷ ys) = then_cmp (o.cmp x y) (compare_list xs ys)

  pub list-eq_iff : (x y : List A) → (compare_list x y ≡ Ordering.eq) ↔ (x ≡ y)
  unfolding compare_list
  list-eq_iff [] [] = ground arith
  list-eq_iff [] (y ∷ ys) = ground arith
  list-eq_iff (x ∷ xs) [] = ground arith
  list-eq_iff (x ∷ xs) (y ∷ ys) = ground (arith, o.eq_iff x y, list-eq_iff xs ys)

  pub list-lt_flip :
      (x y : List A) → (compare_list x y ≡ Ordering.lt) ↔ (compare_list y x ≡ Ordering.gt)
  unfolding compare_list
  list-lt_flip [] [] = ground arith
  list-lt_flip [] (y ∷ ys) = ground arith
  list-lt_flip (x ∷ xs) [] = ground arith
  list-lt_flip (x ∷ xs) (y ∷ ys) =
      ground (arith, o.lt_flip x y, o.lt_flip y x, o.eq_iff x y, o.eq_iff y x, list-lt_flip xs ys)

  pub list-lt_trans :
      (x y z : List A)
      → compare_list x y ≡ Ordering.lt
      → compare_list y z ≡ Ordering.lt
      → compare_list x z ≡ Ordering.lt
  unfolding compare_list
  list-lt_trans [] [] z p q = cc
  list-lt_trans [] (y ∷ ys) [] p q = cc
  list-lt_trans [] (y ∷ ys) (z ∷ zs) p q = refl
  list-lt_trans (x ∷ xs) [] z p q = cc
  list-lt_trans (x ∷ xs) (y ∷ ys) [] p q = cc
  list-lt_trans (x ∷ xs) (y ∷ ys) (z ∷ zs) p q =
      ground
        (arith, o.eq_iff x y, o.eq_iff y z, o.eq_iff x z, o.lt_trans x y z, list-lt_trans xs ys zs)

  instance abbrev pub list_ord : Ord (List A)
  list_ord = record {
    cmp = compare_list;
    eq_iff = list-eq_iff;
    lt_flip = list-lt_flip;
    lt_trans = list-lt_trans;
  }

-- The order of a record by its fields: `f` lists them.
abbrev pub ord_by {ℓ κ} :
    {A : Type ℓ} {B : Type κ} (o : Ord B) (f : A → B) → ((a b : A) → f a ≡ f b → a ≡ b) → Ord A
ord_by o f inj = record {
  cmp = λ a b. o.cmp (f a) (f b);
  eq_iff =
      λ a b. (λ e. inj a b ((o.eq_iff (f a) (f b)).0 e), λ e. (o.eq_iff (f a) (f b)).1 (ap f e));
  lt_flip = λ a b. o.lt_flip (f a) (f b);
  lt_trans = λ a b c. o.lt_trans (f a) (f b) (f c);
}
