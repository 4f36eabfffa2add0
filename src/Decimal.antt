-- ===== src/Decimal.antt =====
-- `{}` of an integer in `format!`: decimal digits, most significant first, and a minus sign.
use lensguard.Prelude.{
  ◌≢◌, ◌≤◌, ◌⊎◌, ◌-◌, ℕ, zero, suc, ◌+◌, ◌*◌, ◌/◌, ◌%◌, ◌<◌, ◌≡◌, refl, ap, sym, ◌∙◌, Bool, true,
  false, ◌&&◌, [], ◌∷◌, ◌++◌, Text, ℤ, pos, negsuc, ltb, leb, if◌then◌else◌, arith, Bool-cases, inl,
  inr,
}

-- Puts the digits of `n` before `rest`; the fuel is above `n`, so it never runs out.
unfoldable pub show_into : ℕ → ℕ → Text → Text
show_into zero n rest = rest
show_into (suc fuel) n rest = elim (ltb n 10) [
  | true ↦ (48 + n) ∷ rest
  | false ↦ show_into fuel (n / 10) ((48 + n % 10) ∷ rest)
]

unfoldable pub show : ℕ → Text
unfolding show_into
show n = show_into (suc n) n []

unfoldable pub show_int : ℤ → Text
show_int (pos n) = show n
show_int (negsuc n) = b'-' ∷ show (suc n)

abbrev is_digit : ℕ → Bool
is_digit c = leb 48 c && leb c 57

-- Reads digits onto `n`: what it returns is the number and the rest.
read_onto : ℕ → Text → ℕ × Text
read_onto n [] = (n, [])
read_onto n (c ∷ s) =
    let rest = read_onto (n * 10 + (c - 48)) s in if is_digit c then rest else (n, c ∷ s)

read_onto-digit :
    (n d : ℕ) (s : Text) → d < 10 → read_onto n ((48 + d) ∷ s) ≡ read_onto (n * 10 + d) s
unfolding read_onto
read_onto-digit n d s h = let e : 48 + d - 48 ≡ d = omega arith in ground arith

read-show_into :
    (fuel n : ℕ) (rest : Text) → n < fuel → read_onto 0 (show_into fuel n rest) ≡ read_onto n rest
unfolding show_into
read-show_into zero n rest h = elim h [ ]
read-show_into (suc fuel) n rest h = elim (Bool-cases (ltb n 10)) [
  | inl small ↦
      rw (small, show_into)
        (read_onto-digit 0 n rest (ground arith) ∙ ap (λ m. read_onto m rest) (omega arith))
  | inr big ↦
      rw (big, show_into)
        (read-show_into fuel (n / 10) ((48 + n % 10) ∷ rest) (ground arith)
          ∙ read_onto-digit (n / 10) (n % 10) rest (omega arith)
          ∙ ap (λ m. read_onto m rest) (omega arith))
]

show_into-append :
    (fuel n : ℕ) (rest s : Text) → show_into fuel n rest ++ s ≡ show_into fuel n (rest ++ s)
unfolding show_into
show_into-append zero n rest s = refl
show_into-append (suc fuel) n rest s = elim (Bool-cases (ltb n 10)) [
  | inl small ↦ rw (small, show_into) refl
  | inr big ↦ rw (big, show_into) (show_into-append fuel (n / 10) ((48 + n % 10) ∷ rest) s)
]

-- A text that does not go on with a digit.
abbrev pub EndsNumber : Text → Type 0
EndsNumber [] = Unit
EndsNumber (c ∷ s) = (c < 48) ⊎ (57 < c)

read-end : (n : ℕ) (s : Text) → EndsNumber s → read_onto n s ≡ (n, s)
unfolding read_onto
read-end n [] h = refl
read-end n (c ∷ s) h = ground arith

read-show : (n : ℕ) (s : Text) → EndsNumber s → read_onto 0 (show n ++ s) ≡ (n, s)
unfolding show
read-show n s h =
    ap (read_onto 0) (show_into-append (suc n) n [] s)
    ∙ read-show_into (suc n) n s (omega arith)
    ∙ read-end n s h

-- A printed number can be read back, whatever text follows it.
pub show_cancel :
    (a b : ℕ) (s t : Text)
    → EndsNumber s
    → EndsNumber t
    → show a ++ s ≡ show b ++ t
    → (a ≡ b) × (s ≡ t)
show_cancel a b s t hs ht e =
    let p = sym (read-show a s hs) ∙ ap (read_onto 0) e ∙ read-show b t ht in
    (ap (λ r. r.0) p, ap (λ r. r.1) p)

pub show_into-head :
    (fuel n : ℕ) (rest : Text)
    → n < fuel
    → (d : ℕ) × (r : Text) × (show_into fuel n rest ≡ d ∷ r) × (48 ≤ d)
unfolding show_into
show_into-head zero n rest h = elim h [ ]
show_into-head (suc fuel) n rest h = elim (Bool-cases (ltb n 10)) [
  | inl small ↦ (48 + n, rest, rw (small, show_into) refl, omega arith)
  | inr big ↦
      rw (big, show_into) (show_into-head fuel (n / 10) ((48 + n % 10) ∷ rest) (ground arith))
]

-- A number's text does not begin with a minus sign.
pub show-ne-minus : (n : ℕ) (s t : Text) → show n ++ s ≢ b'-' ∷ t
unfolding show
show-ne-minus n s t e =
    let (d, r, head, digit) = show_into-head (suc n) n [] (omega arith) in
    let p : d ∷ (r ++ s) ≡ b'-' ∷ t = ap (λ (x : Text). x ++ s) (sym head) ∙ e in ground arith
