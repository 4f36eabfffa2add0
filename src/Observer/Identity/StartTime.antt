-- ===== src/Observer/Identity/StartTime.antt =====
-- The start time in a process's status, whatever the process calls itself.
use lensguard.Decimal.{show, show_into, show_into-head}
use lensguard.Daemon.Backoff.{u64_max}
use lensguard.Strings.{split_whitespace, word_parts}
use lensguard.Strings.Splits.{
  Lacks-append, Lacks, IsSolid, rsplit_once-append, split_whitespace_white, split_whitespace-append,
}
use lensguard.Observer.Identity.{parse_digits, parse_u64, get_elem?, start_time_of}
use lensguard.Prelude.{
  ℕ, zero, suc, ◌+◌, ◌*◌, ◌-◌, ◌/◌, ◌%◌, ◌≤◌, ◌<◌, ◌≡◌, refl, sym, ap, ◌∙◌, true, false, List, [],
  ◌∷◌, ◌++◌, some, Text, ltb, All, ok, arith, Bool-cases, inl, inr, is_whitespace, is_empty,
}

parse_digits-digit :
    (n d : ℕ) (s : Text)
    → d < 10
    → n * 10 + d ≤ u64_max
    → parse_digits n ((48 + d) ∷ s) ≡ parse_digits (n * 10 + d) s
unfolding parse_digits
parse_digits-digit n d s h k = let e : 48 + d - 48 ≡ d = omega arith in ground arith

parse_digits-show_into :
    (fuel n : ℕ) (rest : Text)
    → n < fuel
    → n ≤ u64_max
    → parse_digits 0 (show_into fuel n rest) ≡ parse_digits n rest
unfolding show_into
parse_digits-show_into zero n rest h k = elim h [ ]
parse_digits-show_into (suc fuel) n rest h k = elim (Bool-cases (ltb n 10)) [
  | inl small ↦
      rw (small, show_into)
        (parse_digits-digit 0 n rest (ground arith) (omega arith)
          ∙ ap (λ m. parse_digits m rest) (omega arith))
  | inr big ↦
      rw (big, show_into)
        (parse_digits-show_into fuel (n / 10) ((48 + n % 10) ∷ rest) (ground arith) (omega arith)
          ∙ parse_digits-digit (n / 10) (n % 10) rest (omega arith) (omega arith)
          ∙ ap (λ m. parse_digits m rest) (omega arith))
]

parse_u64-digits : (c : ℕ) (s : Text) → 48 ≤ c → parse_u64 (c ∷ s) ≡ parse_digits 0 (c ∷ s)
unfolding parse_u64
parse_u64-digits c [] h = ground arith
parse_u64-digits c (d ∷ s) h = ground arith

parse_digits_done : (n : ℕ) → parse_digits n [] ≡ some n
unfolding parse_digits
parse_digits_done n = refl

parse-show : (n : ℕ) → n ≤ u64_max → parse_u64 (show n) ≡ some n
unfolding show
parse-show n h =
    let (d, r, head, digit) = show_into-head (suc n) n [] (omega arith) in
    ap parse_u64 head
    ∙ parse_u64-digits d r digit
    ∙ ap (parse_digits 0) (sym head)
    ∙ parse_digits-show_into (suc n) n [] (omega arith) h
    ∙ parse_digits_done n

-- A field of the status: a word that holds no closing parenthesis.
abbrev pub IsField : Text → Type 0
IsField f = (is_empty f ≡ false) × IsSolid f × Lacks b')' f

-- The fields, each behind a space, and the line's end.
abbrev pub spaced : List Text → Text
spaced [] = 10 ∷ []
spaced (f ∷ fields) = 32 ∷ (f ++ spaced fields)

white_space : is_whitespace 32 ≡ true
unfolding is_whitespace
white_space = refl

white_line_feed : is_whitespace 10 ≡ true
unfolding is_whitespace
white_line_feed = refl

Lacks-spaced : (fields : List Text) → All IsField fields → Lacks b')' (spaced fields)
Lacks-spaced [] h = (refl, tt)
Lacks-spaced (f ∷ fields) h =
    (refl, Lacks-append b')' f (spaced fields) h.0.2 (Lacks-spaced fields h.1))

split_whitespace-field :
    (f : Text) (fields : List Text)
    → IsField f
    → split_whitespace (f ++ spaced fields) ≡ f ∷ split_whitespace (spaced fields)
split_whitespace-field [] fields h = absurd (cc h.0)
split_whitespace-field (c ∷ w) [] h =
    rw (split_whitespace_white 10 [] white_line_feed)
      (split_whitespace-append c w [] 10 h.1 white_line_feed)
split_whitespace-field (c ∷ w) (g ∷ fields) h =
    rw (split_whitespace_white 32 (g ++ spaced fields) white_space)
      (split_whitespace-append c w (g ++ spaced fields) 32 h.1 white_space)

split_whitespace-spaced :
    (fields : List Text) → All IsField fields → split_whitespace (spaced fields) ≡ fields
unfolding word_parts split_whitespace
split_whitespace-spaced [] h = split_whitespace_white 10 [] white_line_feed
split_whitespace-spaced (f ∷ fields) h =
    split_whitespace_white 32 (f ++ spaced fields) white_space
    ∙ split_whitespace-field f fields h.0
    ∙ ap (◌∷◌ f) (split_whitespace-spaced fields h.1)

-- A status that names the process in parentheses, and then holds fields that are words without a
-- closing parenthesis, gives the twentieth of them, if that is a number of 64 bits and not zero:
-- whatever stands before the last closing parenthesis, also a name with parentheses and spaces.
pub start_time_of-stat :
    (before : Text) (fields : List Text) (n : ℕ)
    → All IsField fields
    → get_elem? fields 19 ≡ some (show n)
    → 0 < n
    → n ≤ u64_max
    → start_time_of (before ++ b')' ∷ spaced fields) ≡ ok n
unfolding start_time_of
start_time_of-stat before fields n h at low high =
    rw (rsplit_once-append b')' before (spaced fields) (Lacks-spaced fields h))
      (rw (split_whitespace-spaced fields h) (rw at (rw (parse-show n high) (ground arith))))
