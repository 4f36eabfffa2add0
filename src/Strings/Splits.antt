-- ===== src/Strings/Splits.antt =====
-- Splitting texts that were put together.
use lensguard.Strings.{strip_prefix, split_once, rsplit_once, word_parts, split_whitespace, lines}
use lensguard.Prelude.{
  ℕ, ◌≡◌, refl, true, false, [], ◌∷◌, ◌++◌, none, some, Text, ◌==◌, is_whitespace, All, arith,
}

-- No character of the text is the separator.
abbrev pub Lacks : ℕ → Text → Type 0
Lacks sep s = All (λ c. (c == sep) ≡ false) s

-- No character of the text is white.
abbrev pub IsSolid : Text → Type 0
IsSolid s = All (λ c. is_whitespace c ≡ false) s

pub Lacks-append : (sep : ℕ) (s t : Text) → Lacks sep s → Lacks sep t → Lacks sep (s ++ t)
Lacks-append sep [] t h k = k
Lacks-append sep (c ∷ s) t h k = (h.0, Lacks-append sep s t h.1 k)

pub strip_prefix-append : (prefix s : Text) → strip_prefix prefix (prefix ++ s) ≡ some s
unfolding strip_prefix
strip_prefix-append [] s = refl
strip_prefix-append (p ∷ prefix) s = ground (arith, strip_prefix-append prefix s)

pub split_once-append :
    (sep : ℕ) (a b : Text) → Lacks sep a → split_once sep (a ++ sep ∷ b) ≡ some (a, b)
unfolding split_once
split_once-append sep [] b h = ground arith
split_once-append sep (c ∷ a) b h = ground (arith, split_once-append sep a b h.1)

rsplit_once-none : (sep : ℕ) (s : Text) → Lacks sep s → rsplit_once sep s ≡ none
unfolding rsplit_once
rsplit_once-none sep [] h = refl
rsplit_once-none sep (c ∷ s) h = rw (rsplit_once-none sep s h.1, h.0)

pub rsplit_once-append :
    (sep : ℕ) (a b : Text) → Lacks sep b → rsplit_once sep (a ++ sep ∷ b) ≡ some (a, b)
unfolding rsplit_once
rsplit_once-append sep [] b h = rw (rsplit_once-none sep b h) (ground arith)
rsplit_once-append sep (c ∷ a) b h = rw (rsplit_once-append sep a b h)

word_parts-append :
    (w s : Text) (white : ℕ)
    → IsSolid w
    → is_whitespace white ≡ true
    → word_parts (w ++ white ∷ s) ≡ (w, split_whitespace s)
unfolding word_parts split_whitespace
word_parts-append [] s white h k = rw k
word_parts-append (c ∷ w) s white h k = rw (h.0, word_parts-append w s white h.1 k)

word_parts_solid : (w : Text) → IsSolid w → word_parts w ≡ (w, [])
unfolding word_parts
word_parts_solid [] h = refl
word_parts_solid (c ∷ w) h = rw (h.0, word_parts_solid w h.1)

-- A first word of one character or more, and the white character behind it.
pub split_whitespace-append :
    (c : ℕ) (w s : Text) (white : ℕ)
    → IsSolid (c ∷ w)
    → is_whitespace white ≡ true
    → split_whitespace (c ∷ (w ++ white ∷ s)) ≡ (c ∷ w) ∷ split_whitespace s
unfolding split_whitespace
split_whitespace-append c w s white h k = rw (word_parts-append (c ∷ w) s white h k)

pub split_whitespace_solid :
    (c : ℕ) (w : Text) → IsSolid (c ∷ w) → split_whitespace (c ∷ w) ≡ (c ∷ w) ∷ []
unfolding split_whitespace
split_whitespace_solid c w h = rw (word_parts_solid (c ∷ w) h)

pub split_whitespace_white :
    (white : ℕ) (s : Text)
    → is_whitespace white ≡ true
    → split_whitespace (white ∷ s) ≡ split_whitespace s
unfolding split_whitespace word_parts
split_whitespace_white white s h = rw h

-- A line without a line feed or a carriage return, and the line feed that ends it.
pub lines-append :
    (line rest : Text)
    → Lacks 10 line
    → Lacks 13 line
    → lines (line ++ 10 ∷ rest) ≡ line ∷ lines rest
unfolding lines
lines-append [] [] h k = refl
lines-append [] (d ∷ rest) h k = refl
lines-append (c ∷ []) rest h k = rw (h.0, k.0, lines-append [] rest tt tt)
lines-append (c ∷ d ∷ line) rest h k = rw (h.0, k.0, lines-append (d ∷ line) rest h.1 k.1)
