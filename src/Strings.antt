-- ===== src/Strings.antt =====
-- What the code uses of `str`: splitting at a character, at white space and into lines, prefixes
-- and suffixes, and letters of ASCII.
pub mod Splits
use lensguard.Prelude.{
  ltb, ◌/◌, ◌%◌, ℕ, zero, suc, ◌+◌, ◌*◌, ◌-◌, ◌≡◌, refl, Bool, true, false, ◌&&◌, ◌||◌, List, [],
  ◌∷◌, ◌++◌, map, Option, none, some, Text, text_eq, leb, ◌==◌, if◌then◌else◌, is_whitespace,
  length,
}

-- `str::to_ascii_lowercase`
unfoldable pub to_ascii_lowercase : Text → Text
to_ascii_lowercase s = map (λ c. if leb 65 c && leb c 90 then c + 32 else c) s

-- `str::eq_ignore_ascii_case`
abbrev pub eq_ignore_ascii_case : Text → Text → Bool
eq_ignore_ascii_case s t = text_eq (to_ascii_lowercase s) (to_ascii_lowercase t)

-- `str::strip_prefix`
unfoldable pub strip_prefix : Text → Text → Option Text
strip_prefix [] s = some s
strip_prefix (p ∷ prefix) [] = none
strip_prefix (p ∷ prefix) (c ∷ s) = if p == c then strip_prefix prefix s else none

abbrev put_char : ℕ → Option Text → Option Text
put_char c none = none
put_char c (some t) = some (c ∷ t)

-- `str::strip_suffix`
unfoldable pub strip_suffix : Text → Text → Option Text
strip_suffix suffix [] = if text_eq [] suffix then some [] else none
strip_suffix suffix (c ∷ rest) =
    let later = strip_suffix suffix rest in
    if text_eq (c ∷ rest) suffix then some [] else put_char c later

abbrev pub is_some {ℓ} : {A : Type ℓ} → Option A → Bool
is_some none = false
is_some (some _) = true

-- `str::starts_with`
abbrev pub starts_with : Text → Text → Bool
starts_with prefix s = is_some (strip_prefix prefix s)

-- `str::contains`
unfoldable pub contains : Text → Text → Bool
contains part [] = starts_with part []
contains part (c ∷ s) = starts_with part (c ∷ s) || contains part s

-- `str::ends_with` with a character.
unfoldable pub ends_with : ℕ → Text → Bool
ends_with e [] = false
ends_with e (c ∷ []) = c == e
ends_with e (c ∷ d ∷ s) = ends_with e (d ∷ s)

abbrev pub put_front : ℕ → Option (Text × Text) → Option (Text × Text)
put_front c none = none
put_front c (some (before, after)) = some (c ∷ before, after)

-- `str::split_once` and `str::rsplit_once`: at the first separator, and at the last.
unfoldable pub split_once : ℕ → Text → Option (Text × Text)
split_once sep [] = none
split_once sep (c ∷ s) =
    let later = split_once sep s in if c == sep then some ([], s) else put_front c later

abbrev pub or_here : ℕ → ℕ → Text → Option (Text × Text) → Option (Text × Text)
or_here sep c s (some (before, after)) = some (c ∷ before, after)
or_here sep c s none = if c == sep then some ([], s) else none

unfoldable pub rsplit_once : ℕ → Text → Option (Text × Text)
rsplit_once sep [] = none
rsplit_once sep (c ∷ s) = or_here sep c s (rsplit_once sep s)

-- `rsplit(sep).next()`: what stands behind the last separator, or all.
abbrev pub after_last : ℕ → Text → Text
after_last sep s = elim (rsplit_once sep s) [ none ↦ s | some parts ↦ parts.1 ]

abbrev pub cons_word : Text → List Text → List Text
cons_word [] words = words
cons_word (c ∷ word) words = (c ∷ word) ∷ words

-- The word that the text begins with, which may be empty, and the words behind it.
unfoldable pub word_parts : Text → Text × List Text
word_parts [] = ([], [])
word_parts (c ∷ s) =
    let (word, words) = word_parts s in
    if is_whitespace c then ([], cons_word word words) else (c ∷ word, words)

-- `str::split_whitespace`
unfoldable pub split_whitespace : Text → List Text
split_whitespace s = let (word, words) = word_parts s in cons_word word words

abbrev pub push_char : ℕ → List Text → List Text
push_char c [] = (c ∷ []) ∷ []
push_char c (line ∷ rest) = (c ∷ line) ∷ rest

-- `str::lines`: a line ends at a line feed, with a carriage return before it, or at the end.
unfoldable pub lines : Text → List Text
lines [] = []
lines (c ∷ []) = if c == 10 then [] ∷ [] else (c ∷ []) ∷ []
lines (c ∷ d ∷ s) =
    let rest = lines (d ∷ s) in
    if c == 10 then [] ∷ rest else if c == 13 && d == 10 then rest else push_char c rest

-- `str::replace`: `skip` counts the characters of a match that are left to skip.
unfoldable pub replace_from : ℕ → Text → Text → Text → Text
replace_from skip part with [] = []
replace_from (suc skip) part with (c ∷ s) = replace_from skip part with s
replace_from zero part with (c ∷ s) =
    let copied = replace_from zero part with s in
    let skipped = replace_from (length part - 1) part with s in
    if starts_with part (c ∷ s) then with ++ skipped else c ∷ copied

-- `str::as_bytes`: UTF-8.
unfoldable pub utf8_char : ℕ → List ℕ
utf8_char c =
    if ltb c 0x80
    then c ∷ []
    else if ltb c 0x800
    then (0xc0 + c / 64) ∷ (0x80 + c % 64) ∷ []
    else if ltb c 0x1_0000
    then (0xe0 + c / 4096) ∷ (0x80 + c / 64 % 64) ∷ (0x80 + c % 64) ∷ []
    else (0xf0 + c / 262144) ∷ (0x80 + c / 4096 % 64) ∷ (0x80 + c / 64 % 64) ∷ (0x80 + c % 64) ∷ []

unfoldable pub utf8 : Text → List ℕ
utf8 [] = []
utf8 (c ∷ s) = utf8_char c ++ utf8 s
