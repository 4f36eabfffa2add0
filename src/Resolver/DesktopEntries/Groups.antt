-- ===== src/Resolver/DesktopEntries/Groups.antt =====
-- The groups of a desktop file.
use lensguard.Prelude.{
  ℕ, ◌≡◌, refl, ap, ◌∙◌, true, false, List, [], ◌∷◌, ◌++◌, Text, codes, text_eq, trim, All, ◌==◌,
  ◌&&◌, Bool-cases, inl, inr,
}
use lensguard.Strings.{lines, push_char}
use lensguard.Paths.{FilePath}
use lensguard.Resolver.Flatpak.{is_header}
use lensguard.Resolver.DesktopEntries.{
  EntryParser, new_parser, read_line, read_lines, finish_entry, parse_desktop_entry,
}

push_char-append :
    (c : ℕ) (l : Text) (ls ms : List Text)
    → push_char c ((l ∷ ls) ++ ms) ≡ push_char c (l ∷ ls) ++ ms
push_char-append c l ls ms = refl

lines-cons : (s : Text) → (l : Text) × (ls : List Text) × (lines (s ++ 10 ∷ []) ≡ l ∷ ls)
unfolding lines
lines-cons [] = ([], [], refl)
lines-cons (c ∷ []) = elim (Bool-cases (c == 10)) [
  | inl feed ↦ ([], [] ∷ [], rw feed)
  | inr other ↦ elim (Bool-cases (c == 13)) [
    | inl return ↦ ([], [], rw (other, return))
    | inr plain ↦ (c ∷ [], [], rw (other, plain))
  ]
]
lines-cons (c ∷ d ∷ s) =
    let (l, ls, e) = lines-cons (d ∷ s) in
    elim (Bool-cases (c == 10)) [
      | inl feed ↦ ([], l ∷ ls, rw (feed, e))
      | inr other ↦ elim (Bool-cases (c == 13 && d == 10)) [
        | inl return ↦ (l, ls, rw (other, return) e)
        | inr plain ↦ (c ∷ l, ls, rw (other, plain, e))
      ]
    ]

-- The lines of a text that goes on behind a line feed.
lines_split : (a b : Text) → lines (a ++ 10 ∷ b) ≡ lines (a ++ 10 ∷ []) ++ lines b
unfolding lines
lines_split [] [] = refl
lines_split [] (c ∷ b) = refl
lines_split (c ∷ []) b = elim (Bool-cases (c == 10)) [
  | inl feed ↦ rw (feed, lines_split [] b)
  | inr other ↦ elim (Bool-cases (c == 13)) [
    | inl return ↦ rw (other, return, lines_split [] b)
    | inr plain ↦ rw (other, plain, lines_split [] b)
  ]
]
lines_split (c ∷ d ∷ a) b =
    let (l, ls, e) = lines-cons (d ∷ a) in
    elim (Bool-cases (c == 10)) [
      | inl feed ↦ rw (feed, lines_split (d ∷ a) b)
      | inr other ↦ elim (Bool-cases (c == 13 && d == 10)) [
        | inl return ↦ rw (other, return) (lines_split (d ∷ a) b)
        | inr plain ↦ rw (other, plain, lines_split (d ∷ a) b, e)
      ]
    ]

read_lines-append :
    (xs ys : List Text) (p : EntryParser)
    → read_lines (xs ++ ys) p ≡ read_lines ys (read_lines xs p)
unfolding read_lines
read_lines-append [] ys p = refl
read_lines-append (x ∷ xs) ys p = read_lines-append xs ys (read_line (trim x) p)

-- The line is not the header of the group that is read.
abbrev pub IsForeign : Text → Type 0
IsForeign line = text_eq (trim line) (codes "[Desktop Entry]") ≡ false

outside : (p : EntryParser) → EntryParser
outside p = record p { in_desktop_entry = false }

read_line-outside :
    (line : Text) (p : EntryParser) → IsForeign line → read_line (trim line) (outside p) ≡ outside p
unfolding read_line outside
read_line-outside line p h = elim (Bool-cases (is_header (trim line))) [
  | inl header ↦ rw (header, h)
  | inr other ↦ rw other
]

read_lines-outside :
    (ls : List Text) (p : EntryParser) → All IsForeign ls → read_lines ls (outside p) ≡ outside p
unfolding read_lines
read_lines-outside [] p h = refl
read_lines-outside (l ∷ ls) p h = rw (read_line-outside l p h.0) (read_lines-outside ls p h.1)

-- A line that opens another group.
read_line_header :
    (line : Text) (p : EntryParser)
    → is_header (trim line) ≡ true
    → IsForeign line
    → read_line (trim line) p ≡ outside p
unfolding read_line outside
read_line_header line p header h = rw (header, h)

finish_outside :
    (path : FilePath) (p : EntryParser) → finish_entry path (outside p) ≡ finish_entry path p
unfolding finish_entry outside
finish_outside path p = refl

read_foreign :
    (header : Text) (rest : List Text) (path : FilePath) (p : EntryParser)
    → is_header (trim header) ≡ true
    → IsForeign header
    → All IsForeign rest
    → finish_entry path (read_lines (header ∷ rest) p) ≡ finish_entry path p
unfolding read_lines
read_foreign header rest path p h f all =
    rw (read_line_header header p h f) (rw (read_lines-outside rest p all) (finish_outside path p))

-- What a desktop file holds behind the header of another group is never read, up to the next header
-- `[Desktop Entry]`: with no such header behind it, the file gives the entry that it gives when it
-- ends before the other group.
pub parse_desktop_entry-foreign :
    (path : FilePath) (before rest header : Text) (more : List Text)
    → lines rest ≡ header ∷ more
    → is_header (trim header) ≡ true
    → IsForeign header
    → All IsForeign more
    → parse_desktop_entry path (before ++ 10 ∷ rest) ≡ parse_desktop_entry path (before ++ 10 ∷ [])
unfolding parse_desktop_entry
parse_desktop_entry-foreign path before rest header more e h f all =
    ap (λ ls. finish_entry path (read_lines ls new_parser)) (lines_split before rest)
    ∙ ap (finish_entry path) (read_lines-append (lines (before ++ 10 ∷ [])) (lines rest) new_parser)
    ∙ rw e
        (read_foreign header more path (read_lines (lines (before ++ 10 ∷ [])) new_parser) h f all)
