-- ===== src/Resolver/Flatpak/Scopes.antt =====
-- The scope of a sandbox, as systemd names it.
use lensguard.Strings.{strip_prefix, strip_suffix, starts_with, after_last, lines, replace_from}
use lensguard.Strings.Splits.{
  Lacks, Lacks-append, strip_prefix-append, rsplit_once-append, lines-append,
}
use lensguard.Resolver.Flatpak.{unescape_systemd, unit_app_id, app_id_from_cgroup}
use lensguard.Prelude.{
  ℕ, zero, ◌≡◌, refl, sym, ap, ◌∙◌, true, false, [], ◌∷◌, ◌++◌, some, Text, codes, text_eq,
  text_eq_iff, length, length-append, ◌==◌, if◌then◌else◌, is_empty, find_map_first, arith,
  Bool-cases, inl, inr,
}

-- Systemd's escape of the dash, which separates the parts of a unit's name.
abbrev pub escape : Text → Text
escape [] = []
escape (c ∷ s) = (if c == b'-' then codes "\\x2d" else c ∷ []) ++ escape s

replace_dash :
    (s : Text)
    → replace_from zero (codes "\\x2d") (codes "-") (codes "\\x2d" ++ s)
      ≡ b'-' ∷ replace_from zero (codes "\\x2d") (codes "-") s
unfolding replace_from strip_prefix
replace_dash s = refl

starts_with-ne :
    (p c : ℕ) (part s : Text) → (c == p) ≡ false → starts_with (p ∷ part) (c ∷ s) ≡ false
unfolding strip_prefix
starts_with-ne p c part s h = ground arith

replace_other :
    (p c : ℕ) (part with s : Text)
    → (c == p) ≡ false
    → replace_from zero (p ∷ part) with (c ∷ s) ≡ c ∷ replace_from zero (p ∷ part) with s
unfolding replace_from
replace_other p c part with s h = rw (starts_with-ne p c part s h)

replace-Lacks : (p : ℕ) (part with s : Text) → Lacks p s → replace_from zero (p ∷ part) with s ≡ s
replace-Lacks p part with [] h = unfold replace_from in refl
replace-Lacks p part with (c ∷ s) h =
    replace_other p c part with s h.0 ∙ ap (◌∷◌ c) (replace-Lacks p part with s h.1)

replace-escape :
    (s : Text) → Lacks b'\\' s → replace_from zero (codes "\\x2d") (codes "-") (escape s) ≡ s
replace-escape [] h = unfold replace_from in refl
replace-escape (c ∷ s) h = elim (Bool-cases (c == b'-')) [
  | inl dash ↦
      let e : c ≡ b'-' = ground arith in
      rw dash
        (replace_dash (escape s) ∙ ap (◌∷◌ b'-') (replace-escape s h.1) ∙ ap (λ d. d ∷ s) (sym e))
  | inr other ↦ rw other (
      replace_other b'\\' c (codes "x2d") (codes "-") (escape s) h.0
      ∙ ap (◌∷◌ c) (replace-escape s h.1))
]

unescape-escape : (s : Text) → Lacks b'\\' s → unescape_systemd (escape s) ≡ s
unfolding unescape_systemd
unescape-escape s h = rw (replace-escape s h) (replace-Lacks b'\\' (codes "x2e") (codes ".") s h)

text_eq-longer : (c : ℕ) (x t : Text) → text_eq (c ∷ (x ++ t)) t ≡ false
text_eq-longer c x t = elim (Bool-cases (text_eq (c ∷ (x ++ t)) t)) [
  | inl same ↦
      let e : c ∷ (x ++ t) ≡ t = (text_eq_iff (c ∷ (x ++ t)) t).0 same in
      absurd (omega (arith, ap length e, length-append {0} x t))
  | inr other ↦ other
]

text_eq_self : (t : Text) → text_eq t t ≡ true
text_eq_self t = (text_eq_iff t t).1 refl

strip_suffix_whole : (t : Text) → strip_suffix t t ≡ some []
unfolding strip_suffix
strip_suffix_whole [] = rw (text_eq_self [])
strip_suffix_whole (c ∷ t) = rw (text_eq_self (c ∷ t))

strip_suffix-append : (x t : Text) → strip_suffix t (x ++ t) ≡ some x
unfolding strip_suffix
strip_suffix-append [] t = strip_suffix_whole t
strip_suffix-append (c ∷ x) t = rw (text_eq-longer c x t, strip_suffix-append x t)

after_last-append : (sep : ℕ) (a b : Text) → Lacks sep b → after_last sep (a ++ sep ∷ b) ≡ b
after_last-append sep a b h = rw (rsplit_once-append sep a b h, after_last)

-- The scope of an instance of an application.
abbrev pub scope : Text → Text → Text
scope app_id instance_id =
    codes "app-flatpak-" ++ ((escape app_id ++ b'-' ∷ instance_id) ++ codes ".scope")

escape-visible : (s : Text) → is_empty s ≡ false → is_empty (escape s) ≡ false
escape-visible [] h = h
escape-visible (c ∷ s) h = elim (Bool-cases (c == b'-')) [
  | inl dash ↦ rw dash
  | inr other ↦ rw other
]

unit_app_id-scope :
    (app_id instance_id : Text)
    → is_empty app_id ≡ false
    → is_empty instance_id ≡ false
    → Lacks b'\\' app_id
    → Lacks b'-' instance_id
    → unit_app_id (scope app_id instance_id) ≡ some app_id
unfolding unit_app_id
unit_app_id-scope app_id instance_id a i back dash = rw (
  strip_prefix-append (codes "app-flatpak-")
      ((escape app_id ++ b'-' ∷ instance_id) ++ codes ".scope"),
  strip_suffix-append (escape app_id ++ b'-' ∷ instance_id) (codes ".scope"),
  rsplit_once-append b'-' (escape app_id) instance_id dash,
  escape-visible app_id a,
  i,
  unescape-escape app_id back,
)

Lacks-escape : (sep : ℕ) (s : Text) → Lacks sep (codes "\\x2d") → Lacks sep s → Lacks sep (escape s)
Lacks-escape sep [] e h = tt
Lacks-escape sep (c ∷ s) e h = elim (Bool-cases (c == b'-')) [
  | inl dash ↦ rw dash (Lacks-append sep (codes "\\x2d") (escape s) e (Lacks-escape sep s e h.1))
  | inr other ↦ rw other (h.0, Lacks-escape sep s e h.1)
]

-- A separator that is no character of the fixed parts, nor of the two names.
Lacks-scope :
    (sep : ℕ) (app_id instance_id : Text)
    → Lacks sep (codes "app-flatpak-")
    → Lacks sep (codes "\\x2d")
    → Lacks sep (codes "-.scope")
    → Lacks sep app_id
    → Lacks sep instance_id
    → Lacks sep (scope app_id instance_id)
Lacks-scope sep app_id instance_id p e d a i = Lacks-append sep (codes "app-flatpak-") _ p (
    Lacks-append sep (escape app_id ++ b'-' ∷ instance_id) (codes ".scope")
      (Lacks-append sep (escape app_id) (b'-' ∷ instance_id) (Lacks-escape sep app_id e a) (d.0, i))
      d.1)

-- A text that can stand in the name of a unit: no slash, no colon, no end of a line.
abbrev pub IsUnitText : Text → Type 0
IsUnitText s = Lacks b'/' s × Lacks b':' s × Lacks 10 s × Lacks 13 s

-- A line of a cgroup file: the hierarchy and its controllers, a colon, and the path of the unit.
abbrev pub cgroup_line : Text → Text → Text → Text
cgroup_line hierarchy slices unit = hierarchy ++ b':' ∷ (slices ++ b'/' ∷ unit)

-- The first line of a cgroup file names the scope of an application, as systemd escapes it: then
-- its identifier is read back, whatever its slices are and whatever lines follow. The names hold
-- no slash, colon or end of a line, the identifier no backslash, the instance no dash, and
-- neither is empty.
pub app_id_from_cgroup-scope :
    (hierarchy slices app_id instance_id rest : Text)
    → Lacks 10 hierarchy
    → Lacks 13 hierarchy
    → Lacks b':' slices
    → Lacks 10 slices
    → Lacks 13 slices
    → is_empty app_id ≡ false
    → is_empty instance_id ≡ false
    → IsUnitText app_id
    → IsUnitText instance_id
    → Lacks b'\\' app_id
    → Lacks b'-' instance_id
    → app_id_from_cgroup (cgroup_line hierarchy slices (scope app_id instance_id) ++ 10 ∷ rest)
      ≡ some app_id
unfolding app_id_from_cgroup
app_id_from_cgroup-scope hierarchy slices app_id instance_id rest h10 h13 sc s10 s13 a i ua ui back
      dash =
    let unit : Text = scope app_id instance_id in
    let path : Text = slices ++ b'/' ∷ unit in
    let slash : Lacks b'/' unit =
      Lacks-scope b'/' app_id instance_id (ground arith) (ground arith) (ground arith) ua.0 ui.0 in
    let colon : Lacks b':' path = Lacks-append b':' slices (b'/' ∷ unit) sc (
      refl,
      Lacks-scope b':' app_id instance_id (ground arith) (ground arith) (ground arith) ua.1 ui.1,
    ) in
    let feed : Lacks 10 (cgroup_line hierarchy slices unit) =
      Lacks-append 10 hierarchy (b':' ∷ path) h10 (
        refl,
        Lacks-append 10 slices (b'/' ∷ unit) s10 (
          refl,
          Lacks-scope 10 app_id instance_id (ground arith) (ground arith) (ground arith) ua.2 ui.2,
        ),
      ) in
    let return : Lacks 13 (cgroup_line hierarchy slices unit) =
      Lacks-append 13 hierarchy (b':' ∷ path) h13 (
        refl,
        Lacks-append 13 slices (b'/' ∷ unit) s13 (
          refl,
          Lacks-scope 13 app_id instance_id (ground arith) (ground arith) (ground arith) ua.3 ui.3,
        ),
      ) in
    let found : unit_app_id (after_last b'/' (after_last b':' (cgroup_line hierarchy slices unit)))
        ≡ some app_id =
      ap (λ p. unit_app_id (after_last b'/' p)) (after_last-append b':' hierarchy path colon)
      ∙ ap unit_app_id (after_last-append b'/' slices unit slash)
      ∙ unit_app_id-scope app_id instance_id a i back dash in
    rw (lines-append (cgroup_line hierarchy slices unit) rest feed return)
      (find_map_first _ (cgroup_line hierarchy slices unit) (lines rest) found)
