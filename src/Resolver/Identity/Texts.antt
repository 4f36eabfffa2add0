-- ===== src/Resolver/Identity/Texts.antt =====
-- Which texts an identity can show.
use lensguard.Strings.{strip_suffix}
use lensguard.Prelude.{
  codes, ◌≡◌, refl, ◌⊎◌, inl, inr, Bool, true, false, List, [], ◌∷◌, Option, none, some, Text, find,
  any, arith, Bool-cases, is_whitespace, is_control,
}
use lensguard.Paths.{file_name}
use lensguard.Resolver.Request.{ResolutionRequest, unknown_application}
use lensguard.Resolver.PlainText.{plain_text, looks_like_app_id, IsPlain, plain_text-IsPlain}
use lensguard.Resolver.DesktopIndex.{
  DesktopEntry, or_else, and_then, find_entry, has_id, runs, without_suffix,
}
use lensguard.Resolver.Identity.{
  ProcessSnapshot, only_app_id, metadata_name, app_id_of, binary_of, entry_name, preferred_name,
  unwrap_or_unknown, resolve_uncached, is_machine_label, process_name, executable_name,
}

-- A text that is absent or has the property, and a name that an entry has.
abbrev pub IfSome : (Text → Type 0) → Option Text → Type 0
IfSome P none = Unit
IfSome P (some t) = P t

abbrev pub NamesEntry : List DesktopEntry → Text → Type 0
NamesEntry [] t = ⊥
NamesEntry (entry ∷ rest) t = (entry.name ≡ t) ⊎ NamesEntry rest t

abbrev pub Showable : List DesktopEntry → Text → Type 0
Showable entries t = IsPlain t ⊎ NamesEntry entries t

some-IsPlain : (o : Option Text) → ((t : Text) → o ≡ some t → IsPlain t) → IfSome IsPlain o
some-IsPlain none h = tt
some-IsPlain (some t) h = h t refl

IsPlain-IfSome : (o : Option Text) → IfSome IsPlain (and_then o plain_text)
IsPlain-IfSome none = tt
IsPlain-IfSome (some t) = some-IsPlain (plain_text t) (plain_text-IsPlain t)

or_else-IfSome :
    (P : Text → Type 0) (a b : Option Text) → IfSome P a → IfSome P b → IfSome P (or_else a b)
or_else-IfSome P none b h k = k
or_else-IfSome P (some t) b h k = h

only_app_id-IfSome : (o : Option Text) → IfSome IsPlain o → IfSome IsPlain (and_then o only_app_id)
only_app_id-IfSome none h = tt
only_app_id-IfSome (some t) h = elim (Bool-cases (looks_like_app_id t)) [
  | inl yes_id ↦ rw yes_id h
  | inr no_id ↦ rw no_id tt
]

showable :
    (entries : List DesktopEntry) (o : Option Text) → IfSome IsPlain o → IfSome (Showable entries) o
showable entries none h = tt
showable entries (some t) h = inl h

find-NamesEntry :
    (p : DesktopEntry → Bool) (l entries : List DesktopEntry)
    → ((t : Text) → NamesEntry l t → NamesEntry entries t)
    → IfSome (Showable entries) (entry_name (find p l))
unfolding find
find-NamesEntry p [] entries h = tt
find-NamesEntry p (e ∷ l) entries h = elim (Bool-cases (p e)) [
  | inl found ↦ rw (found, find) (inr (h e.name (inl refl)))
  | inr other ↦ rw (other, find) (find-NamesEntry p l entries (λ t k. h t (inr k)))
]

or_else-entry :
    (entries : List DesktopEntry) (a b : Option DesktopEntry)
    → IfSome (Showable entries) (entry_name a)
    → IfSome (Showable entries) (entry_name b)
    → IfSome (Showable entries) (entry_name (or_else a b))
or_else-entry entries none b h k = k
or_else-entry entries (some e) b h k = h

and_then-entry :
    (entries : List DesktopEntry) (o : Option Text) (p : Text → DesktopEntry → Bool)
    → IfSome (Showable entries) (entry_name (and_then o (λ t. find (p t) entries)))
and_then-entry entries none p = tt
and_then-entry entries (some t) p = find-NamesEntry (p t) entries entries (λ u h. h)

find_entry-NamesEntry :
    (entries : List DesktopEntry) (app_id name : Option Text)
    → IfSome (Showable entries) (entry_name (find_entry entries app_id name))
unfolding find_entry
find_entry-NamesEntry entries app_id name =
    or_else-entry entries _ _
      (and_then-entry entries app_id
        (λ id. has_id (without_suffix id (strip_suffix (codes ".desktop") id))))
      (and_then-entry entries name runs)

preferred-IfSome :
    (P : Text → Type 0) (b : Bool) (m e : Option Text)
    → IfSome P m
    → IfSome P e
    → IfSome P (preferred_name b m e)
preferred-IfSome P true m e h k = or_else-IfSome P e m k h
preferred-IfSome P false m e h k = or_else-IfSome P m e h k

unknown-IsPlain : IsPlain unknown_application
unfolding any is_whitespace is_control
unknown-IsPlain = record { bounded = omega arith; plain = refl; visible = refl }

shown-Showable :
    (entries : List DesktopEntry) (o : Option Text)
    → IfSome (Showable entries) o
    → Showable entries (unwrap_or_unknown o)
shown-Showable entries none h = inl unknown-IsPlain
shown-Showable entries (some t) h = h

-- Whatever a request, a process and the desktop entries say: the application identifier and the
-- binary of an identity are plain texts, the name to show is a plain text or the name of a desktop
-- entry, and the process identifier is the request's.
pub resolve_uncached-Showable :
    (entries : List DesktopEntry) (request : ResolutionRequest) (process : Option ProcessSnapshot)
    → let identity = resolve_uncached entries request process in
      (identity.pid ≡ request.pid)
      × IfSome IsPlain identity.app_id
      × IfSome IsPlain identity.binary
      × Showable entries identity.display_name
unfolding resolve_uncached
resolve_uncached-Showable entries request process =
    let metadata = IsPlain-IfSome request.metadata_display_name in
    let app_id = or_else-IfSome IsPlain _ _ (IsPlain-IfSome request.app_id) (
      or_else-IfSome IsPlain _ _ (IsPlain-IfSome (and_then process (λ p. p.flatpak_app_id)))
        (only_app_id-IfSome (metadata_name request) metadata)) in
    let executable = IsPlain-IfSome (and_then (and_then process (λ p. p.executable)) file_name) in
    let named = IsPlain-IfSome (and_then process (λ p. p.process_name)) in
    let binary =
      or_else-IfSome IsPlain _ _ (IsPlain-IfSome request.binary)
        (or_else-IfSome IsPlain _ _ executable named) in
    let entry = find_entry-NamesEntry entries (app_id_of request process) (
      or_else (binary_of request process)
        (or_else (process_name process) (executable_name process))) in
    (
      refl,
      app_id,
      binary,
      shown-Showable entries _ (
          or_else-IfSome (Showable entries) _ _
            (preferred-IfSome (Showable entries)
              (is_machine_label (metadata_name request) (app_id_of request process)
                (binary_of request process))
              _ _ (showable entries _ metadata) entry)
            (or_else-IfSome (Showable entries) _ _ (showable entries _ named) (
              or_else-IfSome (Showable entries) _ _ (showable entries _ executable) (
                or_else-IfSome (Showable entries) _ _ (showable entries _ binary)
                  (showable entries _ app_id))))),
    )
