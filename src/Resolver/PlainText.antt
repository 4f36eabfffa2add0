-- ===== src/Resolver/PlainText.antt =====
-- crates/camera-app-resolver/src/resolver.rs, `plain_text` and `looks_like_app_id`: the texts of
-- identities, made safe to show.
use lensguard.Prelude.{
  ℕ, suc, ◌≤◌, ◌≡◌, refl, Bool, true, false, not, ◌&&◌, ◌||◌, [], ◌∷◌, Option, none, some, Text,
  is_whitespace, is_control, trim, trim_start, trim_end, keep_before, is_empty, any, take, length,
  length-take-le, ◌==◌, if◌then◌else◌, arith, Bool-cases, inl, inr,
}

abbrev pub max_identity_text_chars : ℕ
max_identity_text_chars = 256

abbrev pub or_space : ℕ → ℕ
or_space c = if is_control c then 32 else c

-- The loop: a control character counts as a space, and a run of white characters gives one space.
unfoldable pub normalize : Bool → Text → Text
normalize previous_was_space [] = []
normalize previous_was_space (c ∷ rest) =
    let white = normalize true rest in
    let visible = normalize false rest in
    if is_whitespace (or_space c)
    then (if previous_was_space then white else 32 ∷ white)
    else or_space c ∷ visible

-- `plain_text`
unfoldable pub plain_text : Text → Option Text
plain_text value =
    let normalized = trim (normalize false (take max_identity_text_chars (trim value))) in
    if is_empty normalized then none else some normalized

-- `looks_like_app_id`
unfoldable pub looks_like_app_id : Text → Bool
looks_like_app_id value = any (λ c. c == 46) value && not (any is_whitespace value)

-- A character that is not plain: a control character, or a white one that is not the space.
abbrev pub is_odd : ℕ → Bool
is_odd c = is_control c || (is_whitespace c && not (c == 32))

space-plain : is_odd 32 ≡ false
unfolding is_control is_whitespace
space-plain = refl

visible-plain : (c : ℕ) → is_control c ≡ false → is_whitespace c ≡ false → is_odd c ≡ false
visible-plain c h k = rw (h, k) refl

cons-plain :
    (c : ℕ) (s : Text) → is_odd c ≡ false → any is_odd s ≡ false → any is_odd (c ∷ s) ≡ false
unfolding any
cons-plain c s h k = rw h k

white-plain :
    (b : Bool) (s : Text) → any is_odd s ≡ false → any is_odd (if b then s else 32 ∷ s) ≡ false
white-plain true s h = h
white-plain false s h = cons-plain 32 s space-plain h

or_space-plain : (c : ℕ) → is_whitespace (or_space c) ≡ false → is_odd (or_space c) ≡ false
or_space-plain c h = elim (Bool-cases (is_control c)) [
  | inl control ↦ rw control space-plain
  | inr other ↦ rw other (visible-plain c other (rw other at h))
]

normalize-plain : (b : Bool) (s : Text) → any is_odd (normalize b s) ≡ false
unfolding normalize any
normalize-plain b [] = refl
normalize-plain b (c ∷ s) = elim (Bool-cases (is_whitespace (or_space c))) [
  | inl white ↦
      rw (white, any, normalize) (white-plain b (normalize true s) (normalize-plain true s))
  | inr visible ↦
      rw (visible, any, normalize)
        (cons-plain (or_space c) (normalize false s) (or_space-plain c visible)
          (normalize-plain false s))
]

length-normalize-le : (b : Bool) (s : Text) → length (normalize b s) ≤ length s
unfolding normalize
length-normalize-le b [] = ground arith
length-normalize-le b (c ∷ s) =
    ground (arith, length-normalize-le true s, length-normalize-le false s)

-- `trim` only leaves out.
any-trim_start : (p : ℕ → Bool) (s : Text) → any p s ≡ false → any p (trim_start s) ≡ false
unfolding any trim_start
any-trim_start p [] h = refl
any-trim_start p (c ∷ s) h = ground (arith, any-trim_start p s)

any-keep_before :
    (p : ℕ → Bool) (c : ℕ) (s : Text)
    → p c ≡ false
    → any p s ≡ false
    → any p (keep_before c s) ≡ false
unfolding any keep_before
any-keep_before p c [] h k = ground arith
any-keep_before p c (d ∷ s) h k = ground arith

any-trim_end : (p : ℕ → Bool) (s : Text) → any p s ≡ false → any p (trim_end s) ≡ false
unfolding any trim_end
any-trim_end p [] h = refl
any-trim_end p (c ∷ s) h =
    any-keep_before p c (trim_end s) (ground arith) (any-trim_end p s (ground arith))

length-trim_start-le : (s : Text) → length (trim_start s) ≤ length s
unfolding trim_start
length-trim_start-le [] = ground arith
length-trim_start-le (c ∷ s) = ground (arith, length-trim_start-le s)

length-keep_before-le : (c : ℕ) (s : Text) → length (keep_before c s) ≤ suc (length s)
unfolding keep_before
length-keep_before-le c [] = ground arith
length-keep_before-le c (d ∷ s) = ground arith

length-trim_end-le : (s : Text) → length (trim_end s) ≤ length s
unfolding trim_end
length-trim_end-le [] = ground arith
length-trim_end-le (c ∷ s) =
    omega (arith, length-keep_before-le c (trim_end s), length-trim_end-le s)

trim-le : (s : Text) → length (trim s) ≤ length s
unfolding trim
trim-le s = omega (arith, length-trim_end-le (trim_start s), length-trim_start-le s)

trim-plain : (s : Text) → any is_odd s ≡ false → any is_odd (trim s) ≡ false
unfolding trim
trim-plain s h = any-trim_end is_odd (trim_start s) (any-trim_start is_odd s h)

some_injective : {a b : Text} → ◌≡◌ {A = Option Text} (some a) (some b) → a ≡ b
some_injective h = cc

pub record IsPlain (t : Text) : Type 0 where
  pub bounded : length t ≤ max_identity_text_chars
  pub plain : any is_odd t ≡ false
  pub visible : is_empty t ≡ false

-- What `plain_text` gives is plain: at most 256 characters, no control character and no white one
-- but the space, and not empty.
pub plain_text-IsPlain : (value t : Text) → plain_text value ≡ some t → IsPlain t
unfolding plain_text
plain_text-IsPlain value t h =
    let raw : Text = take max_identity_text_chars (trim value) in
    let made : Text = trim (normalize false raw) in
    elim (Bool-cases (is_empty made)) [
      | inl blank ↦ absurd (cc (rw (blank, plain_text) at h))
      | inr visible ↦
          let same : made ≡ t = some_injective (rw (visible, plain_text) at h) in
          rw (← same) (record {
            bounded = omega (
              arith,
              trim-le (normalize false raw),
              length-normalize-le false raw,
              length-take-le max_identity_text_chars (trim value),
            );
            plain = trim-plain (normalize false raw) (normalize-plain false raw);
            visible = visible;
          })
    ]
