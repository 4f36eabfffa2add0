-- ===== src/Observer/Server/Frames.antt =====
-- What the steps of the server send, whether or not they succeed.
use mathlib.Core.List.{append-nil, append_assoc}
use mathlib.Core.Path.{subst}
use lensguard.Prelude.{
  Bool, ◌==◌, ℕ, zero, suc, ◌≡◌, refl, sym, ap, ◌∙◌, List, [], ◌∷◌, ◌++◌, Option, none, some, ◌⊎◌,
  Result, ok, err, Result-cases, Option-cases, inl, inr, Text, arith, Bool-cases, if◌then◌else◌,
}
use lensguard.Io.{ErrorKind, broken_pipe, FileSystem}
use lensguard.Core.Capture.{ObserverMessage, ObserverClientMessage}
use lensguard.Daemon.Wire.{Codec}
use lensguard.Observer.Server.{
  true, take, frame_of, Failure, Connection, Step, ◌>>then◌, take_counted, take_frame, Received,
  routed, lagged, closed, is_user, write, forward,
}

pub some_injective : {a b : List ℕ} → ◌≡◌ {A = Option (List ℕ)} (some a) (some b) → a ≡ b
some_injective h = cc

abbrev put_frame : Result ErrorKind (List ℕ) → Option (List ℕ) → Option (List ℕ)
put_frame (ok frame) (some rest) = some (frame ++ rest)
put_frame _ _ = none

-- Whom a message is for: its user, or everyone if it names none.
abbrev pub is_meant : ℕ → Option ℕ → Bool
is_meant user_id none = true
is_meant user_id (some u) = u == user_id

pub is_user-is_meant : (user_id : ℕ) (o : Option ℕ) → is_user user_id o ≡ is_meant user_id o
is_user-is_meant user_id none = refl
is_user-is_meant user_id (some u) = refl

-- The messages for a user, up to the first error of the receiver.
abbrev pub messages_for : ℕ → List Received → List ObserverMessage
messages_for user_id [] = []
messages_for user_id (lagged ∷ rest) = []
messages_for user_id (closed ∷ rest) = []
messages_for user_id (routed m ∷ rest) =
    if is_meant user_id m.user_id
    then m.message ∷ messages_for user_id rest
    else messages_for user_id rest

module _ (version : Text) (client_codec : Codec ObserverClientMessage)
    (codec : Codec ObserverMessage) (fs : FileSystem) where
  -- The frames of messages, one behind the other, if each can be written.
  abbrev pub frames_of : List ObserverMessage → Option (List ℕ)
  frames_of [] = some []
  frames_of (m ∷ rest) = put_frame (frame_of codec m) (frames_of rest)

  frames_of_last :
      (sent : List ObserverMessage) (m : ObserverMessage) (written frame : List ℕ)
      → frames_of sent ≡ some written
      → frame_of codec m ≡ ok frame
      → frames_of (sent ++ m ∷ []) ≡ some (written ++ frame)
  frames_of_last [] m written frame h k = rw k (rw append-nil (ground arith))
  frames_of_last (s ∷ sent) m written frame h k = elim (Result-cases (frame_of codec s)) [
    | inr (e, failed) ↦ absurd (cc (rw failed at h))
    | inl (f, made) ↦ elim (Option-cases (frames_of sent)) [
      | inl missing ↦ absurd (cc (rw (made, missing) at h))
      | inr (w, there) ↦
          let same : f ++ w ≡ written = some_injective (rw (made, there) at h) in
          rw (made, frames_of_last sent m w frame there k)
            (ap some (sym (append_assoc f w frame) ∙ ap (λ x. x ++ frame) same))
    ]
  ]

  -- No bytes, or a front part of the frame of the first message.
  abbrev pub StartsFrame : List ObserverMessage → List ℕ → Type 0
  StartsFrame [] bytes = bytes ≡ []
  StartsFrame (m ∷ _) bytes =
      (bytes ≡ [])
      ⊎ ((frame : List ℕ) × (n : ℕ) × (frame_of codec m ≡ ok frame) × (bytes ≡ take n frame))

  StartsFrame-nothing : (xs : List ObserverMessage) → StartsFrame xs []
  StartsFrame-nothing [] = refl
  StartsFrame-nothing (m ∷ xs) = inl refl

  StartsFrame-more :
      (xs ys : List ObserverMessage) (bytes : List ℕ)
      → StartsFrame xs bytes
      → StartsFrame (xs ++ ys) bytes
  StartsFrame-more [] ys bytes h = subst (StartsFrame ys) (sym h) (StartsFrame-nothing ys)
  StartsFrame-more (m ∷ xs) ys bytes h = h

  -- Behind the frames of the messages there are the bytes.
  abbrev FramesAnd : List ℕ → List ObserverMessage → List ℕ → Type 0
  FramesAnd bytes sent written = (w : List ℕ) × (frames_of sent ≡ some w) × (written ≡ w ++ bytes)

  FramesAnd-nothing :
      (sent : List ObserverMessage) (written : List ℕ)
      → frames_of sent ≡ some written
      → FramesAnd [] sent written
  FramesAnd-nothing sent written h = (written, h, sym (append-nil written))

  -- The step adds a part of the expected messages, from the front, and writes their frames, and
  -- behind them at most a front part of the frame of the next message; it adds them all if it
  -- succeeds.
  pub record Sends (expected : List ObserverMessage) (before : Connection) (after : Step)
      : Type 0 where
    pub unsent : List ObserverMessage
    pub in_order : after.1.sent ++ unsent ≡ before.sent ++ expected
    pub partial : List ℕ
    pub partly : StartsFrame unsent partial
    pub framed :
        frames_of before.sent ≡ some before.written
        → (w : List ℕ) × (frames_of after.1.sent ≡ some w) × (after.1.written ≡ w ++ partial)
    pub whole : after.0 ≡ ok tt → unsent ≡ []

  -- A step that succeeds leaves no part of a frame.
  pub Sends-partial :
      {xs : List ObserverMessage} {c : Connection} {s : Step} (h : Sends xs c s)
      → s.0 ≡ ok tt
      → h.partial ≡ []
  Sends-partial h done = subst (λ l. StartsFrame l h.partial) (h.whole done) h.partly

  pub nothing-Sends : (c : Connection) (r : Result ErrorKind (Unit {0})) → Sends [] c (r, c)
  nothing-Sends c r = record {
    unsent = [];
    in_order = refl;
    partial = [];
    partly = refl;
    framed = FramesAnd-nothing c.sent c.written;
    whole = λ h. refl;
  }

  pub write-Sends :
      (m : ObserverMessage) (c : Connection)
      → Sends (m ∷ []) c (write version client_codec codec fs m c)
  unfolding write
  write-Sends m c = elim (Result-cases (frame_of codec m)) [
    | inr (e, failed) ↦
        rw (failed, write)
          (record {
            unsent = m ∷ [];
            in_order = refl;
            partial = [];
            partly = inl refl;
            framed = FramesAnd-nothing c.sent c.written;
            whole = λ h. absurd (cc h);
          })
    | inl (frame, made) ↦ rw (made, write) (taken frame made c.room)
  ]
    where
      counted :
          (frame : List ℕ)
          → frame_of codec m ≡ ok frame
          → (failure : Failure) (n : ℕ) → Sends (m ∷ []) c (take_counted m frame failure n c)
      counted frame made failure zero = record {
        unsent = m ∷ [];
        in_order = refl;
        partial = take failure.bytes frame;
        partly = inr (frame, failure.bytes, made, refl);
        framed = λ h. (c.written, h, refl);
        whole = λ h. absurd (cc h);
      }
      counted frame made failure (suc n) = record {
        unsent = [];
        in_order = append-nil _;
        partial = [];
        partly = refl;
        framed = λ h. FramesAnd-nothing _ _ (frames_of_last c.sent m c.written frame h made);
        whole = λ h. refl;
      }

      taken :
          (frame : List ℕ)
          → frame_of codec m ≡ ok frame
          → (room : Option Failure) → Sends (m ∷ []) c (take_frame m frame room c)
      taken frame made none = record {
        unsent = [];
        in_order = append-nil _;
        partial = [];
        partly = refl;
        framed = λ h. FramesAnd-nothing _ _ (frames_of_last c.sent m c.written frame h made);
        whole = λ h. refl;
      }
      taken frame made (some failure) = counted frame made failure failure.frames

  pub then-Sends :
      {xs : List ObserverMessage} (ys : List ObserverMessage) (c : Connection) (s : Step)
      (f : Connection → Step)
      → Sends xs c s
      → Sends ys s.1 (f s.1)
      → Sends (xs ++ ys) c (s >>then f)
  then-Sends {xs} ys c (ok _, c') f h k =
      let sent : c'.sent ≡ c.sent ++ xs =
        sym (append-nil c'.sent) ∙ rw (h.whole refl) at h.in_order in
      record {
        unsent = k.unsent;
        in_order = k.in_order ∙ ap (λ l. l ++ ys) sent ∙ append_assoc c.sent xs ys;
        partial = k.partial;
        partly = k.partly;
        framed = λ g.
            let (w, frames, e) = h.framed g in
            let same : c'.written ≡ w =
              e ∙ ap (λ b. w ++ b) (Sends-partial h refl) ∙ append-nil w in
            k.framed (frames ∙ ap some (sym same));
        whole = k.whole;
      }
  then-Sends {xs} ys c (err e, c') f h k = record {
    unsent = h.unsent ++ ys;
    in_order =
        sym (append_assoc c'.sent h.unsent ys)
        ∙ ap (λ l. l ++ ys) h.in_order
        ∙ append_assoc c.sent xs ys;
    partial = h.partial;
    partly = StartsFrame-more h.unsent ys h.partial h.partly;
    framed = h.framed;
    whole = λ g. absurd (cc g);
  }

  pub forward-Sends :
      (user_id : ℕ) (received : List Received) (c : Connection)
      → Sends
          (messages_for user_id received)
          c
          (forward version client_codec codec fs user_id received c)
  unfolding forward
  forward-Sends user_id [] c = nothing-Sends c (ok tt)
  forward-Sends user_id (lagged ∷ rest) c = nothing-Sends c (err broken_pipe)
  forward-Sends user_id (closed ∷ rest) c = nothing-Sends c (err broken_pipe)
  forward-Sends user_id (routed m ∷ rest) c = elim (Bool-cases (is_meant user_id m.user_id)) [
    | inl mine ↦
        rw (is_user-is_meant user_id m.user_id, mine)
          (then-Sends (messages_for user_id rest) c
            (write version client_codec codec fs m.message c)
            (forward version client_codec codec fs user_id rest) (write-Sends m.message c)
            (forward-Sends user_id rest (write version client_codec codec fs m.message c).1))
    | inr other ↦ rw (is_user-is_meant user_id m.user_id, other) (forward-Sends user_id rest c)
  ]
