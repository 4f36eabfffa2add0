-- ===== src/Daemon/Wire.antt =====
-- daemon/src/observer.rs, `write_message` and `read_message`: length-prefixed frames.
--
-- `serde_json` is a parameter: a codec for each message type. A stream is what has arrived and what
-- a read past it meets.
pub mod RoundTrip
pub mod Partial
use lensguard.Prelude.{
  ℕ, ◌+◌, ◌*◌, ◌/◌, ◌%◌, ◌^◌, ◌-◌, ◌≡◌, ◌<◌, Bool, true, false, ◌||◌, List, [], ◌∷◌, ◌++◌, Option,
  none, some, length, take, drop, ltb, leb, ◌==◌, if◌then◌else◌, Result, ok, err, ◌>>=◌, ◌>>◌,
  ok_or, fail_if, Text,
}
use lensguard.Io.{ErrorKind, not_found}
use lensguard.Core.Capture.{ObserverAvailability, EventValidationError, max_observer_message_size}

pub data ObserverError : Type 0 where
  connect io : ErrorKind → ObserverError
  json oversized_message invalid_handshake : ObserverError
  rejected_event : EventValidationError → ObserverError

-- `ObserverError::availability`
unfoldable pub availability : ObserverError → ObserverAvailability
availability (connect not_found) = ObserverAvailability.not_installed
availability invalid_handshake = ObserverAvailability.version_mismatch
availability _ = ObserverAvailability.connection_failed

-- `serde_json::to_vec` and `serde_json::from_slice` at one type.
pub record Codec {ℓ} (A : Type ℓ) : Type ℓ where
  pub to_vec : A → Option (List ℕ)
  pub from_slice : List ℕ → Option A

-- What is documented of them: a value that was written reads back, and no JSON text is empty.
pub record IsFaithful {ℓ} {A : Type ℓ} (c : Codec A) : Type ℓ where
  pub reads_back :
      (a : A) (payload : List ℕ) → c.to_vec a ≡ some payload → c.from_slice payload ≡ some a
  pub not_blank : (a : A) (payload : List ℕ) → c.to_vec a ≡ some payload → 0 < length payload

abbrev pub u32_max : ℕ
u32_max = 2 ^ 32 - 1

-- `u32::to_be_bytes`
unfoldable pub to_be_bytes : ℕ → List ℕ
to_be_bytes n = n / 2 ^ 24 ∷ n / 2 ^ 16 % 256 ∷ n / 2 ^ 8 % 256 ∷ n % 256 ∷ []

-- `u32::from_be_bytes` of the four bytes that were read.
unfoldable pub from_be_bytes : List ℕ → ℕ
from_be_bytes (a ∷ b ∷ c ∷ d ∷ _) = ((a * 256 + b) * 256 + c) * 256 + d
from_be_bytes _ = 0

module _ {ℓ} {A : Type ℓ} (codec : Codec A) where
  -- `write_message`: the bytes that go to a writer that takes them all.
  unfoldable pub write_message : A → Result ObserverError (List ℕ)
  write_message value = do
    payload ← ok_or (codec.to_vec value) json
    fail_if (ltb max_observer_message_size (length payload)) oversized_message
    fail_if (ltb u32_max (length payload)) oversized_message
    ok (to_be_bytes (length payload) ++ payload)

-- The bytes that have arrived, and the error of a read that wants more.
pub record Stream : Type 0 where
  pub arrived : List ℕ
  pub blocked : ErrorKind

-- `Read::read_exact`: a read that fails has taken what there was.
unfoldable pub read_exact : ℕ → Stream → Result ObserverError (List ℕ) × Stream
read_exact n s =
    if leb n (length s.arrived)
    then (ok (take n s.arrived), record s { arrived = drop n s.arrived })
    else (err (io s.blocked), record s { arrived = [] })

-- The tail of a `do` block over a stream: an error ends it and leaves the stream where it is.
infixl 5 ◌>>then◌
abbrev pub ◌>>then◌ {ℓ κ} :
    {A : Type ℓ} {B : Type κ}
    → Result ObserverError A × Stream
    → (A → Stream → Result ObserverError B × Stream)
    → Result ObserverError B × Stream
(ok a, s) >>then f = f a s
(err e, s) >>then f = (err e, s)

module _ {ℓ} {A : Type ℓ} (codec : Codec A) where
  abbrev decode_payload : List ℕ → Stream → Result ObserverError A × Stream
  decode_payload payload s = (ok_or (codec.from_slice payload) json, s)

  abbrev read_payload : List ℕ → Stream → Result ObserverError A × Stream
  read_payload header s =
      let size = from_be_bytes header in
      if size == 0 || ltb max_observer_message_size size
      then (err oversized_message, s)
      else read_exact size s >>then decode_payload

  -- `read_message`
  unfoldable pub read_message : Stream → Result ObserverError A × Stream
  read_message s = read_exact 4 s >>then read_payload
