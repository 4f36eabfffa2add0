-- ===== src/Daemon/Wire/RoundTrip.antt =====
-- Reading a message that was written.
use mathlib.Core.List.{append_assoc}
use lensguard.Prelude.{
  ◌^◌, ok_or, err-ne-ok, ℕ, ◌≡◌, refl, ap, ◌∙◌, ◌<◌, ◌≤◌, false, ◌||◌, List, ◌++◌, some, length,
  length-append, take-append, drop-append, ltb, ◌==◌, ok, arith, Option-cases, inl, inr,
}
use lensguard.Core.Capture.{max_observer_message_size}
use lensguard.Io.{ErrorKind}
use lensguard.Daemon.Wire.{
  Codec, IsFaithful, to_be_bytes, from_be_bytes, write_message, read_exact, read_message, json,
}

pub be_bytes_round_trip : (n : ℕ) → n < 2 ^ 32 → from_be_bytes (to_be_bytes n) ≡ n
unfolding from_be_bytes to_be_bytes
be_bytes_round_trip n h = omega arith

read_exact-append :
    (xs ys : List ℕ) (b : ErrorKind)
    → read_exact (length xs) (record { arrived = xs ++ ys; blocked = b })
      ≡ (ok xs, record { arrived = ys; blocked = b })
unfolding read_exact
read_exact-append xs ys b =
    ground (arith, take-append xs ys, drop-append xs ys, length-append xs ys)

read_header :
    (n : ℕ) (rest : List ℕ) (b : ErrorKind)
    → read_exact 4 (record { arrived = to_be_bytes n ++ rest; blocked = b })
      ≡ (ok (to_be_bytes n), record { arrived = rest; blocked = b })
unfolding to_be_bytes
read_header n rest b = read_exact-append (to_be_bytes n) rest b

pub size_allowed :
    (n : ℕ)
    → 0 < n
    → n ≤ max_observer_message_size
    → (n == 0 || ltb max_observer_message_size n) ≡ false
size_allowed n low high = ground arith

module _ {ℓ} {A : Type ℓ} (codec : Codec A) where
  -- A frame of a size that is allowed.
  read_frame :
      (payload rest : List ℕ) (b : ErrorKind)
      → 0 < length payload
      → length payload ≤ max_observer_message_size
      → read_message codec
          (record { arrived = to_be_bytes (length payload) ++ (payload ++ rest); blocked = b })
        ≡ (ok_or (codec.from_slice payload) json, record { arrived = rest; blocked = b })
  unfolding read_message
  read_frame payload rest b low high = rw (read_header (length payload) (payload ++ rest) b) (
      rw (be_bytes_round_trip (length payload) (omega arith))
        (rw (size_allowed (length payload) low high) (rw (read_exact-append payload rest b) refl)))

  written_frame :
      (value : A) (bytes : List ℕ)
      → write_message codec value ≡ ok bytes
      → (payload : List ℕ) × (codec.to_vec value ≡ some payload)
        × (bytes ≡ to_be_bytes (length payload) ++ payload)
        × (length payload ≤ max_observer_message_size)
  unfolding write_message
  written_frame value bytes h = elim (Option-cases (codec.to_vec value)) [
    | inl failed ↦ absurd (err-ne-ok (rw (failed, write_message) at h))
    | inr (payload, made) ↦ (payload, made, ground arith, ground arith)
  ]

  -- Whatever `write_message` writes, `read_message` reads as the same value, and leaves the stream
  -- at the byte behind the frame.
  pub read-write_message :
      (value : A) (bytes rest : List ℕ) (b : ErrorKind)
      → IsFaithful codec
      → write_message codec value ≡ ok bytes
      → read_message codec (record { arrived = bytes ++ rest; blocked = b })
        ≡ (ok value, record { arrived = rest; blocked = b })
  read-write_message value bytes rest b faithful h =
      let (payload, made, frame, size) = written_frame value bytes h in
      rw (frame, append_assoc)
        (read_frame payload rest b (faithful.not_blank value payload made) size
          ∙ ap (λ r. (ok_or r json, record { arrived = rest; blocked = b }))
              (faithful.reads_back value payload made))
