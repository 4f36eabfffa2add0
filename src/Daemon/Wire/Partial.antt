-- ===== src/Daemon/Wire/Partial.antt =====
-- A read of a frame of which only a part has arrived.
use lensguard.Prelude.{
  ℕ, ◌≡◌, refl, ap, sym, ◌∙◌, ◌<◌, ◌≤◌, List, [], ◌∷◌, ◌++◌, zero, suc, length, take, drop,
  length-append, leb, ok, err, arith, Bool-cases, inl, inr,
}
use lensguard.Core.Capture.{max_observer_message_size}
use lensguard.Io.{ErrorKind}
use lensguard.Daemon.Wire.{Codec, to_be_bytes, read_exact, read_message, io}
use lensguard.Daemon.Wire.RoundTrip.{be_bytes_round_trip, size_allowed}

take-append-le {ℓ} :
    {A : Type ℓ} (n : ℕ) (xs ys : List A) → n ≤ length xs → take n (xs ++ ys) ≡ take n xs
take-append-le zero xs ys h = refl
take-append-le (suc n) [] ys h = absurd (omega arith)
take-append-le (suc n) (x ∷ xs) ys h = ap (◌∷◌ x) (take-append-le n xs ys (omega arith))

drop-append-le {ℓ} :
    {A : Type ℓ} (n : ℕ) (xs ys : List A) → n ≤ length xs → drop n (xs ++ ys) ≡ drop n xs ++ ys
drop-append-le zero xs ys h = refl
drop-append-le (suc n) [] ys h = absurd (omega arith)
drop-append-le (suc n) (x ∷ xs) ys h = drop-append-le n xs ys (omega arith)

read_exact_short :
    (n : ℕ) (xs : List ℕ) (b : ErrorKind)
    → length xs < n
    → read_exact n (record { arrived = xs; blocked = b })
      ≡ (err (io b), record { arrived = []; blocked = b })
unfolding read_exact
read_exact_short n xs b h = ground arith

read_exact_enough :
    (n : ℕ) (xs : List ℕ) (b : ErrorKind)
    → n ≤ length xs
    → read_exact n (record { arrived = xs; blocked = b })
      ≡ (ok (take n xs), record { arrived = drop n xs; blocked = b })
unfolding read_exact
read_exact_enough n xs b h = ground arith

module _ {ℓ} {A : Type ℓ} (codec : Codec A) where
  -- When only a part of a frame has arrived, the read fails with the kind of error that the socket
  -- reports, a timeout say, and the part is gone: what arrives later is read as a new frame.
  pub read_message-partial :
      (payload front back : List ℕ) (b : ErrorKind)
      → 0 < length payload
      → length payload ≤ max_observer_message_size
      → to_be_bytes (length payload) ++ payload ≡ front ++ back
      → 0 < length back
      → read_message codec (record { arrived = front; blocked = b })
        ≡ (err (io b), record { arrived = []; blocked = b })
  unfolding read_message to_be_bytes
  read_message-partial payload front back b low high split more =
      elim (Bool-cases (leb 4 (length front))) [
        | inr short ↦ rw (read_exact_short 4 front b (ground arith)) refl
        | inl long ↦
            let enough : 4 ≤ length front = ground arith in
            let header : take 4 front ≡ to_be_bytes (length payload) =
              sym (ap (take 4) split ∙ take-append-le 4 front back enough) in
            let body : payload ≡ drop 4 front ++ back =
              ap (drop 4) split ∙ drop-append-le 4 front back enough in
            rw (read_exact_enough 4 front b enough) (
              rw header (
                rw (be_bytes_round_trip (length payload) (omega arith)) (
                  rw (size_allowed (length payload) low high) (
                    rw
                      (read_exact_short (length payload) (drop 4 front) b
                        (omega (arith, ap length body, length-append (drop 4 front) back)))
                      refl))))
      ]
