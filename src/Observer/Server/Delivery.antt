-- ===== src/Observer/Server/Delivery.antt =====
-- The observer's server and the daemon's client, one at each end of the socket.
use mathlib.Core.List.{append-nil, append_assoc}
use mathlib.Core.Path.{subst}
use lensguard.Prelude.{
  ℕ, ◌≡◌, refl, sym, ap, ◌∙◌, true, ◌||◌, List, [], ◌∷◌, ◌++◌, Option, some, pos, Text, text_eq_iff,
  length, take, drop, ltb, leb, ◌==◌, ok, Result-cases, Option-cases, Bool-cases, inl, inr,
}
use lensguard.Io.{ErrorKind, FileSystem}
use lensguard.Core.Capture.{
  ObserverMessage, ObserverClientMessage, observer_schema_version, max_observer_message_size,
}
use lensguard.Core.Machine.{new_machine}
use lensguard.Daemon.Wire.{
  Codec, IsFaithful, Stream, u32_max, from_be_bytes, write_message, read_exact,
}
use lensguard.Daemon.Wire
use lensguard.Daemon.Wire.RoundTrip.{read-write_message}
use lensguard.Daemon.Source.{ObserverEventSource, SocketCalls, connect_to}
use lensguard.Observer.Server.{
  Failure, Client, Received, read_message, frame_of, admit, is_authorized_daemon, serve_client,
}
use lensguard.Observer.Server.Frames.{some_injective, Sends, frames_of, messages_for}
use lensguard.Observer.Server.Routing.{new_connection, greetings, serve_client-Sends}

module _ {ℓ} {A : Type ℓ} (codec : Codec A) where
  -- The two ends frame alike.
  frame_of-write_message :
      (a : A) (frame : List ℕ) → frame_of codec a ≡ ok frame → write_message codec a ≡ ok frame
  unfolding frame_of write_message
  frame_of-write_message a frame h = elim (Option-cases (codec.to_vec a)) [
    | inl failed ↦ absurd (cc (rw (failed, frame_of) at h))
    | inr (payload, made) ↦ elim (Bool-cases (ltb max_observer_message_size (length payload))) [
      | inl long ↦ absurd (cc (rw (made, long, frame_of) at h))
      | inr fits ↦ elim (Bool-cases (ltb u32_max (length payload))) [
        | inl huge ↦ absurd (cc (rw (made, fits, huge, frame_of) at h))
        | inr small ↦ rw (made, fits, small) (cc (rw (made, fits, small, frame_of) at h))
      ]
    ]
  ]

  -- What the one end reads, the other reads.
  read_alike :
      (s s' : Stream) (a : A) → Wire.read_message codec s ≡ (ok a, s') → read_message codec s ≡ ok a
  unfolding Wire.read_message read_message read_exact
  read_alike s s' a h = elim (Bool-cases (leb 4 (length s.arrived))) [
    | inr short ↦ absurd (cc (rw (short, read_exact, Wire.read_message) at h))
    | inl there ↦
        let size : ℕ = from_be_bytes (take 4 s.arrived) in
        elim (Bool-cases (size == 0 || ltb max_observer_message_size size)) [
          | inl odd ↦ absurd (cc (rw (there, odd, read_exact, Wire.read_message) at h))
          | inr good ↦ elim (Bool-cases (leb size (length (drop 4 s.arrived)))) [
            | inr short ↦ absurd (cc (rw (there, good, short, read_exact, Wire.read_message) at h))
            | inl whole ↦ elim (Option-cases (codec.from_slice (take size (drop 4 s.arrived)))) [
              | inl bad ↦
                  absurd (cc (rw (there, good, whole, bad, read_exact, Wire.read_message) at h))
              | inr (b, read) ↦
                  rw (there, good, whole, read)
                    (cc (rw (there, good, whole, read, read_exact, Wire.read_message) at h))
            ]
          ]
        ]
  ]

module _ (version : Text) (client_codec : Codec ObserverClientMessage)
    (codec : Codec ObserverMessage) (fs : FileSystem) where
  -- Reading message by message gives these, and then the bytes are left to read.
  abbrev pub Yields : List ℕ → List ObserverMessage → Stream → Type 0
  Yields bytes [] s = s.arrived ≡ bytes
  Yields bytes (m ∷ rest) s =
      (later : Stream) × (Wire.read_message codec s ≡ (ok m, later)) × Yields bytes rest later

  frames_of-first :
      (m : ObserverMessage) (rest : List ObserverMessage) (written : List ℕ)
      → frames_of version client_codec codec fs (m ∷ rest) ≡ some written
      → (frame later : List ℕ) × (frame_of codec m ≡ ok frame)
        × (frames_of version client_codec codec fs rest ≡ some later)
        × (written ≡ frame ++ later)
  frames_of-first m rest written h = elim (Result-cases (frame_of codec m)) [
    | inr (e, failed) ↦ absurd (cc (rw failed at h))
    | inl (frame, made) ↦ elim (Option-cases (frames_of version client_codec codec fs rest)) [
      | inl missing ↦ absurd (cc (rw (made, missing) at h))
      | inr (later, there) ↦ (frame, later, made, there, cc (rw (made, there) at h))
    ]
  ]

  frames-Yields :
      (sent : List ObserverMessage) (written bytes : List ℕ) (blocked : ErrorKind)
      → IsFaithful codec
      → frames_of version client_codec codec fs sent ≡ some written
      → Yields bytes sent (record { arrived = written ++ bytes; blocked = blocked })
  frames-Yields [] written bytes blocked faithful h = ap (λ w. w ++ bytes) (sym (some_injective h))
  frames-Yields (m ∷ rest) written bytes blocked faithful h =
      let (frame, later, made, there, e) = frames_of-first m rest written h in
      (
        record { arrived = later ++ bytes; blocked = blocked },
        rw (e, append_assoc frame later bytes)
            (read-write_message codec m frame (later ++ bytes) blocked faithful
              (frame_of-write_message codec m frame made)),
        frames-Yields rest later bytes blocked faithful there,
      )

  -- A socket whose calls succeed, with what has arrived from the other end.
  abbrev pub open_socket : List ℕ → ErrorKind → SocketCalls
  open_socket written blocked = record {
    connect = ok (record { arrived = written; blocked = blocked });
    set_write_timeout = ok tt;
    write_all = ok tt;
    set_read_timeout = ok tt;
  }

  abbrev pub daemon_hello : ObserverClientMessage
  daemon_hello = ObserverClientMessage.hello observer_schema_version version

  abbrev observer_hello : ObserverMessage
  observer_hello = ObserverMessage.hello observer_schema_version version

  connect_to-hello :
      (written bytes : List ℕ) (blocked : ErrorKind) (later : Stream)
      → write_message client_codec daemon_hello ≡ ok bytes
      → Wire.read_message codec (record { arrived = written; blocked = blocked })
        ≡ (ok observer_hello, later)
      → connect_to version client_codec codec (open_socket written blocked)
        ≡ ok (record { stream = later; sessions = new_machine; pending = [] })
  unfolding connect_to
  connect_to-hello written bytes blocked later w r = rw (w, r, (text_eq_iff version version).1 refl)

  admit_daemon :
      (client : Client) (user_id p : ℕ)
      → client.credentials ≡ ok (record { uid = user_id; pid = some (pos p) })
      → is_authorized_daemon fs p ≡ true
      → read_message client_codec client.stream ≡ ok daemon_hello
      → admit version client_codec codec fs client ≡ ok (user_id, daemon_hello)
  unfolding admit
  admit_daemon client user_id p known good hello = rw (known, good, hello)

  -- What a server has sent that has sent something, behind the greeting.
  first_sent :
      (client : Client) (user_id : ℕ) (received : List Received)
      (sent unsent : List ObserverMessage) (first : ObserverMessage) (rest : List ObserverMessage)
      → sent ++ unsent
        ≡ greetings version client_codec codec fs user_id client ++ messages_for user_id received
      → sent ≡ first ∷ rest
      → first ≡ observer_hello
  first_sent client user_id received sent unsent first rest e s =
      let whole = ap (λ l. l ++ unsent) (sym s) ∙ e in cc whole

  -- The installed daemon is admitted if its greeting has arrived.
  pub daemon_admitted :
      (client : Client) (user_id p : ℕ) (bytes : List ℕ) (blocked : ErrorKind)
      → IsFaithful client_codec
      → write_message client_codec daemon_hello ≡ ok bytes
      → client.stream ≡ record { arrived = bytes; blocked = blocked }
      → client.credentials ≡ ok (record { uid = user_id; pid = some (pos p) })
      → is_authorized_daemon fs p ≡ true
      → admit version client_codec codec fs client ≡ ok (user_id, daemon_hello)
  daemon_admitted client user_id p bytes blocked fc w st known good =
      let heard : Wire.read_message client_codec client.stream
          ≡ (ok daemon_hello, record { arrived = []; blocked = blocked }) =
        rw st (
          ap (λ b. Wire.read_message client_codec (record { arrived = b; blocked = blocked }))
            (sym (append-nil bytes))
          ∙ read-write_message client_codec daemon_hello bytes [] blocked fc w) in
      admit_daemon client user_id p known good
        (read_alike client_codec client.stream _ daemon_hello heard)

  -- A daemon whose greeting has arrived, whose process is the installed daemon's, to whom the observer
  -- has sent something, whose own calls of its socket succeed, and that reads when all that the
  -- observer has written has arrived, is connected: its handshake succeeds, with a fresh machine, and
  -- then it reads, message by message, all that was sent to it behind the observer's greeting, which
  -- is a front part of the greetings and the messages for its user. What is left to read then, where
  -- a write of the observer has failed within a frame, is at most a front part of the frame of the
  -- next message, and it is nothing if the observer's service had no error. It is the codecs' part
  -- that they read back what they write.
  pub connect_to-serve_client :
      (client : Client) (received : List Received) (room : Option Failure) (user_id p : ℕ)
      (bytes : List ℕ) (blocked : ErrorKind) (first : ObserverMessage) (rest : List ObserverMessage)
      → IsFaithful client_codec
      → IsFaithful codec
      → write_message client_codec daemon_hello ≡ ok bytes
      → client.stream ≡ record { arrived = bytes; blocked = blocked }
      → client.credentials ≡ ok (record { uid = user_id; pid = some (pos p) })
      → is_authorized_daemon fs p ≡ true
      → (serve_client version client_codec codec fs client received (new_connection room)).1.sent
        ≡ first ∷ rest
      → (sends : Sends version client_codec codec fs
          (greetings version client_codec codec fs user_id client ++ messages_for user_id received)
          (new_connection room)
          (serve_client version client_codec codec fs client received (new_connection room)))
        × (source : ObserverEventSource) × (connect_to version client_codec codec (
              open_socket
                (serve_client version client_codec codec fs client received
                  (new_connection room)).1.written
                blocked)
            ≡ ok source)
        × (source.sessions ≡ new_machine)
        × (source.pending ≡ [])
        × Yields sends.partial rest source.stream
  connect_to-serve_client client received room user_id p bytes blocked first rest fc fs' w st known
        good s =
      let admitted = daemon_admitted client user_id p bytes blocked fc w st known good in
      let sends =
        serve_client-Sends version client_codec codec fs client received (new_connection room)
          user_id daemon_hello admitted ((text_eq_iff version version).1 refl) in
      let hello = first_sent client user_id received _ sends.unsent first rest sends.in_order s in
      let (whole, made, written) = sends.framed refl in
      let frames = sym (ap (frames_of version client_codec codec fs) s) ∙ made in
      let (later, read, yields) =
        subst (λ b. Yields sends.partial (first ∷ rest) (record { arrived = b; blocked = blocked }))
          (sym written) (frames-Yields (first ∷ rest) whole sends.partial blocked fs' frames) in
      (
        sends,
        record { stream = later; sessions = new_machine; pending = [] },
        connect_to-hello _ bytes blocked later w (read ∙ ap (λ m. (ok m, later)) hello),
        refl,
        refl,
        yields,
      )
