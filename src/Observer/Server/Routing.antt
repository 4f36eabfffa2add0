-- ===== src/Observer/Server/Routing.antt =====
-- Who is told what.
use lensguard.Prelude.{
  ◌≢◌, arith, pos, negsuc, Result-cases, Option-cases, ◌≢◌, ℕ, ◌≡◌, List, [], ◌∷◌, ◌++◌, some,
  Result, ok, err, true, false, Bool-cases, inl, inr, Bool, Option,
}
use lensguard.Io.{ErrorKind, invalid_data, FileSystem}
use lensguard.Core.Capture.{ObserverMessage, ObserverClientMessage, observer_schema_version}
use lensguard.Daemon.Wire.{Codec}
use lensguard.Observer.Messages.{diagnostics_of}
use lensguard.Observer.Server.{
  is_authorized_daemon, serve_admitted, Text, Failure, Connection, Step, ◌>>then◌, Received,
  mismatch, Client, write, forward, accepts, admit, greet, serve_client,
}
use lensguard.Observer.Server.Frames.{
  messages_for, Sends, nothing-Sends, write-Sends, then-Sends, forward-Sends,
}

abbrev pub new_connection : Option Failure → Connection
new_connection room = record { sent = []; written = []; room = room }

then_fails : (s : Step) → (s >>then λ c. (err invalid_data, c)).0 ≢ ok tt
then_fails (ok _, c) h = cc h
then_fails (err e, c) h = cc h

module _ (version : Text) (client_codec : Codec ObserverClientMessage)
    (codec : Codec ObserverMessage) (fs : FileSystem) where
  -- What a client is greeted with.
  abbrev pub greetings : ℕ → Client → List ObserverMessage
  greetings user_id client =
      ObserverMessage.hello observer_schema_version version
      ∷ ObserverMessage.availability client.status.availability.0 client.status.availability.1
      ∷ ObserverMessage.diagnostics (diagnostics_of user_id client.later_status)
      ∷ []

  greet-Sends :
      (user_id : ℕ) (client : Client) (c : Connection)
      → Sends version client_codec codec fs
          (greetings user_id client)
          c
          (greet version client_codec codec fs user_id client c)
  unfolding greet
  greet-Sends user_id client c =
      let put = write version client_codec codec fs in
      let told = put (ObserverMessage.hello observer_schema_version version) c in
      let known =
        told
        >>then put (
            ObserverMessage.availability client.status.availability.0
              client.status.availability.1) in
      then-Sends version client_codec codec fs
        (ObserverMessage.diagnostics (diagnostics_of user_id client.later_status) ∷ []) c known
        (put (ObserverMessage.diagnostics (diagnostics_of user_id client.later_status)))
        (then-Sends version client_codec codec fs
          (ObserverMessage.availability client.status.availability.0 client.status.availability.1
            ∷ [])
          c told
          (put (
            ObserverMessage.availability client.status.availability.0 client.status.availability.1))
          (write-Sends version client_codec codec fs _ c)
          (write-Sends version client_codec codec fs _ told.1))
        (write-Sends version client_codec codec fs _ known.1)

  -- A client that is admitted and whose greeting is right is sent the greetings and then the messages
  -- for its user, up to the first error of the receiver: in this order, from the front, in whole
  -- frames, and all of them if no step fails. If one fails, then at most a front part of the frame
  -- of the next message is on the wire behind these frames.
  pub serve_client-Sends :
      (client : Client) (received : List Received) (c : Connection) (user_id : ℕ)
      (greeting : ObserverClientMessage)
      → admit version client_codec codec fs client ≡ ok (user_id, greeting)
      → accepts version client_codec codec fs greeting ≡ true
      → Sends version client_codec codec fs
          (greetings user_id client ++ messages_for user_id received)
          c
          (serve_client version client_codec codec fs client received c)
  unfolding serve_client
  serve_client-Sends client received c user_id greeting admitted accepted =
      let greeted = greet version client_codec codec fs user_id client c in
      rw (admitted, accepted)
        (then-Sends version client_codec codec fs (messages_for user_id received) c greeted
          (forward version client_codec codec fs user_id received) (greet-Sends user_id client c)
          (forward-Sends version client_codec codec fs user_id received greeted.1))

  abbrev is_served : Result ErrorKind (ℕ × ObserverClientMessage) → Bool
  is_served (err _) = false
  is_served (ok (user_id, greeting)) = accepts version client_codec codec fs greeting

  abbrev notices : Result ErrorKind (ℕ × ObserverClientMessage) → List ObserverMessage
  notices (err _) = []
  notices (ok _) = mismatch ∷ []

  refused :
      (client : Client) (received : List Received) (c : Connection)
      (admitted : Result ErrorKind (ℕ × ObserverClientMessage))
      → is_served admitted ≡ false
      → Sends version client_codec codec fs
          (notices admitted)
          c
          (serve_admitted version client_codec codec fs client received c admitted)
        × ((serve_admitted version client_codec codec fs client received c admitted).0 ≢ ok tt)
  refused client received c (err e) h =
      (nothing-Sends version client_codec codec fs c (err e), λ g. cc g)
  refused client received c (ok (user_id, greeting)) h =
      let told = write version client_codec codec fs mismatch c in
      rw h (
        then-Sends version client_codec codec fs [] c told (λ c'. (err invalid_data, c'))
            (write-Sends version client_codec codec fs mismatch c)
            (nothing-Sends version client_codec codec fs told.1 (err invalid_data)),
        then_fails told,
      )

  -- A client that is not served is sent no more than the notice of the mismatch, and that only if it
  -- was admitted and greeted with another version; the service always ends with an error.
  pub serve_client-refused :
      (client : Client) (received : List Received) (c : Connection)
      → is_served (admit version client_codec codec fs client) ≡ false
      → Sends version client_codec codec fs
          (notices (admit version client_codec codec fs client))
          c
          (serve_client version client_codec codec fs client received c)
        × ((serve_client version client_codec codec fs client received c).0 ≢ ok tt)
  unfolding serve_client
  serve_client-refused client received c h =
      refused client received c (admit version client_codec codec fs client) h

  admit-authorized :
      (client : Client) (user_id : ℕ) (greeting : ObserverClientMessage)
      → admit version client_codec codec fs client ≡ ok (user_id, greeting)
      → (p : ℕ) × (client.credentials ≡ ok (record { uid = user_id; pid = some (pos p) }))
        × (is_authorized_daemon fs p ≡ true)
  unfolding admit
  admit-authorized client user_id greeting h = elim (Result-cases client.credentials) [
    | inr (e, failed) ↦ absurd (cc (rw (failed, admit) at h))
    | inl (credentials, known) ↦ elim (Option-cases credentials.pid) [
      | inl missing ↦ absurd (cc (rw (known, missing, admit) at h))
      | inr (negsuc n, there) ↦ absurd (cc (rw (known, there, admit) at h))
      | inr (pos p, there) ↦ elim (Bool-cases (is_authorized_daemon fs p)) [
        | inr other ↦ absurd (cc (rw (known, there, other, admit) at h))
        | inl good ↦ (p, ground arith, good)
      ]
    ]
  ]

  -- Whatever is sent is sent to the user daemon: a peer is sent anything only if the system names its
  -- process, and the executable of this process is one of the two that are installed, a file that
  -- none but root can write.
  pub serve_client-authorized :
      (client : Client) (received : List Received) (c : Connection)
      → (serve_client version client_codec codec fs client received c).1.sent ≢ c.sent
      → (user_id p : ℕ) × (client.credentials ≡ ok (record { uid = user_id; pid = some (pos p) }))
        × (is_authorized_daemon fs p ≡ true)
  unfolding serve_client
  serve_client-authorized client received c h =
      elim (Result-cases (admit version client_codec codec fs client)) [
        | inr (e, failed) ↦ absurd (h (rw (failed, serve_client)))
        | inl ((user_id, greeting), admitted) ↦
            let (p, known, good) = admit-authorized client user_id greeting admitted in
            (user_id, p, known, good)
      ]
