-- ===== src/Observer/Server/Privacy.antt =====
-- Whom the messages of a user do not reach.
use lensguard.Prelude.{
  ℕ, ◌≡◌, ◌≢◌, ◌++◌, length, refl, sym, ap, ◌∙◌, List, [], ◌∷◌, map, filter, ok, err, Bool-cases,
  inl, inr,
}
use lensguard.Io.{FileSystem}
use lensguard.Core.Capture.{ObserverMessage, ObserverClientMessage, observer_schema_version}
use lensguard.Daemon.Wire.{Codec}
use lensguard.Observer.Messages.{RoutedMessage, SharedStatus, diagnostics_of}
use lensguard.Observer.Server.{
  serve_admitted, Text, Connection, Step, ◌>>then◌, Received, routed, lagged, Client, write,
  forward, accepts, admit, greet, serve_client,
}
use lensguard.Observer.Server.Channel.{
  channel_capacity, Moment, sent, recv, all_sent, delivered, undelivered, KeepsUp, IsBroadcast,
  channel-all_sent,
}
use lensguard.Observer.Server.Frames.{is_meant}

then_same :
    (s : Step) (f g : Connection → Step)
    → ((c : Connection) → f c ≡ g c)
    → (s >>then f) ≡ (s >>then g)
then_same (ok _, c) f g h = h c
then_same (err e, c) f g h = refl

then_not_ok :
    (s : Step) (f : Connection → Step)
    → ((c : Connection) → (f c).0 ≢ ok tt)
    → (s >>then f).0 ≢ ok tt
then_not_ok (ok _, c) f h = h c
then_not_ok (err e, c) f h = λ g. cc g

module _ (version : Text) (client_codec : Codec ObserverClientMessage)
    (codec : Codec ObserverMessage) (fs : FileSystem) where
  forward-filter :
      (user_id : ℕ) (l : List RoutedMessage) (c : Connection)
      → forward version client_codec codec fs user_id (map routed l) c
        ≡ forward version client_codec codec fs user_id
            (map routed (filter (λ m. is_meant user_id m.user_id) l))
            c
  unfolding forward filter
  forward-filter user_id [] c = refl
  forward-filter user_id (m ∷ l) c = elim (Bool-cases (is_meant user_id m.user_id)) [
    | inl mine ↦
        rw (mine, filter)
          (rw mine (
            then_same (write version client_codec codec fs m.message c) _ _
              (λ c'. forward-filter user_id l c')))
    | inr other ↦ rw (other, filter) (forward-filter user_id l c)
  ]

  forward_same :
      (user_id : ℕ) (l other : List RoutedMessage) (c : Connection)
      → filter (λ m. is_meant user_id m.user_id) other ≡ filter (λ m. is_meant user_id m.user_id) l
      → forward version client_codec codec fs user_id (map routed other) c
        ≡ forward version client_codec codec fs user_id (map routed l) c
  forward_same user_id l other c f =
      forward-filter user_id other c
      ∙ ap (λ x. forward version client_codec codec fs user_id (map routed x) c) f
      ∙ sym (forward-filter user_id l c)

  greet_same :
      (client : Client) (status later : SharedStatus) (c : Connection) (user_id : ℕ)
      → status.availability ≡ client.status.availability
      → diagnostics_of user_id later ≡ diagnostics_of user_id client.later_status
      → greet version client_codec codec fs user_id
          (record client { status = status; later_status = later })
          c
        ≡ greet version client_codec codec fs user_id client c
  unfolding greet
  greet_same client status later c user_id a d = λ i.
      let put = write version client_codec codec fs in
      put (ObserverMessage.hello observer_schema_version version) c
      >>then put (ObserverMessage.availability (a i).0 (a i).1)
      >>then put (ObserverMessage.diagnostics (d i))

  admit_same :
      (client : Client) (status later : SharedStatus)
      → admit version client_codec codec fs
          (record client { status = status; later_status = later })
        ≡ admit version client_codec codec fs client
  unfolding admit
  admit_same client status later = refl

  served_same :
      (client : Client) (status later : SharedStatus) (l other : List RoutedMessage)
      (c : Connection) (user_id : ℕ) (greeting : ObserverClientMessage)
      → status.availability ≡ client.status.availability
      → diagnostics_of user_id later ≡ diagnostics_of user_id client.later_status
      → filter (λ m. is_meant user_id m.user_id) other ≡ filter (λ m. is_meant user_id m.user_id) l
      → serve_admitted version client_codec codec fs
          (record client { status = status; later_status = later })
          (map routed other)
          c
          (ok (user_id, greeting))
        ≡ serve_admitted version client_codec codec fs client
            (map routed l)
            c
            (ok (user_id, greeting))
  served_same client status later l other c user_id greeting a d f =
      elim (Bool-cases (accepts version client_codec codec fs greeting)) [
        | inr different ↦ rw different
        | inl right ↦ rw right (
            ap (λ s. s >>then forward version client_codec codec fs user_id (map routed other))
              (greet_same client status later c user_id a d)
            ∙ then_same (greet version client_codec codec fs user_id client c) _ _
                (λ c'. forward_same user_id l other c' f))
      ]

  served_alike :
      (client : Client) (status later : SharedStatus) (l other : List RoutedMessage)
      (c : Connection) (user_id : ℕ) (greeting : ObserverClientMessage)
      → admit version client_codec codec fs client ≡ ok (user_id, greeting)
      → status.availability ≡ client.status.availability
      → diagnostics_of user_id later ≡ diagnostics_of user_id client.later_status
      → filter (λ m. is_meant user_id m.user_id) other ≡ filter (λ m. is_meant user_id m.user_id) l
      → serve_client version client_codec codec fs
          (record client { status = status; later_status = later })
          (map routed other)
          c
        ≡ serve_client version client_codec codec fs client (map routed l) c
  unfolding serve_client
  served_alike client status later l other c user_id greeting admitted a d f =
      rw (admit_same client status later, admitted)
        (served_same client status later l other c user_id greeting a d f)

  -- As long as its receiver keeps up with the channel, what an admitted client is sent, and how its
  -- service ends, depends on nothing that is meant for other users: of two runs in which the
  -- receiver never has more messages before it than the channel holds, which those for other users
  -- count towards, and in which it has received them all in the end, the one gives what the other
  -- gives if the messages for the client's user or for all are the same, and so are the
  -- availability and the user's counts at the greeting, whatever the messages and the counts of other
  -- users are.
  pub serve_client-private :
      (client : Client) (status later : SharedStatus) (channel : List Moment → List Received)
      (moments others : List Moment) (c : Connection) (user_id : ℕ)
      (greeting : ObserverClientMessage)
      → IsBroadcast channel_capacity channel
      → KeepsUp channel_capacity [] moments
      → KeepsUp channel_capacity [] others
      → undelivered [] moments ≡ []
      → undelivered [] others ≡ []
      → admit version client_codec codec fs client ≡ ok (user_id, greeting)
      → status.availability ≡ client.status.availability
      → diagnostics_of user_id later ≡ diagnostics_of user_id client.later_status
      → filter (λ m. is_meant user_id m.user_id) (all_sent others)
        ≡ filter (λ m. is_meant user_id m.user_id) (all_sent moments)
      → serve_client version client_codec codec fs
          (record client { status = status; later_status = later })
          (channel others)
          c
        ≡ serve_client version client_codec codec fs client (channel moments) c
  serve_client-private client status later channel moments others c user_id greeting h k k' e e'
        admitted a d f =
      ap
        (λ received.
          serve_client version client_codec codec fs
            (record client { status = status; later_status = later }) received c)
        (channel-all_sent channel_capacity channel others h k' e')
      ∙ served_alike client status later (all_sent moments) (all_sent others) c user_id greeting
          admitted a d f
      ∙ ap (λ received. serve_client version client_codec codec fs client received c)
          (sym (channel-all_sent channel_capacity channel moments h k e))

  forward-lagged :
      (user_id : ℕ) (l : List RoutedMessage) (later : List Received) (c : Connection)
      → (forward version client_codec codec fs user_id (map routed l ++ lagged ∷ later) c).0 ≢ ok tt
  unfolding forward
  forward-lagged user_id [] later c h = cc h
  forward-lagged user_id (m ∷ l) later c h = then_not_ok _ _ (forward-lagged user_id l later) h

  -- Where the receiver falls behind, though it be by messages for other users, the service ends.
  forward-lags :
      (channel : List Moment → List Received) (moments rest : List Moment) (m : RoutedMessage)
      (user_id : ℕ) (c : Connection)
      → IsBroadcast channel_capacity channel
      → KeepsUp channel_capacity [] moments
      → length (undelivered [] moments) ≡ channel_capacity
      → (forward version client_codec codec fs user_id
          (channel (moments ++ sent m ∷ recv ∷ rest))
          c).0
        ≢ ok tt
  forward-lags channel moments rest m user_id c h k full =
      let (later, given) = h.lags moments rest m k full in
      rw given (forward-lagged user_id (delivered [] moments) later c)
