-- ===== src/Observer/Server/Current.antt =====
-- How up to date a client is.
use mathlib.Core.List.{append-nil}
use lensguard.Prelude.{
  ℕ, ◌≡◌, sym, ap, ◌∙◌, true, List, ◌++◌, map, Option, some, Text, ok, Result, length, drop,
  drop-append, err,
}
use lensguard.Io.{ErrorKind, FileSystem}
use lensguard.Core.Capture.{ObserverMessage, ObserverClientMessage}
use lensguard.Daemon.Wire.{Codec}
use lensguard.Observer.Messages.{RoutedMessage, SharedStatus, diagnostics_of}
use lensguard.Observer.Events.{Processor, Wake, process_kernel_events}
use lensguard.Observer.Startup.{shut_down}
use lensguard.Observer.Server.{Failure, routed, Client, accepts, admit, serve_client}
use lensguard.Observer.Server.Frames.{messages_for}
use lensguard.Observer.Server.Routing.{new_connection, greetings, serve_client-Sends}
use lensguard.Observer.Server.Told.{
  View, see_all, see_all-append, view_of, Told, then-Told, unchanged-Told, set_availability-Told,
  process_kernel_events-Told,
}

shut_down-Told :
    (user_id : ℕ) (signal : Result ErrorKind (Unit {0})) (s : SharedStatus)
    → Told user_id s (shut_down signal s).1
shut_down-Told user_id (err e) s = unchanged-Told user_id s
shut_down-Told user_id (ok _) s = set_availability-Told user_id _ _ s

-- What is sent from one status to another is the rest of the list.
seen_later :
    (user_id : ℕ) (before after : SharedStatus)
    → Told user_id before after
    → see_all
        (messages_for user_id (map routed (drop (length before.messages) after.messages)))
        (view_of user_id before)
      ≡ view_of user_id after
seen_later user_id before after h =
    ap (λ l. see_all (messages_for user_id (map routed l)) (view_of user_id before))
      (ap (drop (length before.messages)) h.appended ∙ drop-append before.messages h.later)
    ∙ h.seen

module _ (version : Text) (client_codec : Codec ObserverClientMessage)
    (codec : Codec ObserverMessage) (fs : FileSystem) where
  -- The greetings tell the status, whatever was known before.
  greeted :
      (user_id : ℕ) (client : Client) (subscribed : SharedStatus) (v : View)
      → client.status.availability ≡ subscribed.availability
      → diagnostics_of user_id client.later_status ≡ diagnostics_of user_id subscribed
      → see_all (greetings version client_codec codec fs user_id client) v
        ≡ view_of user_id subscribed
  greeted user_id client subscribed v a d =
      λ i. record { availability = some (a i); diagnostics = some (d i) }

  -- A client whose socket takes every message is sent them all.
  pub sent_all :
      (client : Client) (received : List RoutedMessage) (room : Option Failure) (user_id : ℕ)
      (greeting : ObserverClientMessage)
      → admit version client_codec codec fs client ≡ ok (user_id, greeting)
      → accepts version client_codec codec fs greeting ≡ true
      → (serve_client version client_codec codec fs client
          (map routed received)
          (new_connection room)).0
        ≡ ok tt
      → (serve_client version client_codec codec fs client
          (map routed received)
          (new_connection room)).1.sent
        ≡ greetings version client_codec codec fs user_id client
          ++ messages_for user_id (map routed received)
  sent_all client received room user_id greeting admitted accepted done =
      let sends =
        serve_client-Sends version client_codec codec fs client (map routed received)
          (new_connection room) user_id greeting admitted accepted in
      sym (append-nil _)
      ∙ ap
          (λ l.
            (serve_client version client_codec codec fs client (map routed received)
              (new_connection room)).1.sent
            ++ l)
          (sym (sends.whole done))
      ∙ sends.in_order

  -- The greetings and what is sent behind the subscription tell the status, also behind the shutdown,
  -- if the status that the client is greeted with is still that at the subscription.
  pub seen_all :
      (client : Client) (user_id : ℕ) (p : Processor) (wakes : List Wake)
      (signal : Result ErrorKind (Unit {0})) (after : SharedStatus) (received : List RoutedMessage)
      (v : View)
      → client.status.availability ≡ p.shared.availability
      → diagnostics_of user_id client.later_status ≡ diagnostics_of user_id p.shared
      → (shut_down signal (process_kernel_events wakes p).shared).1 ≡ after
      → drop (length p.shared.messages) after.messages ≡ received
      → see_all
          (greetings version client_codec codec fs user_id client
            ++ messages_for user_id (map routed received))
          v
        ≡ view_of user_id after
  seen_all client user_id p wakes signal after received v a d ends rest =
      let told : Told user_id p.shared after = rw ends at (
        then-Told user_id p.shared _ _ (process_kernel_events-Told user_id wakes p)
          (shut_down-Told user_id signal (process_kernel_events wakes p).shared)) in
      see_all-append (greetings version client_codec codec fs user_id client)
        (messages_for user_id (map routed received)) v
      ∙ ap (see_all (messages_for user_id (map routed received)))
          (greeted user_id client p.shared v a d)
      ∙ ap (λ l. see_all (messages_for user_id (map routed l)) (view_of user_id p.shared))
          (sym rest)
      ∙ seen_later user_id p.shared after told
