-- ===== src/Tests/ServerTests.antt =====
-- The theorems on the observer's server and its start at a concrete client.
use mathlib.Core.Bool.{decide}
use lensguard.Prelude.{
  zero, suc, ◌-◌, ℕ_discrete, ℕ, ◌≡◌, ◌≢◌, ◌↔◌, refl, true, false, List, [], ◌∷◌, ◌++◌, Option,
  none, some, pos, Text, codes, text_eq, any, ok, err, ◌==◌, if◌then◌else◌, length, arith, ◌<◌,
}
use lensguard.Io.{FileSystem, Metadata, timed_out, not_found, broken_pipe}
use lensguard.Paths.{path_of, path_eq, segments, components}
use lensguard.OrderedMap.{get}
use lensguard.Observer.Policy.{TrustedBrokerPolicy}
use lensguard.Core.Capture.{
  SuppressionDiagnostics, ObserverAvailability, ObserverMessage, ObserverClientMessage,
}
use lensguard.Core.Machine.{new_machine}
use lensguard.Daemon.Wire.{Codec, IsFaithful, to_be_bytes, from_be_bytes, write_message}
use lensguard.Daemon.Source.{ObserverEventSource, connect_to}
use lensguard.Observer.Messages.{RoutedMessage, SharedStatus}
use lensguard.Observer.Server.{
  Failure, Client, routed, admit, is_authorized_daemon, read_message, frame_of, write, forward,
  greet, serve_client,
}
use lensguard.Observer.Server.Frames.{Sends, messages_for}
use lensguard.Observer.Server.Routing.{
  new_connection, greetings, serve_client-Sends, serve_client-authorized,
}
use lensguard.Observer.Server.Delivery.{Yields, open_socket, daemon_hello, connect_to-serve_client}
use lensguard.Observer.Startup.{start_up, processor, is_ok}
use lensguard.Observer.Startup.Availability.{process_kernel_events-available}
use lensguard.Observer.Events.{process_kernel_events, tick}

-- Codecs for the greetings of a version without a name, for one status, and for two counts.
abbrev greeting_bytes : ℕ → Text → Option (List ℕ)
greeting_bytes n [] = if n == 1 then some (49 ∷ []) else none
greeting_bytes n (c ∷ t) = none

abbrev status_bytes : ObserverAvailability → Text → Option (List ℕ)
status_bytes ObserverAvailability.blocked_by_policy [] = some (50 ∷ [])
status_bytes _ _ = none

abbrev count_bytes : ℕ → ℕ → Option (List ℕ)
count_bytes zero zero = some (51 ∷ [])
count_bytes zero (suc zero) = some (52 ∷ [])
count_bytes _ _ = none

abbrev message_bytes : ObserverMessage → Option (List ℕ)
message_bytes (ObserverMessage.hello n t) = greeting_bytes n t
message_bytes (ObserverMessage.availability a t) = status_bytes a t
message_bytes (ObserverMessage.capture e) = none
message_bytes (ObserverMessage.diagnostics d) =
    count_bytes d.suppressed_broker_events d.suppressed_unknown_events

abbrev pub counts : ℕ → SuppressionDiagnostics
counts n = record { suppressed_broker_events = 0; suppressed_unknown_events = n }

abbrev message_of : ℕ → ObserverMessage
message_of b =
    if b == 49
    then ObserverMessage.hello 1 []
    else if b == 50
    then ObserverMessage.availability ObserverAvailability.blocked_by_policy []
    else ObserverMessage.diagnostics (counts (b - 51))

abbrev message_from : List ℕ → Option ObserverMessage
message_from [] = none
message_from (b ∷ _) = some (message_of b)

abbrev pub codec : Codec ObserverMessage
codec = record { to_vec = message_bytes; from_slice = message_from }

some_injective : {a b : List ℕ} → ◌≡◌ {A = Option (List ℕ)} (some a) (some b) → a ≡ b
some_injective h = cc

counts_read_back :
    (b u : ℕ) (payload : List ℕ)
    → count_bytes b u ≡ some payload
    → message_from payload
      ≡ some (
          ObserverMessage.diagnostics
            (record { suppressed_broker_events = b; suppressed_unknown_events = u }))
counts_read_back zero zero payload h = rw (← some_injective h) refl
counts_read_back zero (suc zero) payload h = rw (← some_injective h) refl
counts_read_back zero (suc (suc u)) payload h = absurd (cc h)
counts_read_back (suc b) u payload h = absurd (cc h)

some_counts : (b u : ℕ) (payload : List ℕ) → count_bytes b u ≡ some payload → 0 < length payload
some_counts zero zero payload h = ground arith
some_counts zero (suc zero) payload h = ground arith
some_counts zero (suc (suc u)) payload h = absurd (cc h)
some_counts (suc b) u payload h = absurd (cc h)

reads_back :
    (m : ObserverMessage) (payload : List ℕ)
    → message_bytes m ≡ some payload
    → message_from payload ≡ some m
reads_back (ObserverMessage.hello n []) payload h = ground arith
reads_back (ObserverMessage.hello n (c ∷ t)) payload h = absurd (cc h)
reads_back (ObserverMessage.availability ObserverAvailability.blocked_by_policy []) payload h =
    rw (← some_injective h) refl
reads_back (ObserverMessage.availability _ _) payload h = absurd (cc h)
reads_back (ObserverMessage.capture e) payload h = absurd (cc h)
reads_back (ObserverMessage.diagnostics d) payload h =
    counts_read_back d.suppressed_broker_events d.suppressed_unknown_events payload h

not_blank :
    (m : ObserverMessage) (payload : List ℕ) → message_bytes m ≡ some payload → 0 < length payload
not_blank (ObserverMessage.hello n []) payload h = ground arith
not_blank (ObserverMessage.hello n (c ∷ t)) payload h = absurd (cc h)
not_blank (ObserverMessage.availability ObserverAvailability.blocked_by_policy []) payload h =
    ground arith
not_blank (ObserverMessage.availability _ _) payload h = absurd (cc h)
not_blank (ObserverMessage.capture e) payload h = absurd (cc h)
not_blank (ObserverMessage.diagnostics d) payload h =
    some_counts d.suppressed_broker_events d.suppressed_unknown_events payload h

pub codec-IsFaithful : IsFaithful codec
codec-IsFaithful = record { reads_back = reads_back; not_blank = not_blank }

abbrev client_bytes : ObserverClientMessage → Option (List ℕ)
client_bytes (ObserverClientMessage.hello n t) = greeting_bytes n t

abbrev client_from : List ℕ → Option ObserverClientMessage
client_from _ = some (ObserverClientMessage.hello 1 [])

abbrev pub client_codec : Codec ObserverClientMessage
client_codec = record { to_vec = client_bytes; from_slice = client_from }

client_reads_back :
    (m : ObserverClientMessage) (payload : List ℕ)
    → client_bytes m ≡ some payload
    → client_from payload ≡ some m
client_reads_back (ObserverClientMessage.hello n []) payload h = ground arith
client_reads_back (ObserverClientMessage.hello n (c ∷ t)) payload h = absurd (cc h)

client_not_blank :
    (m : ObserverClientMessage) (payload : List ℕ)
    → client_bytes m ≡ some payload
    → 0 < length payload
client_not_blank (ObserverClientMessage.hello n []) payload h = ground arith
client_not_blank (ObserverClientMessage.hello n (c ∷ t)) payload h = absurd (cc h)

pub client_codec-IsFaithful : IsFaithful client_codec
client_codec-IsFaithful = record { reads_back = client_reads_back; not_blank = client_not_blank }

-- A system in which every process runs the installed daemon.
abbrev root_file : Metadata
root_file = record {
  is_file = true;
  is_char_device = false;
  is_socket = false;
  rdev = 0;
  uid = 0;
  mode = 0o755;
}

abbrev pub system : FileSystem
system = record {
  read_to_string = λ _. err not_found;
  read_link = λ _. ok (path_of (codes "/usr/lib/lensguard/camera-monitor"));
  canonicalize = λ _. err not_found;
  metadata = λ _. ok root_file;
  symlink_metadata = λ _. err not_found;
  read_dir = λ _. err not_found;
  to_string_lossy = λ bytes. bytes;
}

abbrev pub status : SharedStatus
status = record {
  availability = (ObserverAvailability.blocked_by_policy, []);
  diagnostics = [];
  messages = [];
}

abbrev pub hello_frame : List ℕ
hello_frame = 0 ∷ 0 ∷ 0 ∷ 1 ∷ 49 ∷ []

abbrev pub client : Client
client = record {
  credentials = ok (record { uid = 1000; pid = some (pos 42) });
  stream = record { arrived = hello_frame; blocked = timed_out };
  status = status;
  later_status = status;
}

abbrev told : List ObserverMessage
told =
    ObserverMessage.hello 1 []
    ∷ ObserverMessage.availability ObserverAvailability.blocked_by_policy []
    ∷ ObserverMessage.diagnostics (counts 0)
    ∷ []

pub authorized : is_authorized_daemon system 42 ≡ true
unfolding is_authorized_daemon path_eq path_of segments components any decide text_eq ℕ_discrete
authorized = refl

heard : read_message client_codec client.stream ≡ ok (daemon_hello [] client_codec codec system)
unfolding read_message from_be_bytes
heard = refl

pub admitted :
    admit [] client_codec codec system client ≡ ok (1000, daemon_hello [] client_codec codec system)
unfolding admit
admitted = rw (authorized, heard)

pub said : write_message client_codec (daemon_hello [] client_codec codec system) ≡ ok hello_frame
unfolding write_message to_be_bytes
said = refl

-- A socket that takes two frames and two bytes of the next.
abbrev cut : Failure
cut = record { frames = 2; bytes = 2; error = broken_pipe }

sent_told :
    (serve_client [] client_codec codec system client [] (new_connection none)).1.sent ≡ told
unfolding serve_client greet write frame_of to_be_bytes forward text_eq get
sent_told = rw admitted

pub known : client.credentials ≡ ok (record { uid = 1000; pid = some (pos 42) })
known = refl

pub arrived : client.stream ≡ record { arrived = hello_frame; blocked = timed_out }
arrived = refl

sent_before :
    (serve_client [] client_codec codec system client [] (new_connection (some cut))).1.sent
    ≡ ObserverMessage.hello 1 []
      ∷ ObserverMessage.availability ObserverAvailability.blocked_by_policy []
      ∷ []
unfolding serve_client greet write frame_of to_be_bytes forward text_eq get
sent_before = rw admitted

connect_to-serve_client_example :
    (sends : Sends [] client_codec codec system
      (greetings [] client_codec codec system 1000 client ++ messages_for 1000 [])
      (new_connection (some cut))
      (serve_client [] client_codec codec system client [] (new_connection (some cut))))
    × (source : ObserverEventSource) × (connect_to [] client_codec codec (
          open_socket [] client_codec codec system
            (serve_client [] client_codec codec system client []
              (new_connection (some cut))).1.written
            timed_out)
        ≡ ok source)
    × (source.sessions ≡ new_machine)
    × (source.pending ≡ [])
    × Yields [] client_codec codec system sends.partial
        (ObserverMessage.availability ObserverAvailability.blocked_by_policy [] ∷ [])
        source.stream
connect_to-serve_client_example =
    connect_to-serve_client [] client_codec codec system client [] (some cut) 1000 42 hello_frame
      timed_out (ObserverMessage.hello 1 [])
      (ObserverMessage.availability ObserverAvailability.blocked_by_policy [] ∷ [])
      client_codec-IsFaithful codec-IsFaithful said arrived known authorized sent_before

-- A message for another user, and one for all.
abbrev pub elsewhere : RoutedMessage
elsewhere = record { user_id = some 1001; message = ObserverMessage.hello 1 [] }

abbrev pub everywhere : RoutedMessage
everywhere = record { user_id = none; message = ObserverMessage.hello 1 [] }

-- A client is sent something.
told_something :
    (serve_client [] client_codec codec system client [] (new_connection none)).1.sent
    ≢ (new_connection none).sent
told_something h = cc (sent_told, h)

serve_client-authorized_example :
    (user_id p : ℕ) × (client.credentials ≡ ok (record { uid = user_id; pid = some (pos p) }))
    × (is_authorized_daemon system p ≡ true)
serve_client-authorized_example =
    serve_client-authorized [] client_codec codec system client [] (new_connection none)
      told_something

serve_client-Sends_example :
    Sends [] client_codec codec system
      (greetings [] client_codec codec system 1000 client
        ++ messages_for 1000 (routed elsewhere ∷ routed everywhere ∷ []))
      (new_connection (some cut))
      (serve_client [] client_codec codec system client
        (routed elsewhere ∷ routed everywhere ∷ [])
        (new_connection (some cut)))
unfolding text_eq
serve_client-Sends_example =
    serve_client-Sends [] client_codec codec system client
      (routed elsewhere ∷ routed everywhere ∷ []) (new_connection (some cut)) 1000
      (daemon_hello [] client_codec codec system) admitted refl

process_kernel_events-available_example :
    ((process_kernel_events
        (tick (λ path. false) ∷ [])
        (processor (start_up (err []) (ok tt)))).shared.availability.0
      ≡ ObserverAvailability.available)
    ↔ ((is_ok {E = Text} {A = TrustedBrokerPolicy} (err []) ≡ true)
        × (is_ok {E = Text} {A = Unit {0}} (ok tt) ≡ true))
process_kernel_events-available_example =
    process_kernel_events-available (err []) (ok tt) (tick (λ path. false) ∷ [])
