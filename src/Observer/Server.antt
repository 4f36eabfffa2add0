-- ===== src/Observer/Server.antt =====
-- observer/src/ipc.rs: the observer's socket.
--
-- `serde_json`, the crate's version and the file system are parameters. A client is what it sends,
-- what the operating system says of it, and where writing to its socket fails. A write is the bytes
-- of a frame: where it fails, in the length, in the payload or when it is flushed, a front part of
-- the frame is on the wire.
pub mod Channel
pub mod Frames
pub mod Routing
pub mod Privacy
pub mod Told
pub mod Current
pub mod Delivery
use lensguard.Prelude.{
  ℕ, zero, suc, Bool, true, false, not, ◌&&◌, ◌||◌, List, [], ◌∷◌, ◌++◌, Option, none, some, ℤ, pos,
  negsuc, Text, codes, text_eq, length, take, drop, ltb, leb, ◌==◌, if◌then◌else◌, Result, ok, err,
  ◌>>=◌, ◌>>◌, ok_or, fail_if, any,
}
use lensguard.Io.{
  ErrorKind, permission_denied, already_exists, invalid_data, broken_pipe, FileSystem, Metadata,
  is_owned_file,
}
use lensguard.Paths.{FilePath, path_eq, path_of, named, parent}
use lensguard.OrderedMap.{get}
use lensguard.Core.Capture.{
  ObserverAvailability, ObserverMessage, ObserverClientMessage, SuppressionDiagnostics,
  observer_schema_version, max_observer_message_size,
}
use lensguard.Daemon.Wire.{Codec, Stream, u32_max, to_be_bytes, from_be_bytes}
use lensguard.Observer.Identity.{process_directory}
use lensguard.Observer.Messages.{RoutedMessage, SharedStatus, diagnostics_of}

-- `read_exact` on what has arrived.
abbrev pub read_bytes : ℕ → List ℕ → ErrorKind → Result ErrorKind (List ℕ)
read_bytes n arrived blocked = if leb n (length arrived) then ok (take n arrived) else err blocked

module _ {ℓ} {A : Type ℓ} (codec : Codec A) where
  -- `read_message`, which is called once on a stream.
  unfoldable pub read_message : Stream → Result ErrorKind A
  read_message s = do
    header ← read_bytes 4 s.arrived s.blocked
    fail_if (from_be_bytes header == 0 || ltb max_observer_message_size (from_be_bytes header))
        invalid_data
    payload ← read_bytes (from_be_bytes header) (drop 4 s.arrived) s.blocked
    ok_or (codec.from_slice payload) invalid_data

  -- `write_message`, as the bytes of the frame.
  unfoldable pub frame_of : A → Result ErrorKind (List ℕ)
  frame_of value = do
    payload ← ok_or (codec.to_vec value) invalid_data
    fail_if (ltb max_observer_message_size (length payload)) invalid_data
    fail_if (ltb u32_max (length payload)) invalid_data
    ok (to_be_bytes (length payload) ++ payload)

-- `UCred`: the user, and the process if the system tells it.
pub record Credentials : Type 0 where
  pub uid : ℕ
  pub pid : Option ℤ

-- `u32::try_from` of a signed number of 32 bits.
abbrev pub process_id_of : ℤ → Option ℕ
process_id_of (pos n) = some n
process_id_of (negsuc n) = none

abbrev allowed_executables : List FilePath
allowed_executables =
    path_of (codes "/usr/lib/lensguard/camera-monitor")
    ∷ path_of (codes "/usr/libexec/lensguard/camera-monitor")
    ∷ []

abbrev is_installed_daemon : FileSystem → Result ErrorKind FilePath → Bool
is_installed_daemon fs (err _) = false
is_installed_daemon fs (ok executable) =
    any (path_eq executable) allowed_executables && is_owned_file (fs.metadata executable)

-- `is_authorized_daemon`
unfoldable pub is_authorized_daemon : FileSystem → ℕ → Bool
is_authorized_daemon fs process_id =
    is_installed_daemon fs (fs.read_link (process_directory process_id ++ named (codes "exe")))

-- Where writing to a socket fails: how many frames it takes before, how many bytes of the next one,
-- and the error. If these are all bytes of the frame, then the error is that of the flush.
pub record Failure : Type 0 where
  pub frames : ℕ
  pub bytes : ℕ
  pub error : ErrorKind

-- What a client has been sent with success, what is on the wire, and where the next writes fail, if
-- they ever do.
pub record Connection : Type 0 where
  pub sent : List ObserverMessage
  pub written : List ℕ
  pub room : Option Failure

-- One step that may fail, on a connection.
abbrev pub Step : Type 0
Step = Result ErrorKind (Unit {0}) × Connection

infixl 5 ◌>>then◌
abbrev pub ◌>>then◌ : Step → (Connection → Step) → Step
(ok _, c) >>then f = f c
(err e, c) >>then f = (err e, c)

-- The writes of a frame and its flush, on a socket that takes so many frames before it fails.
abbrev pub take_counted : ObserverMessage → List ℕ → Failure → ℕ → Connection → Step
take_counted message frame failure zero c =
    (err failure.error, record c { written = c.written ++ take failure.bytes frame })
take_counted message frame failure (suc n) c = (
  ok tt,
  record {
    sent = c.sent ++ message ∷ [];
    written = c.written ++ frame;
    room = some (record failure { frames = n });
  },
)

abbrev pub take_frame : ObserverMessage → List ℕ → Option Failure → Connection → Step
take_frame message frame none c =
    (ok tt, record c { sent = c.sent ++ message ∷ []; written = c.written ++ frame })
take_frame message frame (some failure) c = take_counted message frame failure failure.frames c

-- What the receiver of the broadcast channel gives: a message, or the error that it fell behind or
-- that the channel is closed. Channel.antt says when it gives which.
pub data Received : Type 0 where
  routed : RoutedMessage → Received
  lagged closed : Received

abbrev pub is_user : ℕ → Option ℕ → Bool
is_user user_id none = true
is_user user_id (some u) = u == user_id

-- The first of the two that the peer is told.
abbrev pub mismatch : ObserverMessage
mismatch =
    ObserverMessage.availability ObserverAvailability.version_mismatch
      (codes "observer and user daemon versions do not match")

-- What is known of the client when `serve_client` starts, and the shared status at the moments when
-- it reads the availability and the diagnostics.
pub record Client : Type 0 where
  pub credentials : Result ErrorKind Credentials
  pub stream : Stream
  pub status : SharedStatus
  pub later_status : SharedStatus

module _ (version : Text) (client_codec : Codec ObserverClientMessage)
    (codec : Codec ObserverMessage) (fs : FileSystem) where
  -- `write_message` to a connection.
  unfoldable pub write : ObserverMessage → Connection → Step
  write message c = elim (frame_of codec message) [
    | err e ↦ (err e, c)
    | ok frame ↦ take_frame message frame c.room c
  ]

  -- The loop behind the subscription. Where the list ends, the client waits.
  unfoldable pub forward : ℕ → List Received → Connection → Step
  forward user_id [] c = (ok tt, c)
  forward user_id (lagged ∷ rest) c = (err broken_pipe, c)
  forward user_id (closed ∷ rest) c = (err broken_pipe, c)
  forward user_id (routed m ∷ rest) c =
      (if is_user user_id m.user_id then write m.message c else (ok tt, c))
      >>then forward user_id rest

  -- `matches!` on the client's greeting.
  abbrev pub accepts : ObserverClientMessage → Bool
  accepts (ObserverClientMessage.hello schema service_version) =
      schema == observer_schema_version && text_eq service_version version

  -- The guards up to the client's greeting.
  unfoldable pub admit : Client → Result ErrorKind (ℕ × ObserverClientMessage)
  admit client = do
    credentials ← client.credentials
    signed_id ← ok_or credentials.pid permission_denied
    process_id ← ok_or (process_id_of signed_id) permission_denied
    fail_if (not (is_authorized_daemon fs process_id)) permission_denied
    hello ← read_message client_codec client.stream
    ok (credentials.uid, hello)

  -- The three messages that a client is greeted with.
  unfoldable pub greet : ℕ → Client → Connection → Step
  greet user_id client c =
      write (ObserverMessage.hello observer_schema_version version) c
      >>then write
          (ObserverMessage.availability client.status.availability.0 client.status.availability.1)
      >>then write (ObserverMessage.diagnostics (diagnostics_of user_id client.later_status))

  abbrev pub serve_admitted :
      Client → List Received → Connection → Result ErrorKind (ℕ × ObserverClientMessage) → Step
  serve_admitted client received c (err e) = (err e, c)
  serve_admitted client received c (ok (user_id, greeting)) =
      if accepts greeting
      then greet user_id client c >>then forward user_id received
      else write mismatch c >>then λ c'. (err invalid_data, c')

  -- `serve_client`
  unfoldable pub serve_client : Client → List Received → Connection → Step
  serve_client client received c = serve_admitted client received c (admit client)

-- What the system calls of `bind_socket` answer: whether the path is taken, and whether the
-- directory can be made, the socket bound and its mode set.
pub record BindCalls : Type 0 where
  pub create_dir_all : Result ErrorKind (Unit {0})
  pub bind : Result ErrorKind (Unit {0})
  pub set_permissions : Result ErrorKind (Unit {0})

abbrev is_free : Result ErrorKind Metadata → Bool
is_free (ok _) = false
is_free (err _) = true

abbrev create_parent : BindCalls → Option FilePath → Result ErrorKind (Unit {0})
create_parent calls none = ok tt
create_parent calls (some _) = calls.create_dir_all

-- `bind_socket`
unfoldable pub bind_socket : FileSystem → BindCalls → FilePath → Result ErrorKind (Unit {0})
bind_socket fs calls path = do
  fail_if (not (is_free (fs.symlink_metadata path))) already_exists
  create_parent calls (parent path)
  calls.bind
  calls.set_permissions
