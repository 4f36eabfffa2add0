-- ===== src/Tests/ChannelTests.antt =====
-- The theorem on the observer's channel at a concrete channel and two users.
use lensguard.Prelude.{
  ℕ, ◌≡◌, refl, ap, true, false, Bool, List, [], ◌∷◌, ◌++◌, map, filter, none, drop, length, ltb,
  lt→ltb, if◌then◌else◌, arith,
}
use lensguard.OrderedMap.{insert, get}
use lensguard.Core.Capture.{CaptureOwner}
use lensguard.Observer.Messages.{RoutedMessage, SharedStatus, diagnostics_of, increment_suppression}
use lensguard.Observer.Server.{Received, lagged, routed, serve_client}
use lensguard.Observer.Server.Channel.{
  channel_capacity, Moment, sent, recv, delivered, undelivered, KeepsUp, IsBroadcast,
}
use lensguard.Observer.Server.Frames.{is_meant}
use lensguard.Observer.Server.Privacy.{serve_client-private}
use lensguard.Observer.Server.Routing.{new_connection}
use lensguard.Observer.Server.Delivery.{daemon_hello}
use lensguard.Tests.ServerTests.{
  codec, client_codec, system, client, status, admitted, elsewhere, everywhere,
}

-- The status with the other user's counts.
abbrev counted : SharedStatus
counted = increment_suppression 1001 CaptureOwner.unknown status

uncounted : diagnostics_of 1000 counted ≡ diagnostics_of 1000 status
unfolding increment_suppression insert get
uncounted = refl

mine :
    filter (λ m. is_meant 1000 m.user_id) (elsewhere ∷ everywhere ∷ [])
    ≡ filter (λ m. is_meant 1000 m.user_id) (everywhere ∷ [])
unfolding filter
mine = refl

same_availability : counted.availability ≡ status.availability
unfolding increment_suppression
same_availability = refl

-- A channel that drops its oldest message where it holds as many as it can.
abbrev broadcast : ℕ → Bool → List RoutedMessage → List Moment → List Received
broadcast capacity behind pending [] = []
broadcast capacity behind pending (sent m ∷ rest) =
    if ltb (length pending) capacity
    then broadcast capacity behind (pending ++ m ∷ []) rest
    else broadcast capacity true (drop 1 pending ++ m ∷ []) rest
broadcast capacity true pending (recv ∷ rest) = lagged ∷ broadcast capacity false pending rest
broadcast capacity false [] (recv ∷ rest) = broadcast capacity false [] rest
broadcast capacity false (m ∷ pending) (recv ∷ rest) =
    routed m ∷ broadcast capacity false pending rest

full_up : (n capacity : ℕ) → n ≡ capacity → ltb n capacity ≡ false
full_up n capacity h = ground arith

broadcast-keeps :
    (capacity : ℕ) (pending : List RoutedMessage) (moments : List Moment)
    → KeepsUp capacity pending moments
    → broadcast capacity false pending moments ≡ map routed (delivered pending moments)
broadcast-keeps capacity pending [] h = refl
broadcast-keeps capacity pending (sent m ∷ rest) h =
    rw (lt→ltb _ _ h.0) (broadcast-keeps capacity (pending ++ m ∷ []) rest h.1)
broadcast-keeps capacity [] (recv ∷ rest) h = broadcast-keeps capacity [] rest h
broadcast-keeps capacity (m ∷ pending) (recv ∷ rest) h =
    ap (λ l. routed m ∷ l) (broadcast-keeps capacity pending rest h)

broadcast-lags :
    (capacity : ℕ) (pending : List RoutedMessage) (moments rest : List Moment) (m : RoutedMessage)
    → KeepsUp capacity pending moments
    → length (undelivered pending moments) ≡ capacity
    → (later : List Received) × (broadcast capacity false pending (moments ++ sent m ∷ recv ∷ rest)
        ≡ map routed (delivered pending moments) ++ lagged ∷ later)
broadcast-lags capacity pending [] rest m h full = (
  broadcast capacity false (drop 1 pending ++ m ∷ []) rest,
  rw (full_up (length pending) capacity full) refl,
)
broadcast-lags capacity pending (sent x ∷ moments) rest m h full =
    let (later, e) = broadcast-lags capacity (pending ++ x ∷ []) moments rest m h.1 full in
    (later, rw (lt→ltb _ _ h.0) e)
broadcast-lags capacity [] (recv ∷ moments) rest m h full =
    broadcast-lags capacity [] moments rest m h full
broadcast-lags capacity (x ∷ pending) (recv ∷ moments) rest m h full =
    let (later, e) = broadcast-lags capacity pending moments rest m h full in
    (later, ap (λ l. routed x ∷ l) e)

broadcast-IsBroadcast : IsBroadcast channel_capacity (broadcast channel_capacity false [])
broadcast-IsBroadcast = record {
  keeps = broadcast-keeps channel_capacity [];
  lags = broadcast-lags channel_capacity [];
}

abbrev here : List Moment
here = sent everywhere ∷ recv ∷ []

abbrev busy : List Moment
busy = sent elsewhere ∷ sent everywhere ∷ recv ∷ recv ∷ []

here-KeepsUp : KeepsUp channel_capacity [] here
here-KeepsUp = (omega arith, tt)

busy-KeepsUp : KeepsUp channel_capacity [] busy
busy-KeepsUp = (omega arith, (omega arith, tt))

serve_client-private_example :
    serve_client [] client_codec codec system
      (record client { status = counted; later_status = counted })
      (broadcast channel_capacity false [] busy)
      (new_connection none)
    ≡ serve_client [] client_codec codec system client
        (broadcast channel_capacity false [] here)
        (new_connection none)
serve_client-private_example =
    serve_client-private [] client_codec codec system client counted counted
      (broadcast channel_capacity false []) here busy (new_connection none) 1000
      (daemon_hello [] client_codec codec system) broadcast-IsBroadcast here-KeepsUp busy-KeepsUp
      refl refl admitted same_availability uncounted mine
