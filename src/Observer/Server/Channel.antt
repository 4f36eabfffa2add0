-- ===== src/Observer/Server/Channel.antt =====
-- The broadcast channel between the observer's state and the loop of `serve_client`: the capacity
-- that observer/src/main.rs gives it, the moments of one receiver, and what the documentation of the
-- channel, which is a parameter, says of these.
use mathlib.Core.List.{append-nil, append_assoc}
use lensguard.Prelude.{ℕ, ◌≡◌, sym, ap, ◌∙◌, ◌<◌, List, [], ◌∷◌, ◌++◌, map, length}
use lensguard.Observer.Messages.{RoutedMessage}
use lensguard.Observer.Server.{Received, routed, lagged}

-- The channel's capacity in `main`.
abbrev pub channel_capacity : ℕ
channel_capacity = 1024

-- A message is sent on the channel, for whichever user, or the loop receives.
pub data Moment : Type 0 where
  sent : RoutedMessage → Moment
  recv : Moment

-- The messages sent, in order.
abbrev pub all_sent : List Moment → List RoutedMessage
all_sent [] = []
all_sent (sent m ∷ rest) = m ∷ all_sent rest
all_sent (recv ∷ rest) = all_sent rest

-- What a queue gives to its receiver. A receiver that finds nothing waits.
abbrev pub delivered : List RoutedMessage → List Moment → List RoutedMessage
delivered pending [] = []
delivered pending (sent m ∷ rest) = delivered (pending ++ m ∷ []) rest
delivered [] (recv ∷ rest) = delivered [] rest
delivered (m ∷ pending) (recv ∷ rest) = m ∷ delivered pending rest

-- What it has not given in the end.
abbrev pub undelivered : List RoutedMessage → List Moment → List RoutedMessage
undelivered pending [] = pending
undelivered pending (sent m ∷ rest) = undelivered (pending ++ m ∷ []) rest
undelivered [] (recv ∷ rest) = undelivered [] rest
undelivered (m ∷ pending) (recv ∷ rest) = undelivered pending rest

-- The receiver never has more messages before it than the channel holds, those for other users
-- counted.
abbrev pub KeepsUp : ℕ → List RoutedMessage → List Moment → Type 0
KeepsUp capacity pending [] = Unit
KeepsUp capacity pending (sent m ∷ rest) =
    (length pending < capacity) × KeepsUp capacity (pending ++ m ∷ []) rest
KeepsUp capacity [] (recv ∷ rest) = KeepsUp capacity [] rest
KeepsUp capacity (m ∷ pending) (recv ∷ rest) = KeepsUp capacity pending rest

-- What is relied on of the channel: a receiver that keeps up is given the messages in order, and one
-- that has as many before it as the channel holds when a further one is sent is told that it lags.
pub record IsBroadcast (capacity : ℕ) (channel : List Moment → List Received) : Type 0 where
  pub keeps :
      (moments : List Moment)
      → KeepsUp capacity [] moments
      → channel moments ≡ map routed (delivered [] moments)
  pub lags :
      (moments rest : List Moment) (m : RoutedMessage)
      → KeepsUp capacity [] moments
      → length (undelivered [] moments) ≡ capacity
      → (later : List Received) × (channel (moments ++ sent m ∷ recv ∷ rest)
          ≡ map routed (delivered [] moments) ++ lagged ∷ later)

delivered-in_order :
    (pending : List RoutedMessage) (moments : List Moment)
    → delivered pending moments ++ undelivered pending moments ≡ pending ++ all_sent moments
delivered-in_order pending [] = sym (append-nil pending)
delivered-in_order pending (sent m ∷ rest) =
    delivered-in_order (pending ++ m ∷ []) rest ∙ append_assoc pending (m ∷ []) (all_sent rest)
delivered-in_order [] (recv ∷ rest) = delivered-in_order [] rest
delivered-in_order (m ∷ pending) (recv ∷ rest) = ap (λ l. m ∷ l) (delivered-in_order pending rest)

-- A receiver that keeps up and has nothing before it in the end has been given all that was sent.
pub channel-all_sent :
    (capacity : ℕ) (channel : List Moment → List Received) (moments : List Moment)
    → IsBroadcast capacity channel
    → KeepsUp capacity [] moments
    → undelivered [] moments ≡ []
    → channel moments ≡ map routed (all_sent moments)
channel-all_sent capacity channel moments h k e =
    h.keeps moments k
    ∙ ap (map routed) (
        sym (append-nil (delivered [] moments))
        ∙ ap (λ l. delivered [] moments ++ l) (sym e)
        ∙ delivered-in_order [] moments)
