-- ===== src/Daemon/Application.antt =====
-- daemon/src/application.rs: resolves, reduces, reconciles and forwards the backend's events.
--
-- The resolver is a parameter: its state `R` and one lookup. What happens beside the pipeline is an
-- argument of each step: whether the worker that a timeout left behind has ended since, and whether
-- the lookup of this step ends in time, ends late or panics.
pub mod Publication
pub mod Resolution
pub mod Reconcile
use lensguard.Prelude.{
  ℕ, zero, suc, ◌-◌, length, Option, none, some, Bool, true, false, not, List, [], ◌∷◌, ◌++◌,
  Result, ok, err, ◌>>=◌, if◌then◌else◌,
}
use lensguard.Core.Model.{ApplicationIdentity, CameraSession}
use lensguard.Core.Capture.{is_available}
use lensguard.Core.State.{
  MonitorEvent, session_started, session_updated, session_stopped, observer_availability_changed,
  suppression_diagnostics_changed, MonitorState, apply, snapshot,
}
use lensguard.Resolver.Request.{ResolutionRequest, request_from}

pub data ApplicationError : Type 0 where
  resolver_task resolver_poisoned publisher_closed : ApplicationError

-- How a lookup on the blocking worker ends: within the timeout, after it, or by a panic.
pub data Lookup : Type 0 where
  in_time late panics : Lookup

-- How the worker that an earlier timeout left behind fares before this event.
pub data Leftover : Type 0 where
  runs_on exits dies : Leftover

-- The resolver, its busy flag, and whether a panic poisoned its lock.
pub record Worker {ℓ} (R : Type ℓ) : Type ℓ where
  pub resolver : R
  pub busy : Bool
  pub poisoned : Bool

-- Stops each session of the list; keeps the stops that changed the state.
unfoldable pub stop_each : List CameraSession → MonitorState → MonitorState × List MonitorEvent
stop_each [] s = (s, [])
stop_each (session ∷ rest) s =
    let (s', changed) = apply (session_stopped session.id) s in
    let (s'', stops) = stop_each rest s' in
    (s'', if changed then session_stopped session.id ∷ stops else stops)

abbrev pub reports_unavailable : MonitorEvent → Bool
reports_unavailable (observer_availability_changed availability detail) =
    not (is_available availability)
reports_unavailable _ = false

-- `reduce_and_reconcile`
unfoldable pub reduce_and_reconcile : MonitorEvent → MonitorState → MonitorState × List MonitorEvent
reduce_and_reconcile event s =
    let (s', stops) =
      if reports_unavailable event then stop_each (snapshot s).active_sessions s else (s, []) in
    let (s'', changed) = apply event s' in (s'', stops ++ (if changed then event ∷ [] else []))

-- `room` is how many events the publisher takes before it closes its channel, if it ever does.
unfoldable pub deliver :
    List MonitorEvent → Option ℕ → List MonitorEvent × Result ApplicationError (Unit {0})
deliver [] room = ([], ok tt)
deliver (event ∷ rest) none = let (sent, result) = deliver rest none in (event ∷ sent, result)
deliver (event ∷ rest) (some zero) = ([], err publisher_closed)
deliver (event ∷ rest) (some (suc n)) =
    let (sent, result) = deliver rest (some n) in (event ∷ sent, result)

abbrev room_left : List MonitorEvent → Option ℕ → Option ℕ
room_left events none = none
room_left events (some n) = some (n - length events)

-- The pipeline: the worker, the state, and the events that the publisher has received.
pub record Pipeline {ℓ} (R : Type ℓ) : Type ℓ where
  pub worker : Worker R
  pub state : MonitorState
  pub published : List MonitorEvent
  pub room : Option ℕ

-- The rest of a round once its event is resolved: reduce, and send what has an effect.
unfoldable pub forward {ℓ} :
    {R : Type ℓ}
    → Pipeline R
    → Result ApplicationError MonitorEvent × Worker R
    → Result ApplicationError (Unit {0}) × Pipeline R
forward p (err e, w) = (err e, record p { worker = w })
forward p (ok event, w) =
    let (s, effective) = reduce_and_reconcile event p.state in
    let (sent, result) = deliver effective p.room in
    (
      result,
      record {
        worker = w;
        state = s;
        published = p.published ++ sent;
        room = room_left effective p.room;
      },
    )

module _ {ℓ} {R : Type ℓ} (lookup : ResolutionRequest → R → ApplicationIdentity × R) where
  -- `ResolverBusyGuard`: dropped when the worker ends, also by a panic, which poisons the lock.
  unfoldable pub settle : Leftover → Worker R → Worker R
  settle runs_on w = w
  settle exits w = record w { busy = false }
  settle dies w = if w.busy then record w { busy = false; poisoned = true } else w

  -- The worker of a lookup that found the flag clear.
  unfoldable pub run_lookup :
      Lookup
      → ResolutionRequest
      → ApplicationIdentity
      → Worker R
      → Result ApplicationError ApplicationIdentity × Worker R
  run_lookup in_time request fallback w =
      if w.poisoned
      then (err resolver_poisoned, w)
      else (ok (lookup request w.resolver).0, record w { resolver = (lookup request w.resolver).1 })
  run_lookup late request fallback w = (
    ok fallback,
    record w {
      resolver = if w.poisoned then w.resolver else (lookup request w.resolver).1;
      busy = true;
    },
  )
  run_lookup panics request fallback w =
      if w.poisoned
      then (err resolver_poisoned, w)
      else (err resolver_task, record w { poisoned = true })

  -- `resolve_identity`
  unfoldable pub resolve_identity :
      Lookup
      → ResolutionRequest
      → ApplicationIdentity
      → Worker R
      → Result ApplicationError ApplicationIdentity × Worker R
  resolve_identity outcome request fallback w =
      if w.busy then (ok fallback, w) else run_lookup outcome request fallback w

  abbrev pub with_application : CameraSession → ApplicationIdentity → CameraSession
  with_application session application = record session { application = application }

  abbrev rebuild :
      (CameraSession → MonitorEvent)
      → CameraSession
      → Result ApplicationError ApplicationIdentity × Worker R
      → Result ApplicationError MonitorEvent × Worker R
  rebuild event session (result, w) =
      (result >>= λ application. ok (event (with_application session application)), w)

  -- `resolve_event`
  unfoldable pub resolve_event :
      Lookup → MonitorEvent → Worker R → Result ApplicationError MonitorEvent × Worker R
  resolve_event outcome (session_started session) w =
      rebuild session_started session
        (resolve_identity outcome (request_from session.application) session.application w)
  resolve_event outcome (session_updated session) w =
      rebuild session_updated session
        (resolve_identity outcome (request_from session.application) session.application w)
  resolve_event outcome (session_stopped id) w = (ok (session_stopped id), w)
  resolve_event outcome (observer_availability_changed a d) w =
      (ok (observer_availability_changed a d), w)
  resolve_event outcome (suppression_diagnostics_changed d) w =
      (ok (suppression_diagnostics_changed d), w)

  -- One round of `run_application_with_timeout`.
  unfoldable pub process_event :
      Leftover
      → Lookup
      → MonitorEvent
      → Pipeline R
      → Result ApplicationError (Unit {0}) × Pipeline R
  unfolding forward
  process_event leftover outcome event p =
      forward p (resolve_event outcome event (settle leftover p.worker))

  -- `run_application_with_timeout`, until the backend's channel is drained or an error ends it.
  unfoldable pub run_application :
      List (Leftover × Lookup × MonitorEvent)
      → Pipeline R
      → Result ApplicationError (Unit {0}) × Pipeline R
  run_application [] p = (ok tt, p)
  run_application ((leftover, outcome, event) ∷ rest) p =
      let (result, p') = process_event leftover outcome event p in
      elim result [ err e ↦ (err e, p') | ok _ ↦ run_application rest p' ]
