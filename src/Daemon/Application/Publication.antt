-- ===== src/Daemon/Application/Publication.antt =====
-- What the publisher receives, and the state that its events build.
use mathlib.Core.Path.{subst}
use lensguard.Prelude.{
  Result-cases, ℕ, ◌≡◌, refl, ap, sym, ◌∙◌, inl, inr, true, List, [], ◌∷◌, ◌++◌, Option, none, some,
  Result, ok, err, if◌then◌else◌, Bool-cases, zero, suc,
}
use lensguard.Core.Model.{CameraSession, session_id_ord, ApplicationIdentity}
use lensguard.Core.State.{MonitorEvent, session_stopped, MonitorState, apply, snapshot}
use lensguard.Core.State.Changes.{apply-quiet}
use lensguard.Resolver.Request.{ResolutionRequest}
use lensguard.Daemon.Application.{
  forward, ApplicationError, Lookup, Leftover, Worker, Pipeline, stop_each, reports_unavailable,
  reduce_and_reconcile, deliver, process_event, run_application, resolve_event, settle,
}

-- The state of a consumer that applies the events in order.
unfoldable pub replay : List MonitorEvent → MonitorState → MonitorState
replay [] s = s
replay (e ∷ es) s = replay es (apply e s).0

pub replay-append :
    (es fs : List MonitorEvent) (s : MonitorState) → replay (es ++ fs) s ≡ replay fs (replay es s)
unfolding replay
replay-append [] fs s = refl
replay-append (e ∷ es) fs s = replay-append es fs (apply e s).0

-- Each event of the list changes the state in which it is applied.
abbrev pub Effective : List MonitorEvent → MonitorState → Type 0
Effective [] s = Unit
Effective (e ∷ es) s = ((apply e s).1 ≡ true) × Effective es (apply e s).0

Effective-append :
    (es fs : List MonitorEvent) (s : MonitorState)
    → Effective es s
    → Effective fs (replay es s)
    → Effective (es ++ fs) s
unfolding replay
Effective-append [] fs s h k = k
Effective-append (e ∷ es) fs s h k = (h.0, Effective-append es fs (apply e s).0 h.1 k)

abbrev Reduced : MonitorState → MonitorState × List MonitorEvent → Type 0
Reduced s (s', sent) = (replay sent s ≡ s') × Effective sent s

stop_each-Reduced :
    (sessions : List CameraSession) (s : MonitorState) → Reduced s (stop_each sessions s)
unfolding stop_each replay
stop_each-Reduced [] s = (refl, tt)
stop_each-Reduced (x ∷ rest) s = elim (Bool-cases (apply (session_stopped x.id) s).1) [
  | inl changed ↦ rw changed (let ih = stop_each-Reduced rest _ in (ih.0, (changed, ih.1)))
  | inr quiet ↦
      rw quiet (rw (apply-quiet (session_stopped x.id) s quiet) (stop_each-Reduced rest s))
]

apply_last-Reduced :
    (e : MonitorEvent) (s : MonitorState)
    → Reduced s ((apply e s).0, if (apply e s).1 then e ∷ [] else [])
unfolding replay
apply_last-Reduced e s = elim (Bool-cases (apply e s).1) [
  | inl changed ↦ rw changed (refl, (changed, tt))
  | inr quiet ↦ rw quiet (sym (apply-quiet e s quiet), tt)
]

Reduced-append :
    (s : MonitorState) (first second : MonitorState × List MonitorEvent)
    → Reduced s first
    → Reduced first.0 second
    → Reduced s (second.0, first.1 ++ second.1)
Reduced-append s (t, es) (u, fs) h k = (
  replay-append es fs s ∙ ap (replay fs) h.0 ∙ k.0,
  Effective-append es fs s h.1 (subst (Effective fs) (sym h.0) k.1),
)

-- The two halves of `reduce_and_reconcile`.
abbrev reconciled : MonitorEvent → MonitorState → MonitorState × List MonitorEvent
reconciled e s = if reports_unavailable e then stop_each (snapshot s).active_sessions s else (s, [])

abbrev apply_step : MonitorEvent → MonitorState → MonitorState × List MonitorEvent
apply_step e s = ((apply e s).0, if (apply e s).1 then e ∷ [] else [])

reconciled-Reduced : (e : MonitorEvent) (s : MonitorState) → Reduced s (reconciled e s)
unfolding replay
reconciled-Reduced e s = elim (Bool-cases (reports_unavailable e)) [
  | inl lost ↦ rw lost (stop_each-Reduced (snapshot s).active_sessions s)
  | inr fine ↦ rw fine (refl, tt)
]

-- The events that `reduce_and_reconcile` passes on lead a consumer from the old state to the new
-- one, and each of them changes the state in which it arrives.
reduce_and_reconcile-Reduced :
    (e : MonitorEvent) (s : MonitorState)
    → (replay (reduce_and_reconcile e s).1 s ≡ (reduce_and_reconcile e s).0)
      × Effective (reduce_and_reconcile e s).1 s
unfolding reduce_and_reconcile
reduce_and_reconcile-Reduced e s =
    Reduced-append s (reconciled e s) (apply_step e (reconciled e s).0) (reconciled-Reduced e s)
      (apply_last-Reduced e (reconciled e s).0)

-- With no limit on what the publisher takes, all is delivered.
pub deliver_open : (es : List MonitorEvent) → deliver es none ≡ (es, ok tt)
unfolding deliver
deliver_open [] = refl
deliver_open (e ∷ es) = rw (deliver_open es) refl

deliver_ok :
    (es : List MonitorEvent) (room : Option ℕ)
    → (deliver es room).1 ≡ ok tt
    → (deliver es room).0 ≡ es
unfolding deliver
deliver_ok [] room h = refl
deliver_ok (e ∷ es) none h = ap (◌∷◌ e) (deliver_ok es none h)
deliver_ok (e ∷ es) (some zero) h = cc
deliver_ok (e ∷ es) (some (suc n)) h = ap (◌∷◌ e) (deliver_ok es (some n) h)

-- What the publisher has built from `start` is the pipeline's state.
abbrev pub InStep {ℓ} : {R : Type ℓ} → MonitorState → Pipeline R → Type 0
InStep start p = replay p.published start ≡ p.state

forward-InStep {ℓ} :
    {R : Type ℓ} (start : MonitorState) (p : Pipeline R) (r : Result ApplicationError MonitorEvent)
    (w : Worker R)
    → InStep start p
    → (forward p (r, w)).0 ≡ ok tt
    → InStep start (forward p (r, w)).1
unfolding forward
forward-InStep start p (err x) w h k = cc
forward-InStep start p (ok e) w h k =
    ap (λ sent. replay (p.published ++ sent) start)
      (deliver_ok (reduce_and_reconcile e p.state).1 p.room k)
    ∙ replay-append p.published (reduce_and_reconcile e p.state).1 start
    ∙ ap (replay (reduce_and_reconcile e p.state).1) h
    ∙ (reduce_and_reconcile-Reduced e p.state).0

module _ {ℓ} {R : Type ℓ} (lookup : ResolutionRequest → R → ApplicationIdentity × R) where
  process_event-InStep :
      (l : Leftover) (o : Lookup) (e : MonitorEvent) (start : MonitorState) (p : Pipeline R)
      → InStep start p
      → (process_event lookup l o e p).0 ≡ ok tt
      → InStep start (process_event lookup l o e p).1
  unfolding process_event
  process_event-InStep l o e start p =
      let (r, w) = resolve_event lookup o e (settle lookup l p.worker) in forward-InStep start p r w

  -- When the pipeline ends without an error, whatever the lookups did, the consumer that applied
  -- the published events in order is in the pipeline's own state.
  pub run_application-InStep :
      (events : List (Leftover × Lookup × MonitorEvent)) (start : MonitorState) (p : Pipeline R)
      → InStep start p
      → (run_application lookup events p).0 ≡ ok tt
      → InStep start (run_application lookup events p).1
  unfolding run_application
  run_application-InStep [] start p h k = h
  run_application-InStep ((l, o, e) ∷ rest) start p h k =
      elim (Result-cases (process_event lookup l o e p).0) [
        | inr (x, bad) ↦ absurd (cc (rw (bad, run_application) at k))
        | inl (tt, good) ↦
            rw (good, run_application)
              (run_application-InStep rest start _ (process_event-InStep l o e start p h good)
                (rw (good, run_application) at k))
      ]
