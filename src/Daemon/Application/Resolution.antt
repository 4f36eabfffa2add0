-- ===== src/Daemon/Application/Resolution.antt =====
-- What resolution changes of an event, and whether it can hold the pipeline up.
use mathlib.Core.Path.{ap₂}
use lensguard.Prelude.{
  err-ne-ok, ok_injective, ◌∙◌, ◌≡◌, refl, ◌≢◌, false, List, [], ◌∷◌, none, Result, ok, err, arith,
  if◌then◌else◌, All,
}
use lensguard.Core.Model.{ApplicationIdentity}
use lensguard.Core.State.{
  MonitorEvent, session_started, session_updated, session_stopped, observer_availability_changed,
  suppression_diagnostics_changed,
}
use lensguard.Resolver.Request.{ResolutionRequest, request_from}
use lensguard.Daemon.Application.{
  ApplicationError, Lookup, in_time, late, panics, Leftover, runs_on, exits, dies, Worker, Pipeline,
  settle, run_lookup, resolve_identity, resolve_event, process_event, forward, run_application,
  reduce_and_reconcile, with_application,
}
use lensguard.Daemon.Application.Publication.{deliver_open}
use lensguard.Daemon.Source.Mirror.{consume}

abbrev pub IsOpen {ℓ} : {R : Type ℓ} → Pipeline R → Type 0
IsOpen p = (p.worker.poisoned ≡ false) × (p.room ≡ none)

forward-IsOpen {ℓ} :
    {R : Type ℓ} (p : Pipeline R) (e : MonitorEvent) (r : Result ApplicationError MonitorEvent)
    (w : Worker R)
    → r ≡ ok e
    → w.poisoned ≡ false
    → p.room ≡ none
    → ((forward p (r, w)).0 ≡ ok tt)
      × IsOpen (forward p (r, w)).1
      × ((forward p (r, w)).1.state ≡ (reduce_and_reconcile e p.state).0)
      × ((forward p (r, w)).1.worker ≡ w)
unfolding forward
forward-IsOpen p e (err x) w good calm room = absurd (err-ne-ok good)
forward-IsOpen p e (ok e') w good calm room = rw room (
    rw (deliver_open (reduce_and_reconcile e' p.state).1)
      (refl, (calm, refl), rw (ok_injective good) refl, refl))

module _ {ℓ} {R : Type ℓ} (lookup : ResolutionRequest → R → ApplicationIdentity × R) where
  -- The identity that a session carries on: the resolver's if it answers in time on a free worker,
  -- else the observer's.
  abbrev answer : Lookup → Worker R → ApplicationIdentity → ApplicationIdentity
  answer in_time w identity =
      if w.busy then identity else (lookup (request_from identity) w.resolver).0
  answer late w identity = identity
  answer panics w identity = identity

  abbrev pub resolved : Lookup → Worker R → MonitorEvent → MonitorEvent
  resolved o w (session_started s) =
      session_started (with_application lookup s (answer o w s.application))
  resolved o w (session_updated s) =
      session_updated (with_application lookup s (answer o w s.application))
  resolved o w e = e

  resolve_identity-answer :
      (o : Lookup) (identity : ApplicationIdentity) (w : Worker R)
      → o ≢ panics
      → w.poisoned ≡ false
      → (resolve_identity lookup o (request_from identity) identity w).0 ≡ ok (answer o w identity)
  unfolding resolve_identity run_lookup
  resolve_identity-answer in_time identity w n h = ground arith
  resolve_identity-answer late identity w n h = ground arith
  resolve_identity-answer panics identity w n h = absurd (n refl)

  -- A lookup that does not panic, on a resolver that no panic has poisoned, gives the event itself
  -- with at most the session's application replaced: by the resolver's answer when it comes in time
  -- on a free worker, and otherwise by nothing.
  resolve_event-resolved :
      (o : Lookup) (e : MonitorEvent) (w : Worker R)
      → o ≢ panics
      → w.poisoned ≡ false
      → (resolve_event lookup o e w).0 ≡ ok (resolved o w e)
  unfolding resolve_event
  resolve_event-resolved o (session_started s) w n h =
      rw (resolve_identity-answer o s.application w n h) refl
  resolve_event-resolved o (session_updated s) w n h =
      rw (resolve_identity-answer o s.application w n h) refl
  resolve_event-resolved o (session_stopped id) w n h = refl
  resolve_event-resolved o (observer_availability_changed a d) w n h = refl
  resolve_event-resolved o (suppression_diagnostics_changed d) w n h = refl

  healthy-resolve_event :
      (o : Lookup) (e : MonitorEvent) (w : Worker R)
      → o ≢ panics
      → w.poisoned ≡ false
      → (resolve_event lookup o e w).1.poisoned ≡ false
  unfolding resolve_event resolve_identity run_lookup
  healthy-resolve_event in_time e w n h = ground arith
  healthy-resolve_event late e w n h = ground arith
  healthy-resolve_event panics e w n h = absurd (n refl)

  -- No panic on the way.
  abbrev pub IsCalm : List (Leftover × Lookup × MonitorEvent) → Type 0
  IsCalm = All (λ step. (step.0 ≢ dies) × (step.1 ≢ panics))

  settle-healthy :
      (l : Leftover) (w : Worker R)
      → l ≢ dies
      → w.poisoned ≡ false
      → (settle lookup l w).poisoned ≡ false
  unfolding settle
  settle-healthy runs_on w n h = h
  settle-healthy exits w n h = h
  settle-healthy dies w n h = absurd (n refl)

  process_event-IsOpen :
      (l : Leftover) (o : Lookup) (e : MonitorEvent) (p : Pipeline R)
      → l ≢ dies
      → o ≢ panics
      → IsOpen p
      → ((process_event lookup l o e p).0 ≡ ok tt)
        × IsOpen (process_event lookup l o e p).1
        × ((process_event lookup l o e p).1.state
            ≡ (reduce_and_reconcile (resolved o (settle lookup l p.worker) e) p.state).0)
        × ((process_event lookup l o e p).1.worker
            ≡ (resolve_event lookup o e (settle lookup l p.worker)).1)
  unfolding process_event
  process_event-IsOpen l o e p n m h =
      let calm = settle-healthy l p.worker n h.0 in
      let w = settle lookup l p.worker in
      forward-IsOpen p (resolved o w e) (resolve_event lookup o e w).0
        (resolve_event lookup o e w).1 (resolve_event-resolved o e w m calm)
        (healthy-resolve_event o e w m calm) h.1

  -- The events as the worker resolves them, one after the other.
  abbrev pub resolved_all : List (Leftover × Lookup × MonitorEvent) → Worker R → List MonitorEvent
  resolved_all [] w = []
  resolved_all ((l, o, e) ∷ rest) w =
      let ready = settle lookup l w in
      resolved o ready e ∷ resolved_all rest (resolve_event lookup o e ready).1

  -- However late the lookups are, without a panic and with a publisher that stays, the pipeline
  -- ends without an error, in the state that has reduced every event, in order, with at most the
  -- applications of the sessions replaced, by the answers that came in time on a free worker.
  pub run_application-ok :
      (events : List (Leftover × Lookup × MonitorEvent)) (p : Pipeline R)
      → IsCalm events
      → IsOpen p
      → ((run_application lookup events p).0 ≡ ok tt)
        × ((run_application lookup events p).1.state
            ≡ consume (resolved_all events p.worker) p.state)
  unfolding run_application consume
  run_application-ok [] p c h = (refl, refl)
  run_application-ok ((l, o, e) ∷ rest) p c h =
      let next = (process_event lookup l o e p).1 in
      let (done, open', state, worker) = process_event-IsOpen l o e p c.0.0 c.0.1 h in
      let (ended, whole) = run_application-ok rest next c.1 open' in
      rw (done, run_application)
        (ended, whole ∙ ap₂ (λ w s. consume (resolved_all rest w) s) worker state)
