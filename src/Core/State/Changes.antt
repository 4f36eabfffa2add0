-- ===== src/Core/State/Changes.antt =====
-- The flag that `apply` returns, repeated events, and what a snapshot shows of the state.
use mathlib.Core.Path.{subst}
use lensguard.Prelude.{
  ◌≡◌, refl, ap, ◌⊎◌, inl, inr, ◌≢◌, ◌↔◌, true, false, [], ◌∷◌, none, some, arith, Option-cases,
  Bool-cases, text_eq_iff,
}
use lensguard.OrderedMap.{OrderedMap, values}
use lensguard.OrderedMap.Laws.{same_iff}
use lensguard.OrderedMap.Entries.{AllEntries}
use lensguard.Core.Model.{CameraSession, SessionId, session_id_ord}
use lensguard.Core.State.{
  MonitorEvent, session_started, session_updated, session_stopped, observer_availability_changed,
  suppression_diagnostics_changed, MonitorState, insert_or_replace, update_existing, remove_session,
  apply, active_session, snapshot,
}
use lensguard.Core.State.Equality.{session_eq_iff, availability_eq_iff, diagnostics_eq_iff}
use lensguard.Core.State.Invariant.{IsValid, HasKey, apply-IsValid, active_session-apply}

-- What an event changes is seen in the state: the session under its identifier, or a field.
abbrev Unchanged : MonitorEvent → MonitorState → Type 0
Unchanged (session_started session) s = active_session session.id s ≡ some session
Unchanged (session_updated session) s =
    (active_session session.id s ≡ none) ⊎ (active_session session.id s ≡ some session)
Unchanged (session_stopped id) s = active_session id s ≡ none
Unchanged (observer_availability_changed a d) s =
    (s.observer_availability ≡ a) × (s.observer_status_detail ≡ d)
Unchanged (suppression_diagnostics_changed d) s = s.suppression_diagnostics ≡ d

-- Where nothing changes, `apply` says so and returns the state itself.
unchanged : (e : MonitorEvent) (s : MonitorState) → Unchanged e s → apply e s ≡ (s, false)
unfolding apply insert_or_replace update_existing remove_session
unchanged (session_started session) s h = ground (arith, session_eq_iff session session)
unchanged (session_updated session) s h = ground (arith, session_eq_iff session session)
unchanged (session_stopped id) s h = ground arith
unchanged (observer_availability_changed a d) s h =
    ground
      (arith, availability_eq_iff s.observer_availability a, text_eq_iff s.observer_status_detail d)
unchanged (suppression_diagnostics_changed d) s h =
    ground (arith, diagnostics_eq_iff s.suppression_diagnostics d)

-- Where `apply` reports no change, there was none to make.
unreported : (e : MonitorEvent) (s : MonitorState) → (apply e s).1 ≡ false → Unchanged e s
unfolding apply insert_or_replace update_existing remove_session
unreported (session_started session) s h = elim (Option-cases (active_session session.id s)) [
  | inl absent ↦ ground arith
  | inr (old, found) ↦ ground (arith, session_eq_iff old session)
]
unreported (session_updated session) s h = elim (Option-cases (active_session session.id s)) [
  | inl absent ↦ inl absent
  | inr (old, found) ↦ inr (ground (arith, session_eq_iff old session))
]
unreported (session_stopped id) s h = ground arith
unreported (observer_availability_changed a d) s h =
    ground
      (arith, availability_eq_iff s.observer_availability a, text_eq_iff s.observer_status_detail d)
unreported (suppression_diagnostics_changed d) s h =
    ground (arith, diagnostics_eq_iff s.suppression_diagnostics d)

-- After an event there is nothing left for it to change.
settled : (e : MonitorEvent) (s : MonitorState) → Unchanged e (apply e s).0
settled (session_started session) s = ground (
  arith,
  active_session-apply (session_started session) s session.id,
  same_iff session.id session.id,
)
settled (session_updated session) s = elim (Option-cases (active_session session.id s)) [
  | inl absent ↦ inl (ground (arith, active_session-apply (session_updated session) s session.id))
  | inr (old, found) ↦ inr (
      ground (
        arith,
        active_session-apply (session_updated session) s session.id,
        same_iff session.id session.id,
      ))
]
settled (session_stopped id) s =
    ground (arith, active_session-apply (session_stopped id) s id, same_iff id id)
settled (observer_availability_changed a d) s = unfold apply in (refl, refl)
settled (suppression_diagnostics_changed d) s = unfold apply in refl

-- An event that is reported as no change leaves the state as it was.
pub apply-quiet : (e : MonitorEvent) (s : MonitorState) → (apply e s).1 ≡ false → (apply e s).0 ≡ s
apply-quiet e s f = ap (λ r. r.0) (unchanged e s (unreported e s f))

-- `apply` returns `true` exactly when the state after the event differs from the state before.
pub apply-changed_iff :
    (e : MonitorEvent) (s : MonitorState) → ((apply e s).1 ≡ true) ↔ ((apply e s).0 ≢ s)
apply-changed_iff e s = (
  λ changed back.
      let quiet : apply e s ≡ (s, false) = unchanged e s (subst (Unchanged e) back (settled e s)) in
      cc (ap (λ r. r.1) quiet),
  λ moved. elim (Bool-cases (apply e s).1) [
    | inl t ↦ t
    | inr f ↦ absurd (moved (ap (λ r. r.0) (unchanged e s (unreported e s f))))
  ],
)

-- A duplicate event changes nothing and is reported so.
apply_twice : (e : MonitorEvent) (s : MonitorState) → apply e (apply e s).0 ≡ ((apply e s).0, false)
apply_twice e s = unchanged e (apply e s).0 (settled e s)

values_determine :
    (m n : OrderedMap SessionId CameraSession)
    → AllEntries HasKey m
    → AllEntries HasKey n
    → values m ≡ values n
    → m ≡ n
unfolding values
values_determine [] [] k l e = refl
values_determine [] ((j, b) ∷ n) k l e = cc
values_determine ((i, a) ∷ m) [] k l e = cc
values_determine ((i, a) ∷ m) ((j, b) ∷ n) k l e =
    let rest : values m ≡ values n = cc in
    let head : a ≡ b = cc in cc (values_determine m n k.1 l.1 rest, k.0, l.0, ap (λ x. x.id) head)

-- A snapshot of a valid state shows all of it.
pub snapshot-injective :
    (s t : MonitorState) → IsValid s → IsValid t → snapshot s ≡ snapshot t → s ≡ t
unfolding snapshot
snapshot-injective s t v w e =
    let sessions =
      values_determine s.active_sessions t.active_sessions v.keyed w.keyed
        (ap (λ x. x.active_sessions) e) in
    λ i. record {
      active_sessions = sessions i;
      observer_availability = (e i).observer_availability;
      observer_status_detail = (e i).observer_status_detail;
      suppression_diagnostics = (e i).suppression_diagnostics;
    }

-- In a valid state `apply` returns `true` exactly when the snapshot changes.
apply-observable_iff :
    (e : MonitorEvent) (s : MonitorState)
    → IsValid s
    → ((apply e s).1 ≡ true) ↔ (snapshot (apply e s).0 ≢ snapshot s)
apply-observable_iff e s v = (
  λ changed same.
      (apply-changed_iff e s).0 changed (snapshot-injective _ s (apply-IsValid e s v) v same),
  λ moved. (apply-changed_iff e s).1 (λ same. moved (ap snapshot same)),
)
