-- ===== src/Daemon/Application/Reconcile.antt =====
-- What a report that the observer is unavailable does to the sessions.
use lensguard.Prelude.{
  Bool-cases, inl, inr, ◌≡◌, refl, true, false, [], ◌∷◌, ◌++◌, map, arith, if◌then◌else◌, Text,
}
use lensguard.OrderedMap.{OrderedMap, get, remove, values}
use lensguard.OrderedMap.Sorted.{IsSorted, Above-IsSorted, get_of_Above}
use lensguard.OrderedMap.Laws.{remove_absent}
use lensguard.OrderedMap.Entries.{AllEntries}
use lensguard.Core.Model.{CameraSession, SessionId, session_id_ord}
use lensguard.Core.Capture.{is_available, ObserverAvailability}
use lensguard.Core.State.{
  MonitorEvent, session_stopped, observer_availability_changed, MonitorState, apply, snapshot,
  remove_session,
}
use lensguard.Core.State.Invariant.{apply-IsValid, IsValid, HasKey}
use lensguard.Daemon.Application.{List, reports_unavailable, stop_each, reduce_and_reconcile}

abbrev with_sessions : MonitorState → OrderedMap SessionId CameraSession → MonitorState
with_sessions s m = record s { active_sessions = m }

abbrev pub stop_of : CameraSession → MonitorEvent
stop_of session = session_stopped session.id

stop_first :
    (s : MonitorState) (id : SessionId) (x : CameraSession) (m : OrderedMap SessionId CameraSession)
    → x.id ≡ id
    → IsSorted ((id, x) ∷ m)
    → apply (session_stopped x.id) (with_sessions s ((id, x) ∷ m)) ≡ (with_sessions s m, true)
unfolding apply remove_session get remove
stop_first s id x m keyed sorted =
    ground (arith, session_id_ord.eq_iff x.id id, remove_absent x.id m, get_of_Above id m sorted)

stop_each-empties :
    (s : MonitorState) (m : OrderedMap SessionId CameraSession)
    → IsSorted m
    → AllEntries HasKey m
    → stop_each (values m) (with_sessions s m) ≡ (with_sessions s [], map stop_of (values m))
unfolding stop_each values
stop_each-empties s [] sorted keyed = refl
stop_each-empties s ((id, x) ∷ m) sorted keyed =
    rw (stop_first s id x m keyed.0 sorted)
      (rw (stop_each-empties s m (Above-IsSorted id m sorted) keyed.1) refl)

-- A report that the observer is unavailable leaves no session, and sends a stop for each session of
-- the snapshot, in its order, before the report itself, which is sent if it is news.
pub reduce_and_reconcile_unavailable :
    (a : ObserverAvailability) (d : Text) (s : MonitorState)
    → IsValid s
    → is_available a ≡ false
    → let after = reduce_and_reconcile (observer_availability_changed a d) s in
      (after.0
        ≡ record s { active_sessions = []; observer_availability = a; observer_status_detail = d })
      × (after.1
          ≡ map stop_of (snapshot s).active_sessions
            ++ (if (apply (observer_availability_changed a d) s).1
                then observer_availability_changed a d ∷ []
                else []))
unfolding reduce_and_reconcile snapshot
reduce_and_reconcile_unavailable a d s v lost =
    rw (lost, stop_each-empties s s.active_sessions v.sorted v.keyed) (unfold apply in (refl, refl))

stop_each-IsValid :
    (sessions : List CameraSession) (s : MonitorState)
    → IsValid s
    → IsValid (stop_each sessions s).0
unfolding stop_each
stop_each-IsValid [] s v = v
stop_each-IsValid (x ∷ rest) s v =
    stop_each-IsValid rest _ (apply-IsValid (session_stopped x.id) s v)

-- The pipeline keeps the state valid.
pub reduce_and_reconcile-IsValid :
    (e : MonitorEvent) (s : MonitorState) → IsValid s → IsValid (reduce_and_reconcile e s).0
unfolding reduce_and_reconcile
reduce_and_reconcile-IsValid e s v = elim (Bool-cases (reports_unavailable e)) [
  | inl lost ↦ rw lost (apply-IsValid e _ (stop_each-IsValid (snapshot s).active_sessions s v))
  | inr fine ↦ rw fine (apply-IsValid e s v)
]
