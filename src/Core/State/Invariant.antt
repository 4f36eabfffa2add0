-- ===== src/Core/State/Invariant.antt =====
-- The invariant of the state, what each event does to a session, and the order of snapshots.
use lensguard.Prelude.{
  ◌≡◌, refl, inl, inr, List, [], ◌∷◌, Option, none, some, arith, if◌then◌else◌, Option-cases,
  Ordering,
}
use lensguard.OrderedMap.{OrderedMap, get, insert, remove, values}
use lensguard.OrderedMap.Sorted.{IsSorted, IsSorted-insert, IsSorted-remove}
use lensguard.OrderedMap.Laws.{same, same_iff, get-insert, get-remove}
use lensguard.OrderedMap.Entries.{AllEntries, AllEntries-insert, AllEntries-remove}
use lensguard.Core.Model.{CameraSession, SessionId, session_id_ord}
use lensguard.Core.State.{
  MonitorEvent, session_started, session_updated, session_stopped, observer_availability_changed,
  suppression_diagnostics_changed, MonitorState, new_state, insert_or_replace, update_existing,
  remove_session, apply, active_session, snapshot,
}
use lensguard.Core.State.Equality.{session_eq_iff}

abbrev pub HasKey : SessionId → CameraSession → Type 0
HasKey id s = s.id ≡ id

-- The registry is sorted, and each session stands under its own identifier.
pub record IsValid (s : MonitorState) : Type 0 where
  pub sorted : IsSorted s.active_sessions
  pub keyed : AllEntries HasKey s.active_sessions

pub new_state-IsValid : IsValid new_state
new_state-IsValid = record { sorted = tt; keyed = tt }

insert-IsValid :
    (session : CameraSession) (s : MonitorState)
    → IsValid s
    → IsValid (record s { active_sessions = insert session.id session s.active_sessions })
insert-IsValid session s v = record {
  sorted = IsSorted-insert session.id session s.active_sessions v.sorted;
  keyed = AllEntries-insert HasKey session.id session s.active_sessions refl v.keyed;
}

remove-IsValid :
    (id : SessionId) (s : MonitorState)
    → IsValid s
    → IsValid (record s { active_sessions = remove id s.active_sessions })
remove-IsValid id s v = record {
  sorted = IsSorted-remove id s.active_sessions v.sorted;
  keyed = AllEntries-remove HasKey id s.active_sessions v.keyed;
}

-- Every event keeps the state valid: one session for an identifier, sorted by identifier.
pub apply-IsValid : (e : MonitorEvent) (s : MonitorState) → IsValid s → IsValid (apply e s).0
unfolding apply insert_or_replace update_existing remove_session
apply-IsValid (session_started session) s v = ground (arith, insert-IsValid session s v)
apply-IsValid (session_updated session) s v = ground (arith, insert-IsValid session s v)
apply-IsValid (session_stopped id) s v = ground (arith, remove-IsValid id s v)
apply-IsValid (observer_availability_changed a d) s v = ground arith
apply-IsValid (suppression_diagnostics_changed d) s v = ground arith

-- The session that is active under `id` after the event, from what was active before.
abbrev pub session_after : MonitorEvent → SessionId → Option CameraSession → Option CameraSession
session_after (session_started session) id old = if same id session.id then some session else old
session_after (session_updated session) id none = none
session_after (session_updated session) id (some old) =
    if same id session.id then some session else some old
session_after (session_stopped stopped) id old = if same id stopped then none else old
session_after (observer_availability_changed a d) id old = old
session_after (suppression_diagnostics_changed d) id old = old

stored :
    (session : CameraSession) (id : SessionId) (s : MonitorState)
    → get id (insert session.id session s.active_sessions)
      ≡ (if same id session.id then some session else active_session id s)
stored session id s = get-insert session.id id session s.active_sessions

-- A start stores the session, an update stores it only if one was active under its identifier, a
-- stop removes it, and no event touches another identifier.
pub active_session-apply :
    (e : MonitorEvent) (s : MonitorState) (id : SessionId)
    → active_session id (apply e s).0 ≡ session_after e id (active_session id s)
unfolding apply insert_or_replace update_existing remove_session
active_session-apply (session_started session) s id =
    elim (Option-cases (active_session session.id s)) [
      | inl absent ↦ ground (arith, stored session id s, same_iff id session.id)
      | inr (old, found) ↦
          ground (arith, stored session id s, same_iff id session.id, session_eq_iff old session)
    ]
active_session-apply (session_updated session) s id =
    elim (Option-cases (active_session session.id s)) [
      | inl absent ↦ ground (arith, stored session id s, same_iff id session.id)
      | inr (old, found) ↦
          ground (arith, stored session id s, same_iff id session.id, session_eq_iff old session)
    ]
active_session-apply (session_stopped stopped) s id =
    ground (arith, get-remove stopped id s.active_sessions, same_iff id stopped)
active_session-apply (observer_availability_changed a d) s id = refl
active_session-apply (suppression_diagnostics_changed d) s id = refl

-- Sessions whose identifiers rise strictly.
abbrev pub IsRising : List CameraSession → Type 0
IsRising [] = Unit
IsRising (a ∷ []) = Unit
IsRising (a ∷ b ∷ r) = (session_id_ord.cmp a.id b.id ≡ Ordering.lt) × IsRising (b ∷ r)

values-IsRising :
    (m : OrderedMap SessionId CameraSession)
    → IsSorted m
    → AllEntries HasKey m
    → IsRising (values m)
unfolding values
values-IsRising [] s k = tt
values-IsRising ((i, a) ∷ []) s k = tt
values-IsRising ((i, a) ∷ (j, b) ∷ m) s k =
    (rw (k.0, k.1.0) s.0, values-IsRising ((j, b) ∷ m) s.1 k.1)

-- A snapshot of a valid state lists the sessions in strictly rising order of their identifiers.
pub snapshot-IsRising : (s : MonitorState) → IsValid s → IsRising (snapshot s).active_sessions
unfolding snapshot
snapshot-IsRising s v = values-IsRising s.active_sessions v.sorted v.keyed
