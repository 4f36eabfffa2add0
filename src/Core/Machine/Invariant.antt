-- ===== src/Core/Machine/Invariant.antt =====
-- A machine after any events: where its sessions come from, and their identifiers.
use lensguard.Prelude.{
  ℕ, ◌≡◌, refl, ap, sym, ◌∙◌, ◌≤◌, ◌⊎◌, inl, inr, Bool, some, ok, arith, ltb, Option-cases,
  Bool-cases, Result-cases,
}
use lensguard.OrderedMap.{get}
use lensguard.OrderedMap.Sorted.{IsSorted, IsSorted-insert, IsSorted-remove}
use lensguard.OrderedMap.Removal.{IsSorted-entries_where}
use lensguard.OrderedMap.Entries.{
  AllEntries, AllEntries-weaken, AllEntries-insert, AllEntries-remove, AllEntries-entries_where,
  AllEntries-get,
}
use lensguard.Core.Model.{CameraSession, CameraSessionState}
use lensguard.Core.Capture.{DirectCaptureEvent, DirectCaptureOperation, validate}
use lensguard.Core.Session.Identity.{session_of, session_from_event-total, session_id_iff}
use lensguard.Core.Machine.{
  V4l2SessionMachine, CaptureKey, CaptureKey-eq, capture_key_ord, key_of, same_process, same_device,
  touch, start_or_touch, end_one, end_matching, backend_lost, apply_operation, apply, new_machine,
}
use lensguard.Core.Machine.Lookup.{end_matching-entries}

-- The session `s` of the capture `k` was started by an accepted event that confirms streaming, and
-- has only been seen again since, at times up to `last`.
pub record Confirmed (last : ℕ) (k : CaptureKey) (s : CameraSession) : Type 0 where
  pub event : DirectCaptureEvent
  pub accepted : validate event ≡ ok tt
  pub streams :
      (event.operation ≡ DirectCaptureOperation.stream_started)
      ⊎ (event.operation ≡ DirectCaptureOperation.capture_read)
  pub key : key_of event ≡ k
  pub session : s ≡ touch s.last_observed_at_monotonic_ns (session_of event)
  pub order : event.timestamp_monotonic_ns ≤ s.last_observed_at_monotonic_ns
  pub past : s.last_observed_at_monotonic_ns ≤ last

pub record IsValid (m : V4l2SessionMachine) : Type 0 where
  pub sorted : IsSorted m.active
  pub confirmed : AllEntries (Confirmed m.last_timestamp_monotonic_ns) m.active

pub new_machine-IsValid : IsValid new_machine
new_machine-IsValid = record { sorted = tt; confirmed = tt }

Confirmed-later :
    (last later : ℕ) (k : CaptureKey) (s : CameraSession)
    → last ≤ later
    → Confirmed last k s
    → Confirmed later k s
Confirmed-later last later k s h c = record {
  event = c.event;
  accepted = c.accepted;
  streams = c.streams;
  key = c.key;
  session = c.session;
  order = c.order;
  past = omega (arith, c.past);
}

-- The machine's clock moves on.
pub advance-IsValid :
    (m : V4l2SessionMachine) (later : ℕ)
    → m.last_timestamp_monotonic_ns ≤ later
    → IsValid m
    → IsValid (record m { last_timestamp_monotonic_ns = later })
advance-IsValid m later h v = record {
  sorted = v.sorted;
  confirmed = AllEntries-weaken m.active (λ k s. Confirmed-later _ later k s h) v.confirmed;
}

started-Confirmed :
    (e : DirectCaptureEvent)
    → validate e ≡ ok tt
    → (e.operation ≡ DirectCaptureOperation.stream_started)
      ⊎ (e.operation ≡ DirectCaptureOperation.capture_read)
    → Confirmed e.timestamp_monotonic_ns (key_of e) (session_of e)
unfolding session_of
started-Confirmed e a o = record {
  event = e;
  accepted = a;
  streams = o;
  key = refl;
  session = refl;
  order = omega arith;
  past = omega arith;
}

touch-Confirmed :
    (last now : ℕ) (k : CaptureKey) (s : CameraSession)
    → last ≤ now
    → Confirmed last k s
    → Confirmed now k (touch now s)
touch-Confirmed last now k s h c = record {
  event = c.event;
  accepted = c.accepted;
  streams = c.streams;
  key = c.key;
  session = ap (touch now) c.session;
  order = omega (arith, c.order, c.past);
  past = omega arith;
}

start_or_touch-IsValid :
    (e : DirectCaptureEvent) (m : V4l2SessionMachine)
    → validate e ≡ ok tt
    → (e.operation ≡ DirectCaptureOperation.stream_started)
      ⊎ (e.operation ≡ DirectCaptureOperation.capture_read)
    → m.last_timestamp_monotonic_ns ≡ e.timestamp_monotonic_ns
    → IsValid m
    → IsValid (start_or_touch e m).0
unfolding start_or_touch
start_or_touch-IsValid e m a o now v = elim (Option-cases (get (key_of e) m.active)) [
  | inl absent ↦
      rw (absent, start_or_touch)
        (rw (session_from_event-total e) (record {
          sorted = IsSorted-insert (key_of e) (session_of e) m.active v.sorted;
          confirmed =
              AllEntries-insert _ (key_of e) (session_of e) m.active
                (rw now (started-Confirmed e a o)) v.confirmed;
        }))
  | inr (s, found) ↦
      rw (found, start_or_touch)
        (record {
          sorted = IsSorted-insert (key_of e) _ m.active v.sorted;
          confirmed =
              AllEntries-insert _ (key_of e) _ m.active
                (rw (← now) (
                  touch-Confirmed _ _ (key_of e) s (omega arith)
                    (AllEntries-get _ (key_of e) m.active s v.confirmed found)))
                v.confirmed;
        })
]

end_one-IsValid :
    (key : CaptureKey) (state : CameraSessionState) (m : V4l2SessionMachine)
    → IsValid m
    → IsValid (end_one key state m).0
unfolding end_one
end_one-IsValid key state m v = elim (Option-cases (get key m.active)) [
  | inl absent ↦ rw (absent, end_one) v
  | inr (s, found) ↦
      rw (found, end_one)
        (record {
          sorted = IsSorted-remove key m.active v.sorted;
          confirmed = AllEntries-remove _ key m.active v.confirmed;
        })
]

end_matching-IsValid :
    (p : CaptureKey → Bool) (state : CameraSessionState) (m : V4l2SessionMachine)
    → IsValid m
    → IsValid (end_matching p state m).0
end_matching-IsValid p state m v = rw (end_matching-entries p state m v.sorted) (record {
  sorted = IsSorted-entries_where _ m.active v.sorted;
  confirmed = AllEntries-entries_where _ _ m.active v.confirmed;
})

apply_operation-IsValid :
    (o : DirectCaptureOperation) (e : DirectCaptureEvent) (m : V4l2SessionMachine)
    → validate e ≡ ok tt
    → e.operation ≡ o
    → m.last_timestamp_monotonic_ns ≡ e.timestamp_monotonic_ns
    → IsValid m
    → IsValid (apply_operation o e m).0
unfolding apply_operation
apply_operation-IsValid DirectCaptureOperation.stream_started e m a o now v =
    start_or_touch-IsValid e m a (inl o) now v
apply_operation-IsValid DirectCaptureOperation.capture_read e m a o now v =
    start_or_touch-IsValid e m a (inr o) now v
apply_operation-IsValid DirectCaptureOperation.stream_stopped e m a o now v =
    end_one-IsValid (key_of e) _ m v
apply_operation-IsValid DirectCaptureOperation.device_closed e m a o now v =
    end_one-IsValid (key_of e) _ m v
apply_operation-IsValid DirectCaptureOperation.process_exited e m a o now v =
    end_matching-IsValid (same_process e) _ m v
apply_operation-IsValid DirectCaptureOperation.device_removed e m a o now v =
    end_matching-IsValid (same_device e) _ m v
apply_operation-IsValid DirectCaptureOperation.backend_lost e m a o now v =
    unfold backend_lost in record { sorted = tt; confirmed = tt }
apply_operation-IsValid DirectCaptureOperation.device_opened e m a o now v = v

-- Every event keeps the machine valid: its captures are sorted by key, and each session was started
-- by an accepted event that confirms streaming.
pub apply-IsValid :
    (e : DirectCaptureEvent) (m : V4l2SessionMachine) → IsValid m → IsValid (apply e m).0
unfolding apply
apply-IsValid e m v = elim (Result-cases (validate e)) [
  | inr (x, bad) ↦ rw (bad, apply) v
  | inl (_, good) ↦ elim (Bool-cases (ltb e.timestamp_monotonic_ns m.last_timestamp_monotonic_ns)) [
    | inl stale ↦ rw (good, apply) (rw stale v)
    | inr fresh ↦
        rw (good, apply)
          (rw fresh (
            apply_operation-IsValid e.operation e _ good refl refl
              (advance-IsValid m _ (ground arith) v)))
  ]
]

-- A confirmed session's identifier determines its capture.
pub Confirmed-key :
    (last : ℕ) (j k : CaptureKey) (s t : CameraSession)
    → Confirmed last j s
    → Confirmed last k t
    → s.id ≡ t.id
    → j ≡ k
Confirmed-key last j k s t a b same =
    let ids : (session_of a.event).id ≡ (session_of b.event).id =
      sym (ap (λ x. x.id) a.session) ∙ same ∙ ap (λ x. x.id) b.session in
    let c = (session_id_iff a.event b.event).0 ids in
    sym a.key
    ∙ CaptureKey-eq _ _ (ground (arith, c.group, c.start, c.descriptor, c.major, c.minor))
    ∙ b.key

-- In a valid machine two captures never share a session identifier.
pub session_id-distinct :
    (m : V4l2SessionMachine) (j k : CaptureKey) (s t : CameraSession)
    → IsValid m
    → get j m.active ≡ some s
    → get k m.active ≡ some t
    → s.id ≡ t.id
    → j ≡ k
session_id-distinct m j k s t v p q same =
    Confirmed-key m.last_timestamp_monotonic_ns j k s t
      (AllEntries-get _ j m.active s v.confirmed p) (AllEntries-get _ k m.active t v.confirmed q)
      same
