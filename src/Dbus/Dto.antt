-- ===== src/Dbus/Dto.antt =====
-- crates/camera-dbus/src/dto.rs: the sessions as the bus carries them.
use lensguard.Prelude.{◌≡◌, refl, ℕ, List, [], ◌∷◌, map, Option, none, some, Text, Ordering}
use lensguard.Sorting.{insert_sorted, sort_by}
use lensguard.Order.{list_ord, nat_ord, compare_list}
use lensguard.Core.Model.{CameraSession}
use lensguard.Core.State.{MonitorSnapshot, MonitorState, snapshot}
use lensguard.Core.State.Invariant.{IsValid, IsRising, snapshot-IsRising}

pub record SessionDto : Type 0 where
  pub session_id : Text
  pub application_id : Text
  pub application_name : Text
  pub device_id : Text
  pub device_name : Text
  pub started_at_monotonic_ns : ℕ
  pub process_id : ℕ

-- `Option::unwrap_or`
abbrev unwrap_or {ℓ} : {A : Type ℓ} → Option A → A → A
unwrap_or none a = a
unwrap_or (some b) a = b

-- `From<&CameraSession>`
unfoldable pub session_dto : CameraSession → SessionDto
session_dto session = record {
  session_id = session.id.text;
  application_id = unwrap_or session.application.app_id [];
  application_name = session.application.display_name;
  device_id = session.device.id.text;
  device_name = session.device.display_name;
  started_at_monotonic_ns = session.started_at_monotonic_ns;
  process_id = unwrap_or session.application.pid 0;
}

abbrev by_session_id : SessionDto → SessionDto → Ordering
by_session_id left right = list_ord.cmp left.session_id right.session_id

-- `snapshot_sessions`
unfoldable pub snapshot_sessions : MonitorSnapshot → List SessionDto
snapshot_sessions s = sort_by by_session_id (map session_dto s.active_sessions)

sort_by-IsRising :
    (l : List CameraSession)
    → IsRising l
    → sort_by by_session_id (map session_dto l) ≡ map session_dto l
unfolding sort_by insert_sorted compare_list
sort_by-IsRising [] h = refl
sort_by-IsRising (a ∷ []) h = refl
sort_by-IsRising (a ∷ b ∷ l) h =
    rw (sort_by-IsRising (b ∷ l) h.1) (unfold session_dto in rw h.0 refl)

-- For a valid state, the bus lists the sessions in the order of the snapshot: it is sorted already.
snapshot_sessions-snapshot :
    (s : MonitorState)
    → IsValid s
    → snapshot_sessions (snapshot s) ≡ map session_dto (snapshot s).active_sessions
unfolding snapshot_sessions
snapshot_sessions-snapshot s v =
    sort_by-IsRising (snapshot s).active_sessions (snapshot-IsRising s v)
