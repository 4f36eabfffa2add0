-- ===== src/Core/Model.antt =====
-- crates/camera-core/src/model.rs and error.rs: identifiers, cameras, applications and sessions.
use lensguard.Prelude.{
  ℕ, ◌≡◌, Option, Text, trim, is_empty, if◌then◌else◌, Result, ok, err, ℤ, ℤ-discrete, ℕ_discrete,
  ◌>>◌,
}
use lensguard.Order.{Ord, ord_by, list_ord, nat_ord}

pub data IdentifierKind : Type 0 where
  session device : IdentifierKind

pub data DomainError : Type 0 where
  empty_identifier : IdentifierKind → DomainError

pub record SessionId : Type 0 where
  pub text : Text

pub record DeviceId : Type 0 where
  pub text : Text

unfoldable pub validate_identifier : Text → IdentifierKind → Result DomainError (Unit {0})
validate_identifier value kind =
    if is_empty (trim value) then err (empty_identifier kind) else ok tt

-- `SessionId::new` and `DeviceId::new`
unfoldable pub new_session_id : Text → Result DomainError SessionId
unfolding validate_identifier
new_session_id value = do validate_identifier value session; ok (record { text = value })

unfoldable pub new_device_id : Text → Result DomainError DeviceId
unfolding validate_identifier
new_device_id value = do validate_identifier value device; ok (record { text = value })

pub SessionId-eq_of_text : (a b : SessionId) → a.text ≡ b.text → a ≡ b
SessionId-eq_of_text a b e = λ i. record { text = e i }

-- `derive(Ord)`: the order of the text.
instance abbrev pub session_id_ord : Ord SessionId
session_id_ord = ord_by list_ord (λ s. s.text) SessionId-eq_of_text

pub record CameraDevice : Type 0 where
  pub id : DeviceId
  pub display_name : Text
  pub node_name : Option Text

pub record ApplicationIdentity : Type 0 where
  pub pid : Option ℕ
  pub app_id : Option Text
  pub display_name : Text
  pub binary : Option Text

pub data CameraSessionState : Type 0 where
  active stopped interrupted unknown : CameraSessionState

pub record CameraSession : Type 0 where
  pub id : SessionId
  pub application : ApplicationIdentity
  pub device : CameraDevice
  pub process_start_time_ticks : ℕ
  pub thread_group_id : ℕ
  pub capture_file_descriptor : ℤ
  pub started_at_monotonic_ns : ℕ
  pub last_observed_at_monotonic_ns : ℕ
  pub state : CameraSessionState

-- `derive(PartialEq, Eq)`
unfoldable pub CameraSession-discrete : Discrete CameraSession
CameraSession-discrete = hlevel (ℕ_discrete, ℤ-discrete)
