-- ===== src/Core/Capture.antt =====
-- crates/camera-core/src/v4l2.rs, the events: the observer's message types and their validation.
pub mod Validation
use lensguard.Prelude.{
  ℕ, ◌*◌, Bool, true, false, not, ◌&&◌, ◌||◌, List, [], ◌∷◌, ◌++◌, Option, none, some, Text, codes,
  ℤ, is_negative, is_zero, is_positive, is_nonneg, ◌==◌, ltb, byte_len, any, Result, ok, err, ◌>>=◌,
  ◌>>◌, fail_if, ℕ_discrete, if◌then◌else◌,
}

abbrev pub observer_schema_version : ℕ
observer_schema_version = 1

abbrev pub max_observer_message_size : ℕ
max_observer_message_size = 16 * 1024

abbrev pub max_identity_field_bytes : ℕ
max_identity_field_bytes = 512

pub data CaptureOwner : Type 0 where
  direct broker_owned unknown : CaptureOwner

pub data CaptureConfidence : Type 0 where
  confirmed open_only unknown : CaptureConfidence

pub data DirectCaptureOperation : Type 0 where
  device_opened stream_started stream_stopped capture_read device_closed process_exited
        device_removed backend_lost :
      DirectCaptureOperation

pub record PhysicalCameraId : Type 0 where
  pub major : ℕ
  pub minor : ℕ
  pub udev_syspath : Option Text
  pub media_device : Option Text
  pub serial : Option Text
  pub hardware_path : Option Text
  pub vendor_id : Option Text
  pub product_id : Option Text
  pub bus_info : Option Text
  pub driver : Option Text
  pub display_name : Option Text

pub record DirectCaptureEvent : Type 0 where
  pub schema_version : ℕ
  pub timestamp_monotonic_ns : ℕ
  pub process_id : ℕ
  pub thread_group_id : ℕ
  pub process_start_time_ticks : ℕ
  pub file_descriptor : ℤ
  pub device : PhysicalCameraId
  pub operation : DirectCaptureOperation
  pub result : ℤ
  pub confidence : CaptureConfidence
  pub owner : CaptureOwner

pub data ObserverAvailability : Type 0 where
  available disabled not_installed unsupported_kernel missing_capability blocked_by_policy
        version_mismatch connection_failed backend_lost :
      ObserverAvailability

abbrev pub is_available : ObserverAvailability → Bool
is_available ObserverAvailability.available = true
is_available _ = false

-- `ObserverAvailability::as_str`
unfoldable pub availability_text : ObserverAvailability → Text
availability_text ObserverAvailability.available = codes "available"
availability_text ObserverAvailability.disabled = codes "disabled"
availability_text ObserverAvailability.not_installed = codes "not-installed"
availability_text ObserverAvailability.unsupported_kernel = codes "unsupported-kernel"
availability_text ObserverAvailability.missing_capability = codes "missing-capability"
availability_text ObserverAvailability.blocked_by_policy = codes "blocked-by-policy"
availability_text ObserverAvailability.version_mismatch = codes "version-mismatch"
availability_text ObserverAvailability.connection_failed = codes "connection-failed"
availability_text ObserverAvailability.backend_lost = codes "backend-lost"

pub record SuppressionDiagnostics : Type 0 where
  pub suppressed_broker_events : ℕ
  pub suppressed_unknown_events : ℕ

pub data ObserverClientMessage : Type 0 where
  hello : ℕ → Text → ObserverClientMessage

pub data ObserverMessage : Type 0 where
  hello : ℕ → Text → ObserverMessage
  availability : ObserverAvailability → Text → ObserverMessage
  capture : DirectCaptureEvent → ObserverMessage
  diagnostics : SuppressionDiagnostics → ObserverMessage

pub data EventValidationError : Type 0 where
  unsupported_schema : ℕ → EventValidationError
  non_direct_owner invalid_process_identity invalid_file_descriptor invalid_result
        invalid_confidence identity_field_too_long :
      EventValidationError

-- `derive(PartialEq, Eq)`
unfoldable pub ObserverAvailability-discrete : Discrete ObserverAvailability
ObserverAvailability-discrete = hlevel

unfoldable pub SuppressionDiagnostics-discrete : Discrete SuppressionDiagnostics
SuppressionDiagnostics-discrete = hlevel ℕ_discrete

-- `Option::into_iter` over the fields, `flatten`ed.
abbrev present : List (Option Text) → List Text
present [] = []
present (none ∷ r) = present r
present (some t ∷ r) = t ∷ present r

-- The nine identity texts that the observer may fill in.
unfoldable pub text_fields : PhysicalCameraId → List (Option Text)
text_fields d =
    d.udev_syspath ∷ d.media_device ∷ d.serial ∷ d.hardware_path ∷ d.vendor_id ∷ d.product_id
    ∷ d.bus_info ∷ d.driver ∷ d.display_name ∷ []

abbrev pub is_direct : CaptureOwner → Bool
is_direct CaptureOwner.direct = true
is_direct _ = false

-- `matches!` in the guard on the file descriptor.
abbrev pub needs_no_descriptor : DirectCaptureOperation → Bool
needs_no_descriptor DirectCaptureOperation.process_exited = true
needs_no_descriptor DirectCaptureOperation.device_removed = true
needs_no_descriptor DirectCaptureOperation.backend_lost = true
needs_no_descriptor _ = false

unfoldable pub confirmed_result : DirectCaptureOperation → ℤ → Bool
confirmed_result DirectCaptureOperation.stream_started r = is_zero r
confirmed_result DirectCaptureOperation.stream_stopped r = is_zero r
confirmed_result DirectCaptureOperation.capture_read r = is_positive r
confirmed_result _ r = is_nonneg r

unfoldable pub expected_confidence : DirectCaptureOperation → CaptureConfidence
expected_confidence DirectCaptureOperation.device_opened = CaptureConfidence.open_only
expected_confidence DirectCaptureOperation.backend_lost = CaptureConfidence.unknown
expected_confidence _ = CaptureConfidence.confirmed

abbrev pub confidence_eq : CaptureConfidence → CaptureConfidence → Bool
confidence_eq CaptureConfidence.confirmed CaptureConfidence.confirmed = true
confidence_eq CaptureConfidence.open_only CaptureConfidence.open_only = true
confidence_eq CaptureConfidence.unknown CaptureConfidence.unknown = true
confidence_eq _ _ = false

unfoldable pub has_long_field : PhysicalCameraId → Bool
unfolding text_fields any
has_long_field d =
    any (λ field. ltb max_identity_field_bytes (byte_len field)) (present (text_fields d))

-- The first violation in the order of the code.
unfoldable pub validate : DirectCaptureEvent → Result EventValidationError (Unit {0})
unfolding confirmed_result expected_confidence
validate e = do
  fail_if (not (e.schema_version == observer_schema_version)) (unsupported_schema e.schema_version)
  fail_if (not (is_direct e.owner)) non_direct_owner
  fail_if (e.process_id == 0 || e.thread_group_id == 0 || e.process_start_time_ticks == 0)
      invalid_process_identity
  fail_if (is_negative e.file_descriptor && not (needs_no_descriptor e.operation))
      invalid_file_descriptor
  fail_if (not (confirmed_result e.operation e.result)) invalid_result
  fail_if (not (confidence_eq e.confidence (expected_confidence e.operation))) invalid_confidence
  fail_if (has_long_field e.device) identity_field_too_long
  ok tt
