-- ===== src/Core/Capture/Validation.antt =====
-- What `validate` accepts, stated without the order of its guards.
use lensguard.Prelude.{
  zero, suc, is_zero, is_positive, is_nonneg, ℕ, ◌<◌, ◌≤◌, ◌≡◌, refl, ◌↔◌, Bool, true, false,
  Option, none, some, Text, ℤ, pos, negsuc, is_negative, byte_len, ok, arith, List, [], ◌∷◌, any,
  All, ltb,
}
use lensguard.Core.Capture.{
  text_fields, present, confidence_eq, DirectCaptureEvent, DirectCaptureOperation, CaptureOwner,
  CaptureConfidence, PhysicalCameraId, validate, has_long_field, needs_no_descriptor,
  observer_schema_version, confirmed_result, expected_confidence, max_identity_field_bytes,
}

-- The result with which an operation counts as done: 0 for a stream, a positive count for a read.
abbrev pub HasConfirmedResult : DirectCaptureOperation → ℤ → Type 0
HasConfirmedResult DirectCaptureOperation.stream_started r = r ≡ pos 0
HasConfirmedResult DirectCaptureOperation.stream_stopped r = r ≡ pos 0
HasConfirmedResult DirectCaptureOperation.capture_read r = (n : ℕ) × (r ≡ pos n) × (0 < n)
HasConfirmedResult _ r = (n : ℕ) × (r ≡ pos n)

abbrev pub HasConfidence : DirectCaptureOperation → CaptureConfidence → Type 0
HasConfidence DirectCaptureOperation.device_opened c = c ≡ CaptureConfidence.open_only
HasConfidence DirectCaptureOperation.backend_lost c = c ≡ CaptureConfidence.unknown
HasConfidence _ c = c ≡ CaptureConfidence.confirmed

abbrev pub IsShort : Option Text → Type 0
IsShort none = Unit
IsShort (some t) = byte_len t ≤ max_identity_field_bytes

pub record HasShortFields (d : PhysicalCameraId) : Type 0 where
  pub udev_syspath : IsShort d.udev_syspath
  pub media_device : IsShort d.media_device
  pub serial : IsShort d.serial
  pub hardware_path : IsShort d.hardware_path
  pub vendor_id : IsShort d.vendor_id
  pub product_id : IsShort d.product_id
  pub bus_info : IsShort d.bus_info
  pub driver : IsShort d.driver
  pub display_name : IsShort d.display_name

pub record IsAcceptable (e : DirectCaptureEvent) : Type 0 where
  pub schema : e.schema_version ≡ observer_schema_version
  pub owner : e.owner ≡ CaptureOwner.direct
  pub process : 0 < e.process_id
  pub group : 0 < e.thread_group_id
  pub start : 0 < e.process_start_time_ticks
  pub descriptor : is_negative e.file_descriptor ≡ true → needs_no_descriptor e.operation ≡ true
  pub result : HasConfirmedResult e.operation e.result
  pub confidence : HasConfidence e.operation e.confidence
  pub fields : HasShortFields e.device

is_zero_iff : (r : ℤ) → (is_zero r ≡ true) ↔ (r ≡ pos 0)
is_zero_iff r = ground arith

is_positive_iff : (r : ℤ) → (is_positive r ≡ true) ↔ ((n : ℕ) × (r ≡ pos n) × (0 < n))
is_positive_iff (pos zero) = (λ h. cc, λ h. ground arith)
is_positive_iff (pos (suc n)) = (λ _. (suc n, refl, omega arith), λ _. refl)
is_positive_iff (negsuc n) = (λ h. cc, λ h. ground arith)

is_nonneg_iff : (r : ℤ) → (is_nonneg r ≡ true) ↔ ((n : ℕ) × (r ≡ pos n))
is_nonneg_iff (pos n) = (λ _. (n, refl), λ _. refl)
is_nonneg_iff (negsuc n) = (λ h. cc, λ h. ground arith)

confirmed_result_iff :
    (o : DirectCaptureOperation) (r : ℤ) → (confirmed_result o r ≡ true) ↔ HasConfirmedResult o r
unfolding confirmed_result
confirmed_result_iff DirectCaptureOperation.stream_started r = is_zero_iff r
confirmed_result_iff DirectCaptureOperation.stream_stopped r = is_zero_iff r
confirmed_result_iff DirectCaptureOperation.capture_read r = is_positive_iff r
confirmed_result_iff _ r = is_nonneg_iff r

confidence_eq_iff : (c d : CaptureConfidence) → (confidence_eq c d ≡ true) ↔ (c ≡ d)
confidence_eq_iff c d = ground arith

confidence_iff :
    (o : DirectCaptureOperation) (c : CaptureConfidence)
    → (confidence_eq c (expected_confidence o) ≡ true) ↔ HasConfidence o c
unfolding expected_confidence
confidence_iff DirectCaptureOperation.device_opened c = confidence_eq_iff c _
confidence_iff DirectCaptureOperation.backend_lost c = confidence_eq_iff c _
confidence_iff _ c = confidence_eq_iff c _

abbrev long : Text → Bool
long field = ltb max_identity_field_bytes (byte_len field)

IsShort-iff : (fs : List (Option Text)) → (any long (present fs) ≡ false) ↔ All IsShort fs
unfolding any
IsShort-iff [] = (λ _. tt, λ _. refl)
IsShort-iff (none ∷ fs) = (λ h. (tt, (IsShort-iff fs).0 h), λ h. (IsShort-iff fs).1 h.1)
IsShort-iff (some t ∷ fs) = ground (arith, IsShort-iff fs)

fields_iff : (d : PhysicalCameraId) → (has_long_field d ≡ false) ↔ HasShortFields d
unfolding has_long_field
fields_iff d = (
  λ h. record_of ((IsShort-iff (text_fields d)).0 h),
  λ s. (IsShort-iff (text_fields d)).1 (
    s.udev_syspath,
    (
      s.media_device,
      (
        s.serial,
        (
          s.hardware_path,
          (s.vendor_id, (s.product_id, (s.bus_info, (s.driver, (s.display_name, tt))))),
        ),
      ),
    ),
  ),
)
  where
    record_of : All IsShort (text_fields d) → HasShortFields d
    record_of a = record {
      udev_syspath = a.0;
      media_device = a.1.0;
      serial = a.1.1.0;
      hardware_path = a.1.1.1.0;
      vendor_id = a.1.1.1.1.0;
      product_id = a.1.1.1.1.1.0;
      bus_info = a.1.1.1.1.1.1.0;
      driver = a.1.1.1.1.1.1.1.0;
      display_name = a.1.1.1.1.1.1.1.1.0;
    }

validate-IsAcceptable : (e : DirectCaptureEvent) → validate e ≡ ok tt → IsAcceptable e
unfolding validate
validate-IsAcceptable e h = record {
  schema = ground arith;
  owner = ground arith;
  process = ground arith;
  group = ground arith;
  start = ground arith;
  descriptor = λ n. ground arith;
  result = (confirmed_result_iff e.operation e.result).0 (ground arith);
  confidence = (confidence_iff e.operation e.confidence).0 (ground arith);
  fields = (fields_iff e.device).0 (ground arith);
}

IsAcceptable-validate : (e : DirectCaptureEvent) → IsAcceptable e → validate e ≡ ok tt
unfolding validate
IsAcceptable-validate e a =
    let r = (confirmed_result_iff e.operation e.result).1 a.result in
    let c = (confidence_iff e.operation e.confidence).1 a.confidence in
    let f = (fields_iff e.device).1 a.fields in ground (arith, a.descriptor)

-- An event is accepted exactly when it has the schema version 1, the owner `direct`, a non-zero
-- process, thread group and start time, a descriptor that is not negative (unless its operation
-- ends whole processes, devices or backends), the result and the confidence that its operation
-- calls for, and no identity text above 512 bytes.
pub validate_iff : (e : DirectCaptureEvent) → (validate e ≡ ok tt) ↔ IsAcceptable e
validate_iff e = (validate-IsAcceptable e, IsAcceptable-validate e)
