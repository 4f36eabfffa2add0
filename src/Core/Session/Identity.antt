-- ===== src/Core/Session/Identity.antt =====
-- Session identifiers: whether one can be empty, and when two are the same.
use lensguard.Prelude.{
  ◌↔◌, drop, ℕ, ◌≡◌, refl, ap, sym, Text, codes, ◌++◌, ◌∷◌, [], none, some, ok, ℤ, pos, negsuc,
  arith, inl, inr, trim, trim_start, trim_end, keep_before, is_whitespace, is_empty, false, suc,
}
use mathlib.Core.List.{append-nil}
use lensguard.Decimal.{show-ne-minus, show_int, show_cancel, EndsNumber}
use lensguard.Core.Model.{CameraSessionState, CameraSession, new_session_id, new_device_id}
use lensguard.Core.Capture.{DirectCaptureEvent}
use lensguard.Core.Session.{text_or, session_text, stable_node_id, session_from_event}

keep_before-visible :
    (c : ℕ) (t : Text) → is_whitespace c ≡ false → is_empty (keep_before c t) ≡ false
unfolding keep_before
keep_before-visible c [] h = rw h
keep_before-visible c (d ∷ t) h = refl

trim-visible : (c : ℕ) (s : Text) → is_whitespace c ≡ false → is_empty (trim (c ∷ s)) ≡ false
unfolding trim trim_start trim_end
trim-visible c s h = rw (h, trim_start, trim_end) (keep_before-visible c (trim_end s) h)

-- What `session_from_event` returns on every event.
unfoldable pub session_of : DirectCaptureEvent → CameraSession
session_of e = record {
  id = record { text = session_text e };
  application = record {
    pid = some e.process_id;
    app_id = none;
    display_name = codes "Unknown application";
    binary = none;
  };
  device = record {
    id = record { text = stable_node_id e.device };
    display_name = text_or e.device.display_name (codes "Unknown camera");
    node_name = e.device.udev_syspath;
  };
  process_start_time_ticks = e.process_start_time_ticks;
  thread_group_id = e.thread_group_id;
  capture_file_descriptor = e.file_descriptor;
  started_at_monotonic_ns = e.timestamp_monotonic_ns;
  last_observed_at_monotonic_ns = e.timestamp_monotonic_ns;
  state = CameraSessionState.active;
}

new_session_id-ok :
    (e : DirectCaptureEvent)
    → new_session_id (session_text e) ≡ ok (record { text = session_text e })
unfolding new_session_id session_text is_whitespace
new_session_id-ok e = rw (trim-visible b'v' _ refl)

new_device_id-ok :
    (e : DirectCaptureEvent)
    → new_device_id (stable_node_id e.device) ≡ ok (record { text = stable_node_id e.device })
unfolding new_device_id stable_node_id is_whitespace
new_device_id-ok e = rw (trim-visible b'v' _ refl)

-- No event fails to give a session: neither identifier is ever blank.
pub session_from_event-total : (e : DirectCaptureEvent) → session_from_event e ≡ ok (session_of e)
unfolding session_from_event session_of
session_from_event-total e = rw (new_session_id-ok e, new_device_id-ok e) refl

show_int_cancel :
    (a b : ℤ) (s t : Text)
    → EndsNumber s
    → EndsNumber t
    → show_int a ++ s ≡ show_int b ++ t
    → (a ≡ b) × (s ≡ t)
unfolding show_int
show_int_cancel (pos a) (pos b) s t hs ht e =
    let (n, r) = show_cancel a b s t hs ht e in (ap pos n, r)
show_int_cancel (pos a) (negsuc b) s t hs ht e = absurd (show-ne-minus a s _ e)
show_int_cancel (negsuc a) (pos b) s t hs ht e = absurd (show-ne-minus b t _ (sym e))
show_int_cancel (negsuc a) (negsuc b) s t hs ht e =
    let (n, r) = show_cancel (suc a) (suc b) s t hs ht (ap (drop 1) e) in (ground arith, r)

pub record SameCapture (d e : DirectCaptureEvent) : Type 0 where
  pub group : d.thread_group_id ≡ e.thread_group_id
  pub start : d.process_start_time_ticks ≡ e.process_start_time_ticks
  pub descriptor : d.file_descriptor ≡ e.file_descriptor
  pub major : d.device.major ≡ e.device.major
  pub minor : d.device.minor ≡ e.device.minor
  pub timestamp : d.timestamp_monotonic_ns ≡ e.timestamp_monotonic_ns

session_text-injective :
    (d e : DirectCaptureEvent) → session_text d ≡ session_text e → SameCapture d e
unfolding session_text
session_text-injective d e h =
    let (group, r₁) = show_cancel _ _ _ _ (inl (omega arith)) (inl (omega arith)) (ap (drop 5) h) in
    let (start, r₂) =
      show_cancel _ _ _ _ (inl (omega arith)) (inl (omega arith)) (ap (drop 1) r₁) in
    let (descriptor, r₃) =
      show_int_cancel _ _ _ _ (inl (omega arith)) (inl (omega arith)) (ap (drop 1) r₂) in
    let (major, r₄) =
      show_cancel _ _ _ _ (inr (omega arith)) (inr (omega arith)) (ap (drop 1) r₃) in
    let (minor, r₅) =
      show_cancel _ _ _ _ (inl (omega arith)) (inl (omega arith)) (ap (drop 1) r₄) in
    let (timestamp, _) =
      show_cancel d.timestamp_monotonic_ns e.timestamp_monotonic_ns [] [] tt tt
        (simp append-nil (ap (drop 1) r₅)) in
    record {
      group = group;
      start = start;
      descriptor = descriptor;
      major = major;
      minor = minor;
      timestamp = timestamp;
    }

-- Two events give the same session identifier exactly when they agree on the thread group, its
-- start time, the file descriptor, the device numbers and the timestamp.
pub session_id_iff :
    (d e : DirectCaptureEvent) → ((session_of d).id ≡ (session_of e).id) ↔ SameCapture d e
unfolding session_of session_text
session_id_iff d e = (
  λ h. session_text-injective d e (ap (λ i. i.text) h),
  λ c. rw (c.group, c.start, c.descriptor, c.major, c.minor, c.timestamp) refl,
)
