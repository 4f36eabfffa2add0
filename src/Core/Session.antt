-- ===== src/Core/Session.antt =====
-- crates/camera-core/src/v4l2.rs, `session_from_event`: the session that an event starts, and its
-- identifier.
pub mod Identity
use lensguard.Prelude.{
  ℕ, Text, codes, ◌++◌, Option, none, some, Result, ok, err, map_err, ◌>>=◌, ◌>>◌, ℤ,
}
use lensguard.Decimal.{show, show_int}
use lensguard.Core.Model.{
  CameraSession, CameraSessionState, CameraDevice, ApplicationIdentity, new_session_id,
  new_device_id,
}
use lensguard.Core.Capture.{
  DirectCaptureEvent, PhysicalCameraId, EventValidationError, invalid_process_identity,
}

-- `PhysicalCameraId::stable_node_id`
unfoldable pub stable_node_id : PhysicalCameraId → Text
stable_node_id d = codes "v4l2-" ++ (show d.major ++ (codes ":" ++ show d.minor))

-- The `session_text` of `session_from_event`.
unfoldable pub session_text : DirectCaptureEvent → Text
session_text e =
    codes "v4l2-"
    ++ (show e.thread_group_id
        ++ (codes "-"
            ++ (show e.process_start_time_ticks
                ++ (codes "-"
                    ++ (show_int e.file_descriptor
                        ++ (codes "-"
                            ++ (show e.device.major
                                ++ (codes ":"
                                    ++ (show e.device.minor
                                        ++ (codes "-" ++ show e.timestamp_monotonic_ns))))))))))

-- `unwrap_or_else`
abbrev text_or : Option Text → Text → Text
text_or (some t) d = t
text_or none d = d

unfoldable pub session_from_event : DirectCaptureEvent → Result EventValidationError CameraSession
session_from_event e = do
  id ← map_err (λ _. invalid_process_identity) (new_session_id (session_text e))
  device_id ← map_err (λ _. invalid_process_identity) (new_device_id (stable_node_id e.device))
  ok (record {
    id = id;
    application = record {
      pid = some e.process_id;
      app_id = none;
      display_name = codes "Unknown application";
      binary = none;
    };
    device = record {
      id = device_id;
      display_name = text_or e.device.display_name (codes "Unknown camera");
      node_name = e.device.udev_syspath;
    };
    process_start_time_ticks = e.process_start_time_ticks;
    thread_group_id = e.thread_group_id;
    capture_file_descriptor = e.file_descriptor;
    started_at_monotonic_ns = e.timestamp_monotonic_ns;
    last_observed_at_monotonic_ns = e.timestamp_monotonic_ns;
    state = CameraSessionState.active;
  })
