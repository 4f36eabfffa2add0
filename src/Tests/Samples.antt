-- ===== src/Tests/Samples.antt =====
-- Cameras, events and states that the tests share.
use lensguard.Prelude.{[], ◌∷◌, none, some, pos, codes}
use lensguard.Core.Model.{CameraSession}
use lensguard.Core.Capture.{
  CaptureOwner, CaptureConfidence, DirectCaptureOperation, PhysicalCameraId, DirectCaptureEvent,
}
use lensguard.Core.Session.Identity.{session_of}
use lensguard.Core.Machine.{V4l2SessionMachine, key_of}
use lensguard.Core.State.{MonitorState, new_state}

abbrev pub camera : PhysicalCameraId
camera = record {
  major = 81;
  minor = 3;
  udev_syspath = some (codes "/sys/devices/usb1");
  media_device = none;
  serial = none;
  hardware_path = none;
  vendor_id = none;
  product_id = none;
  bus_info = none;
  driver = none;
  display_name = some (codes "Front Camera");
}

abbrev pub start : DirectCaptureEvent
start = record {
  schema_version = 1;
  timestamp_monotonic_ns = 100;
  process_id = 42;
  thread_group_id = 42;
  process_start_time_ticks = 7;
  file_descriptor = pos 3;
  device = camera;
  operation = DirectCaptureOperation.stream_started;
  result = pos 0;
  confidence = CaptureConfidence.confirmed;
  owner = CaptureOwner.direct;
}

-- The same capture stops.
abbrev pub stop : DirectCaptureEvent
stop = record start {
  timestamp_monotonic_ns = 200;
  operation = DirectCaptureOperation.stream_stopped;
}

-- An event that comes from a broker.
abbrev pub brokered : DirectCaptureEvent
brokered = record start { owner = CaptureOwner.broker_owned }

abbrev pub session : CameraSession
session = session_of start

abbrev pub streaming : V4l2SessionMachine
streaming = record { active = (key_of start, session) ∷ []; last_timestamp_monotonic_ns = 100 }

abbrev pub watching : MonitorState
watching = record new_state { active_sessions = (session.id, session) ∷ [] }
