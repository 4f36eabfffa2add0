-- ===== src/Tests/CoreTests.antt =====
-- The theorems on camera-core at concrete events.
use lensguard.Core.Model.{CameraSessionState}
use lensguard.Prelude.{len_utf8, byte_len, any, ◌≡◌, refl, ◌≢◌, ◌↔◌, inl, true, some, ok, arith}
use lensguard.OrderedMap.{get}
use lensguard.Core.Capture.{
  text_fields, has_long_field, expected_confidence, confirmed_result, validate,
}
use lensguard.Core.Capture.Validation.{IsAcceptable, validate_iff}
use lensguard.Core.Session.Identity.{session_of, session_id_iff, SameCapture}
use lensguard.Core.Machine.{capture_key_ord, key_of, started, ended, no_transition}
use lensguard.Core.Machine
use lensguard.Core.Machine.Lookup.{capture_after, get-apply}
use lensguard.Core.Machine.Invariant.{session_id-distinct, new_machine-IsValid, apply-IsValid}
use lensguard.Core.Machine.Presence.{present, present_after, present-apply}
use lensguard.Core.State.{
  MonitorEvent, session_started, session_stopped, session_updated, active_session, snapshot,
  new_state,
}
use lensguard.Core.State
use lensguard.Core.State.Invariant.{
  session_after, active_session-apply, snapshot-IsRising, IsRising,
}
use lensguard.Core.State.Changes.{apply-changed_iff}
use lensguard.Tests.Samples.{start, stop, brokered, session, streaming, watching}

start-accepted : validate start ≡ ok tt
unfolding validate confirmed_result expected_confidence has_long_field text_fields any byte_len
    len_utf8
start-accepted = refl

stop-accepted : validate stop ≡ ok tt
unfolding validate confirmed_result expected_confidence has_long_field text_fields any byte_len
    len_utf8
stop-accepted = refl

brokered-refused : validate brokered ≢ ok tt
unfolding validate
brokered-refused h = cc

pub streaming-IsValid : Machine.Invariant.IsValid streaming
unfolding session_of
streaming-IsValid = record {
  sorted = tt;
  confirmed = (
    record {
      event = start;
      accepted = start-accepted;
      streams = inl refl;
      key = refl;
      session = refl;
      order = omega arith;
      past = omega arith;
    },
    tt,
  );
}

pub watching-IsValid : State.Invariant.IsValid watching
watching-IsValid = record { sorted = tt; keyed = (refl, tt) }

-- A stop of the running capture ends its session.
runs_and_stops : (Machine.apply stop streaming).1 ≡ ok (ended session CameraSessionState.stopped)
unfolding Machine.apply Machine.apply_operation Machine.end_one get session_of validate
    confirmed_result expected_confidence has_long_field text_fields any byte_len len_utf8
runs_and_stops = refl

validate_iff_example : (validate start ≡ ok tt) ↔ IsAcceptable start
validate_iff_example = validate_iff start

session_id_iff_example : ((session_of start).id ≡ (session_of stop).id) ↔ SameCapture start stop
session_id_iff_example = session_id_iff start stop

apply-IsValid_example : Machine.Invariant.IsValid (Machine.apply stop streaming).0
apply-IsValid_example = apply-IsValid stop streaming streaming-IsValid

get-apply_example :
    (get (key_of start) (Machine.apply stop streaming).0.active
      ≡ capture_after stop.operation stop (key_of start) (get (key_of start) streaming.active))
    × ((Machine.apply stop streaming).0.last_timestamp_monotonic_ns ≡ 200)
get-apply_example = get-apply stop streaming (key_of start) tt stop-accepted (omega arith)

present-apply_example :
    present session.id (Machine.apply stop streaming).0
    ≡ present_after
        (ended session CameraSessionState.stopped)
        session.id
        (present session.id streaming)
present-apply_example =
    present-apply stop streaming session.id (ended session CameraSessionState.stopped)
      streaming-IsValid runs_and_stops

found : get (key_of start) streaming.active ≡ some session
unfolding get session_of
found = refl

session_id-distinct_example : key_of start ≡ key_of start
session_id-distinct_example =
    session_id-distinct streaming (key_of start) (key_of start) session session streaming-IsValid
      found found refl

active_session-apply_example :
    active_session session.id (State.apply (session_stopped session.id) watching).0
    ≡ session_after (session_stopped session.id) session.id (active_session session.id watching)
active_session-apply_example = active_session-apply (session_stopped session.id) watching session.id

apply-changed_iff_example :
    ((State.apply (session_stopped session.id) watching).1 ≡ true)
    ↔ ((State.apply (session_stopped session.id) watching).0 ≢ watching)
apply-changed_iff_example = apply-changed_iff (session_stopped session.id) watching
