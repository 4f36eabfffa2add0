-- ===== src/Core.antt =====
-- crates/camera-core: the domain model, the V4L2 session machine and the monitor's state.
pub mod Model
pub mod Capture
pub mod Session
pub mod Machine
pub mod State
