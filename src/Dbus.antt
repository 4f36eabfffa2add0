-- ===== src/Dbus.antt =====
-- crates/camera-dbus: what the session bus shows of the monitor's state.
pub mod Dto
pub mod Service
