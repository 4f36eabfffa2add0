-- ===== src/System.antt =====
-- The observer and the daemon together: from the events of the kernel to the daemon's state.
pub mod Reception
pub mod Effects
pub mod Polling
pub mod Accepted
pub mod EndToEnd
