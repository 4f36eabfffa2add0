-- ===== src/Observer.antt =====
-- observer: the privileged process between the kernel program and the daemon.
pub mod Identity
pub mod Policy
pub mod Bpf
pub mod Messages
pub mod Server
pub mod Events
pub mod Lookup
pub mod Startup
