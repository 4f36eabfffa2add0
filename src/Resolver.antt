-- ===== src/Resolver.antt =====
-- crates/camera-app-resolver: the names of applications.
pub mod Request
pub mod Cache
pub mod PlainText
pub mod Flatpak
pub mod DesktopIndex
pub mod DesktopEntries
pub mod Identity
pub mod Procfs
