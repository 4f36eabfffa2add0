-- ===== src/Daemon.antt =====
-- daemon: the client of the observer, the pipeline, and what runs them.
pub mod Application
pub mod Wire
pub mod Source
pub mod Backoff
pub mod Backend
pub mod Runtime
pub mod Config
pub mod Startup
pub mod Entry
