-- ===== src/Scheduler.antt =====
-- internal/scheduler: the background jobs.
mod Jobs
unfoldable pub use Jobs.*
pub mod Relay
pub mod Lag
