-- ===== src/Store/Consistent.antt =====
-- The invariant of the tables: the status of every request and the counters of every batch.
mod Defs
mod Members
mod Refresh
pub use Defs.*
pub use Members.*
pub use Refresh.*
mod Progress
mod Operations
pub use Progress.*
mod Cancelling
mod Scheduling
pub use Scheduling.*
pub use Cancelling.*
pub use Operations.*
