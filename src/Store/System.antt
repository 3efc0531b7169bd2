-- ===== src/Store/System.antt =====
-- The tables under any sequence of the operations of the store: the invariant and the runs.
mod Defs
mod Keys
mod Kept
mod Steps
mod Added
mod Created
mod Filling
mod Batched
pub mod Stays
pub mod Runs
unfoldable pub use Defs.*
pub use Keys.*
pub use Added.{New}
pub use Batched.{NewIn, create_batch-Inv}
pub use Created.{create_notification-Inv}
pub use Steps.*
