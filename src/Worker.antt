-- ===== src/Worker.antt =====
-- internal/worker: consuming messages and sending deliveries.
mod Defs
mod Process
unfoldable pub use Defs.*
unfoldable pub use Process.*
pub mod Waiting
mod Held
mod Quiet
pub mod Sound
pub mod Pool
pub mod Calls
pub mod Handling
pub mod Settled
pub mod Counted
