-- ===== src/Worker/Pool.antt =====
-- The goroutines of the worker: the steps, and what holds on every run.
mod Defs
unfoldable pub use Defs.*
pub mod Drained
pub mod Closing
