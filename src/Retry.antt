-- ===== src/Retry.antt =====
-- internal/delivery/retry.go: what becomes of a delivery whose send has failed. The floating-point
-- numbers of the jitter are a parameter, and the random draw is an argument.
pub mod Bounds
mod Defs
unfoldable pub use Defs.*
pub use Bounds.*
