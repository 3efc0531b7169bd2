-- ===== src/Domain/Status.antt =====
-- internal/domain/status.go: the status of a request from those of its deliveries.
mod Laws
unfoldable pub use Defs.*
pub use Laws.*
mod Defs
