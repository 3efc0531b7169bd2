-- ===== src/Notification.antt =====
-- internal/notification: the service that creates, reads and cancels notifications.
mod Input
mod Build
mod Service
unfoldable pub use Input.*
unfoldable pub use Build.*
unfoldable pub use Service.*
pub mod Validation
pub mod Ownership
pub mod Replay
pub mod Sound
