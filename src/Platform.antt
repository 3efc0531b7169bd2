-- ===== src/Platform.antt =====
-- internal/platform: the configuration and the authentication of users.
mod Auth
mod Settings
mod Variables
mod Checks
mod Load
unfoldable pub use Auth.*
unfoldable pub use Settings.*
unfoldable pub use Variables.*
unfoldable pub use Checks.*
unfoldable pub use Load.*
pub mod Loaded
pub mod Tokens
