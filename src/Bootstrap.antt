-- ===== src/Bootstrap.antt =====
-- internal/bootstrap and cmd: how the configuration becomes the parts of the processes.
mod Defs
unfoldable pub use Defs.*
pub mod Wired
