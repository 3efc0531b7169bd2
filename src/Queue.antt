-- ===== src/Queue.antt =====
-- internal/adapters/redis: the streams, their consumer group and the dead-letter stream.
mod Defs
unfoldable pub use Defs.*
pub mod Reading
