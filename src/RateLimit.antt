-- ===== src/RateLimit.antt =====
-- internal/adapters/redis/ratelimit.go: the two rate limiters. `redis_rate` and `x/time/rate` are
-- parameters.
mod Defs
unfoldable pub use Defs.*
pub mod Laws
