-- ===== src/Provider.antt =====
-- internal/adapters/provider: the webhook client and the circuit breaker. The HTTP client, the JSON
-- decoder, `http.ParseTime` and gobreaker are parameters.
mod Webhook
mod Breaker
unfoldable pub use Webhook.*
unfoldable pub use Breaker.*
pub mod Verdicts
