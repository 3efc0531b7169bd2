-- ===== src/Worker/Defs.antt =====
-- worker.go: the configuration with its defaults, and the ports.
use notification_system.Prelude.{
  ℕ, String, ℤ, pos, Bool, Option, List, [], ◌∷◌, ◌++◌, map, leb_ℤ, if◌then◌else◌,
}
use notification_system.Domain.Enums.{Channel, Priority, stream}
use notification_system.Domain.Errors.{Result, ok, err}
use notification_system.Domain.Models.{ProviderRequest}
use notification_system.Provider.{ProviderReply}
use notification_system.Queue.{ensure_group}

pub record Config : Type 0 where
  pub priorities : List Priority
  pub channels : List Channel
  pub concurrency : ℤ
  pub consumer : String
  pub batch_size : ℤ
  pub lease_ttl : ℤ
  pub block_time : ℤ
  pub rate_wait_max : ℤ
  pub rate_wait_step : ℤ

abbrev or_default : ℤ → ℤ → ℤ
or_default n d = if leb_ℤ n (pos 0) then d else n

abbrev streams_of : Priority → List Channel → List String
streams_of p = map (stream p)

-- The streams in the order of their priorities.
unfoldable pub all_streams : List Priority → List Channel → List String
unfolding stream
all_streams [] cs = []
all_streams (p ∷ ps) cs = streams_of p cs ++ all_streams ps cs

-- The defaults of `newWorker`.
unfoldable pub with_defaults : Config → Config
with_defaults c = record c {
  concurrency = or_default c.concurrency (pos 1);
  batch_size = or_default c.batch_size (pos 1);
  rate_wait_step = or_default c.rate_wait_step (pos 50000000);
  rate_wait_max = or_default c.rate_wait_max (pos 30000000000);
}

-- `newWorker`: the streams to consume.
unfoldable pub worker_streams : Config → List String
unfolding all_streams
worker_streams c = all_streams c.priorities c.channels

-- An answer of the rate limiter.
pub record Answer : Type 0 where
  pub allowed : Bool
  pub retry_after : ℤ

-- The provider, behind its circuit breaker, and the rate limiter. Both may answer differently at
-- each tick of the session; the provider's answer says whether it was reached at all.
pub record Ports : Type 0 where
  pub provider : ℕ → ProviderRequest → Bool × ProviderReply
  pub limiter : ℕ → Channel → Answer
  pub has_dlq : Bool

-- The start of `Run`: a consumer group for each stream, up to the first error.
unfoldable pub ensure_groups : (String → Option String) → List String → Result (Unit {0})
ensure_groups answer [] = ok tt
ensure_groups answer (s ∷ rest) =
    let others = ensure_groups answer rest in
    elim (ensure_group s (answer s)) [ ok _ ↦ others | err e ↦ err e ]
