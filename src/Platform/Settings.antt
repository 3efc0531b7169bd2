-- ===== src/Platform/Settings.antt =====
-- internal/platform/config/config.go: the configuration. A duration is a number of nanoseconds, and
-- `float64` is a parameter.
use notification_system.Prelude.{ℕ, ℤ, String, Bool, List}
use notification_system.Domain.Enums.{Priority}

pub record PostgresConfig : Type 0 where
  pub dsn : String
  pub replica_dsn : String
  pub max_conns : ℤ

pub record RedisConfig : Type 0 where
  pub addr : String
  pub password : String
  pub db : ℤ

pub record RateLimiterConfig : Type 0 where
  pub kind : String
  pub per_second : ℤ
  pub burst : ℤ
  pub fail_open : Bool
  pub wait_interval : ℤ

pub record BreakerConfig (Float : Type 0) : Type 0 where
  pub failure_rate_threshold : Float
  pub min_requests : ℕ
  pub window : ℤ
  pub open_timeout : ℤ
  pub half_open_max : ℕ

pub record RetryConfig (Float : Type 0) : Type 0 where
  pub max_attempts : ℤ
  pub backoff : List ℤ
  pub jitter_ratio : Float

pub record ProviderConfig : Type 0 where
  pub webhook_url : String
  pub timeout : ℤ

pub record WorkerConfig : Type 0 where
  pub priorities : List Priority
  pub concurrency : ℤ
  pub group_name : String
  pub consumer : String
  pub batch_size : ℤ
  pub lease_ttl : ℤ
  pub block_time : ℤ

pub record SchedulerConfig : Type 0 where
  pub poll_interval : ℤ
  pub outbox_interval : ℤ
  pub outbox_batch_size : ℤ
  pub promote_batch : ℤ
  pub reaper_interval : ℤ
  pub reconcile_after : ℤ

pub record AuthConfig : Type 0 where
  pub jwt_secret : String

pub record TracingConfig : Type 0 where
  pub enabled : Bool
  pub endpoint : String
  pub service_name : String

pub record Config (Float : Type 0) : Type 0 where
  pub log_level : String
  pub http_addr : String
  pub shutdown_timeout : ℤ
  pub postgres : PostgresConfig
  pub redis : RedisConfig
  pub rate_limiter : RateLimiterConfig
  pub breaker : BreakerConfig Float
  pub retry : RetryConfig Float
  pub provider : ProviderConfig
  pub worker : WorkerConfig
  pub scheduler : SchedulerConfig
  pub auth : AuthConfig
  pub tracing : TracingConfig
