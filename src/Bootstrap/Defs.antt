-- ===== src/Bootstrap/Defs.antt =====
-- bootstrap.go, router.go's readiness, and the configurations that cmd/worker and cmd/scheduler pass
-- on. `json.Marshal` of the checks is a parameter.
use Prim.Native.Nat.{◌/◌}
use Prim.Native.String.{◌++◌ as ◌+++◌}
use notification_system.Prelude.{
  ℕ, ◌+◌, ℤ, pos, negsuc, pos_part, String, Bool, true, false, ◌&&◌, ◌==◌, ◌-◌, Option, none, some,
  List, [], ◌∷◌, same_text, if◌then◌else◌,
}
use notification_system.Domain.Enums.{all_channels}
use notification_system.Platform.{Config, Environment, get_string, replica_or_primary}
use notification_system.Retry.{Floats, Policy}
use notification_system.Worker.{Config as WorkerSettings}

-- `postgres.Config`
pub record StoreConfig : Type 0 where
  pub primary_dsn : String
  pub reader_dsn : String
  pub max_conns : ℤ

-- `Postgres`: what the store is opened with.
unfoldable pub store_config : {Float : Type 0} → Config Float → StoreConfig
store_config c = record {
  primary_dsn = c.postgres.dsn;
  reader_dsn = replica_or_primary c.postgres;
  max_conns = c.postgres.max_conns;
}

-- `postgres.New` opens a pool of its own for reading only if the reader is another database.
unfoldable pub has_replica : StoreConfig → Bool
has_replica c =
    if same_text c.reader_dsn ""
    then false
    else if same_text c.reader_dsn c.primary_dsn
    then false
    else true

pub data LimiterKind : Type 0 where
  in_process : ℤ → ℤ → LimiterKind
  redis : ℤ → ℤ → Bool → LimiterKind

-- `RateLimiter`
unfoldable pub rate_limiter : {Float : Type 0} → Config Float → LimiterKind
rate_limiter c =
    if same_text c.rate_limiter.kind "inproc"
    then in_process c.rate_limiter.per_second c.rate_limiter.burst
    else redis c.rate_limiter.per_second c.rate_limiter.burst c.rate_limiter.fail_open

-- `RetryPolicy`. An attempt's number is at least 1, so a bound below 0 is as good as 0.
unfoldable pub retry_policy : (fl : Floats) → Config fl.Float → Policy fl
retry_policy fl c = record {
  max_attempts = pos_part c.retry.max_attempts;
  backoff = c.retry.backoff;
  jitter_ratio = c.retry.jitter_ratio;
}

-- The states of gobreaker.
pub data BreakerState : Type 0 where
  closed half_open open_state : BreakerState

-- `circuitStateValue`
unfoldable pub circuit_state_value : BreakerState → ℕ
circuit_state_value half_open = 1
circuit_state_value open_state = 2
circuit_state_value closed = 0

-- The address of `MetricsServer`.
unfoldable pub metrics_addr : {Float : Type 0} → Environment Float → String
metrics_addr env = get_string env "METRICS_ADDR" ":9090"

-- Integer division in Go rounds towards zero.
abbrev pub halved : ℤ → ℤ
halved (pos n) = pos (n / 2)
halved (negsuc n) = if (n + 1) / 2 == 0 then pos 0 else negsuc ((n + 1) / 2 - 1)

-- The worker's configuration, in `run` of cmd/worker.
unfoldable pub worker_config : {Float : Type 0} → Config Float → WorkerSettings
worker_config c = record {
  priorities = c.worker.priorities;
  channels = all_channels;
  concurrency = c.worker.concurrency;
  consumer = c.worker.consumer;
  batch_size = c.worker.batch_size;
  lease_ttl = c.worker.lease_ttl;
  block_time = c.worker.block_time;
  rate_wait_max = halved c.worker.lease_ttl;
  rate_wait_step = c.rate_limiter.wait_interval;
}

-- A dependency's answer to a ping: an error's text, or nothing.
abbrev pub Check : Type 0
Check = String × Option String

abbrev pub reported : Option String → String
reported none = "ok"
reported (some e) = "down: " +++ e

abbrev pub is_up : Option String → Bool
is_up none = true
is_up (some e) = false

pub record Readiness : Type 0 where
  pub status : ℕ
  pub ready : Bool
  pub checks : List (String × String)

abbrev pub all_up : List Check → Bool
all_up [] = true
all_up (c ∷ cs) = is_up c.1 && all_up cs

abbrev pub reports : List Check → List (String × String)
reports [] = []
reports (c ∷ cs) = (c.0, reported c.1) ∷ reports cs

abbrev pub ready_status : Bool → ℕ
ready_status true = 200
ready_status false = 503

-- `handleReady` of bootstrap.go and of router.go, up to the way in which the body is written.
unfoldable pub handle_ready : List Check → Readiness
handle_ready checks = record {
  status = ready_status (all_up checks);
  ready = all_up checks;
  checks = reports checks;
}
