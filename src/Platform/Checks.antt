-- ===== src/Platform/Checks.antt =====
-- internal/platform/config/config.go: the checks on a configuration, and the choice of the replica.
use notification_system.Prelude.{
  String, pos, true, false, not, ◌&&◌, ◌≡◌, ◌≤◌, ◌⊎◌, ◌↔◌, arith, Option, none, some, ltb_ℤ, leb_ℤ,
  length, ◌==◌, same_text, if◌then◌else◌,
}
use notification_system.Platform.Settings.{Config, PostgresConfig}

-- The variable that is wrong.
pub data Complaint : Type 0 where
  worker_priorities worker_lease_ttl max_attempts retry_backoff rate_limiter : Complaint

-- `Config.validate`
unfoldable pub validate : {Float : Type 0} → Config Float → Option Complaint
validate c =
    if length c.worker.priorities == 0
    then some worker_priorities
    else if leb_ℤ c.worker.lease_ttl c.provider.timeout
    then some worker_lease_ttl
    else if ltb_ℤ c.retry.max_attempts (pos 1)
    then some max_attempts
    else if length c.retry.backoff == 0
    then some retry_backoff
    else if not (same_text c.rate_limiter.kind "redis")
        && not (same_text c.rate_limiter.kind "inproc")
    then some rate_limiter
    else none

-- `ReplicaOrPrimary`
unfoldable pub replica_or_primary : PostgresConfig → String
replica_or_primary c = if same_text c.replica_dsn "" then c.dsn else c.replica_dsn

-- A configuration passes exactly if it has a priority and a backoff, its lease is longer than the
-- provider's timeout, it allows an attempt, and its rate limiter is one of the two.
pub validate_passes :
    {Float : Type 0} (c : Config Float)
    → (validate c ≡ none) ↔ (
        (1 ≤ length c.worker.priorities)
        × (leb_ℤ c.worker.lease_ttl c.provider.timeout ≡ false)
        × (leb_ℤ (pos 1) c.retry.max_attempts ≡ true)
        × (1 ≤ length c.retry.backoff)
        × ((same_text c.rate_limiter.kind "redis" ≡ true)
            ⊎ (same_text c.rate_limiter.kind "inproc" ≡ true)))
unfolding validate
validate_passes c = ground arith
