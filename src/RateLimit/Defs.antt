-- ===== src/RateLimit/Defs.antt =====
-- ratelimit.go: `RedisRateLimiter` and `InProcessRateLimiter`.
use Prim.Native.String.{◌++◌ as ◌+++◌}
use notification_system.Prelude.{
  ℤ, pos, String, Bool, true, false, Option, none, some, List, [], ◌∷◌, same_text, ltb_ℤ,
  if◌then◌else◌,
}
use notification_system.Domain.Enums.{Channel}
use notification_system.Domain.Models.{Time}

-- What `Allow` returns; `problem` is the text of its error.
pub record Allowance : Type 0 where
  pub allowed : Bool
  pub retry_after : ℤ
  pub problem : Option String

-- The result of the library's script.
pub record GcraResult : Type 0 where
  pub allowed : ℤ
  pub retry_after : ℤ

pub data GcraReply : Type 0 where
  answered : GcraResult → GcraReply
  redis_error : String → GcraReply

-- `key`
unfoldable pub key : Channel → String
key c = "ratelimit:" +++ c

abbrev pub allow_now : Allowance
allow_now = record { allowed = true; retry_after = pos 0; problem = none }

-- `RedisRateLimiter.Allow`; the script is given by what it replies for a key.
unfoldable pub redis_allow : (String → GcraReply) → Bool → Channel → Allowance
unfolding key
redis_allow script fail_open c = elim (script (key c)) [
  | redis_error e ↦
      if fail_open
      then record {
        allowed = true;
        retry_after = pos 0;
        problem = some ("rate limiter (fail-open): " +++ e);
      }
      else record {
        allowed = false;
        retry_after = pos 0;
        problem = some ("rate limiter (fail-closed): " +++ e);
      }
  | answered r ↦
      if ltb_ℤ (pos 0) r.allowed
      then allow_now
      else record { allowed = false; retry_after = r.retry_after; problem = none }
]

-- `rate.Limiter`: a reservation is made, with its delay, or cannot be made; it may be cancelled.
pub record TokenBuckets : Type 1 where
  pub Bucket : Type 0
  pub new_bucket : ℤ → ℤ → Bucket
  pub reserve : Time → Bucket → Option ℤ × Bucket
  pub give_back : Time → Bucket → Bucket

module _ (tb : TokenBuckets) where
  open tb use {Bucket, new_bucket, reserve, give_back}

  pub record InProcess : Type 0 where
    pub per_second : ℤ
    pub burst : ℤ
    pub limiters : List (Channel × Bucket)

  abbrev pub bucket_for : Channel → Bucket → List (Channel × Bucket) → Bucket
  bucket_for c fresh [] = fresh
  bucket_for c fresh (entry ∷ more) =
      if same_text entry.0 c then entry.1 else bucket_for c fresh more

  abbrev pub set_bucket : Channel → Bucket → List (Channel × Bucket) → List (Channel × Bucket)
  set_bucket c b [] = (c, b) ∷ []
  set_bucket c b (entry ∷ more) =
      if same_text entry.0 c then (entry.0, b) ∷ more else entry ∷ set_bucket c b more

  -- `limiterFor`: the channel's bucket, or a new one.
  unfoldable pub limiter_for : InProcess → Channel → Bucket
  limiter_for r c = bucket_for c (new_bucket r.per_second r.burst) r.limiters

  -- The answer for a reservation, and the bucket that it leaves.
  unfoldable pub settle : Time → Option ℤ × Bucket → Allowance × Bucket
  settle now (none, b) =
      (record { allowed = false; retry_after = pos 1000000000; problem = none }, b)
  settle now (some delay, b) =
      if ltb_ℤ (pos 0) delay
      then (record { allowed = false; retry_after = delay; problem = none }, give_back now b)
      else (allow_now, b)

  -- `InProcessRateLimiter.Allow`
  unfoldable pub allow : Time → InProcess → Channel → Allowance × InProcess
  unfolding limiter_for settle
  allow now r c =
      let (answer, b) = settle now (reserve now (limiter_for r c)) in
      (answer, record r { limiters = set_bucket c b r.limiters })
