-- ===== src/Tests/Running.antt =====
-- The theorems on the configuration and the rate limiters, at sample inputs.
use Prim.Native.Nat.{◌-◌}
use notification_system.Prelude.{
  ℕ, ◌+◌, ◌≡◌, refl, arith, pos, pos_part, none, some, [], ◌∷◌, same_text, if◌then◌else◌, ltb,
}
use notification_system.Bootstrap.{worker_config}
use notification_system.Bootstrap.Wired.{LeavesTime, worker_config-lease}
use notification_system.Tests.Samples.{whole_numbers, sender, shop}
use notification_system.Worker.{Worker, wait_for_rate_limit}
use notification_system.Platform.{
  Environment, Config, from_environment, load, set_value, get_duration, parsed,
}
use notification_system.Platform.Loaded.{LoadedOrRefused, load-LoadedOrRefused}
use notification_system.RateLimit.{TokenBuckets, InProcess, allow, limiter_for}
use notification_system.RateLimit.Laws.{Called, kept, limiter_for-allow}
use notification_system.Worker.{with_defaults}

-- An environment in which only the number of attempts is set.
abbrev two_tries : Environment ℕ
two_tries = record {
  lookup_env = λ name. if same_text name "MAX_ATTEMPTS" then some "2" else none;
  hostname = none;
  to_lower = λ s. s;
  parse_float = λ s. none;
  parse_bool = λ s. none;
  parse_duration = λ s. none;
  half = 0;
  one_fifth = 0;
}

load-LoadedOrRefused_example : LoadedOrRefused (load two_tries)
load-LoadedOrRefused_example = load-LoadedOrRefused two_tries

abbrev local_config : Config ℕ
unfolding from_environment
local_config = from_environment two_tries

abbrev local_worker : Worker whole_numbers
local_worker = record sender { config = with_defaults (worker_config local_config) }

worker_config-lease_example :
    LeavesTime 10000000000
      (shop.now + 120000000000)
      (wait_for_rate_limit whole_numbers local_worker "sms" shop)
unfolding local_config get_duration parsed set_value worker_config with_defaults
worker_config-lease_example =
    worker_config-lease whole_numbers local_config local_worker 120000000000 10000000000 "sms" shop
      refl refl (omega arith)

-- A bucket is the number of tokens that are left; without one, the wait is of five nanoseconds.
abbrev tokens : TokenBuckets
tokens = record {
  Bucket = ℕ;
  new_bucket = λ rate burst. pos_part burst;
  reserve = λ now b. (some (if ltb 0 b then pos 0 else pos 5), b - 1);
  give_back = λ now b. b;
}

abbrev one_left : InProcess tokens
one_left = record { per_second = pos 1; burst = pos 3; limiters = ("sms", 1) ∷ [] }

limiter_for-allow_example :
    let result = allow tokens 1000 one_left "sms" in
    (Called tokens (some (pos 0)) result.0
      × (limiter_for tokens result.1 "email" ≡ (
          if same_text "sms" "email"
          then kept tokens 1000 (some (pos 0)) 0
          else limiter_for tokens one_left "email")))
unfolding limiter_for
limiter_for-allow_example =
    limiter_for-allow tokens 1000 one_left "sms" "email" (some (pos 0)) 0 refl
