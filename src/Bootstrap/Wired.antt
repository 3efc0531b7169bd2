-- ===== src/Bootstrap/Wired.antt =====
-- The worker under the configuration of its process: the wait for the rate limiter and the lease.
use notification_system.Prelude.{
  ℕ, ◌+◌, ◌*◌, ◌≤◌, ◌<◌, pos, pos_part, Option, ◌≡◌, subst, sym, Bool, none, some, arith,
}
use notification_system.Bootstrap.Defs.{worker_config}
use notification_system.Domain.Models.{Time}
use notification_system.Platform.{Config}
use notification_system.Retry.{Floats}
use notification_system.Worker.{Worker, with_defaults, wait_for_rate_limit}
use notification_system.Worker.Waiting.{
  Decided, wait_for_rate_limit-Decided, with_defaults-positive,
}
use notification_system.Domain.Enums.{Channel}
use notification_system.Domain.Errors.{Result, ok, err}
use notification_system.Store.Session.{Session}

-- The wait has been decided, and a call that takes as long as given still ends before the instant.
abbrev pub LeavesTime : ℕ → Time → Result (Option Bool) × Session → Type 0
LeavesTime call limit (ok (some b), t) = t.now + call < limit
LeavesTime call limit _ = ⊥

Decided-LeavesTime :
    (fl : Floats) (w : Worker fl) (deadline : Time) (call : ℕ) (limit : Time)
    (x : Result (Option Bool) × Session)
    → deadline + pos_part w.config.rate_wait_step + call < limit
    → Decided fl w deadline x
    → LeavesTime call limit x
Decided-LeavesTime fl w deadline call limit (ok (some b), t) room h = omega (arith, room, h)
Decided-LeavesTime fl w deadline call limit (ok none, t) room h = absurd h
Decided-LeavesTime fl w deadline call limit (err e, t) room h = absurd h

-- The longest wait that the worker is configured with is half of its lease.
wait_is_half :
    {Float : Type 0} (c : Config Float) (lease : ℕ)
    → c.worker.lease_ttl ≡ pos lease
    → 2 ≤ lease
    → 2 * pos_part (with_defaults (worker_config c)).rate_wait_max ≤ lease
unfolding worker_config with_defaults
wait_is_half c lease e two = ground arith

-- A worker that runs with the configuration of its process, and whose lease is longer than twice the
-- provider's timeout and the step of its waits together, still has its lease when a call of the
-- provider that it makes after the wait for the rate limiter times out: whatever the limiter answers,
-- the wait ends, and early enough. The lease counts from the start of the wait; only the pauses of
-- the wait take time.
pub worker_config-lease :
    (fl : Floats) (c : Config fl.Float) (w : Worker fl) (lease timeout : ℕ) (channel : Channel)
    (s : Session)
    → w.config ≡ with_defaults (worker_config c)
    → c.worker.lease_ttl ≡ pos lease
    → 2 * (timeout + pos_part w.config.rate_wait_step) < lease
    → LeavesTime timeout (s.now + lease) (wait_for_rate_limit fl w channel s)
worker_config-lease fl c w lease timeout channel s runs e room =
    let step : 1 ≤ pos_part w.config.rate_wait_step =
      subst (λ k. 1 ≤ pos_part k.rate_wait_step) (sym runs)
        (with_defaults-positive fl (worker_config c)) in
    let half : 2 * pos_part w.config.rate_wait_max ≤ lease =
      subst (λ k. 2 * pos_part k.rate_wait_max ≤ lease) (sym runs)
        (wait_is_half c lease e (omega (arith, room, step))) in
    Decided-LeavesTime fl w (s.now + pos_part w.config.rate_wait_max) timeout (s.now + lease) _
      (omega (arith, room, half)) (wait_for_rate_limit-Decided fl w channel s step)
