-- ===== src/Worker/Waiting.antt =====
-- `waitForRateLimit`, of worker/process.go: how long it takes.
use notification_system.Prelude.{ℕ, suc, ◌+◌, ◌≤◌, ◌<◌, Bool, Option, some, arith, pos_part}
use notification_system.Domain.Enums.{Channel}
use notification_system.Domain.Errors.{Result, ok}
use notification_system.Domain.Models.{Time}
use notification_system.Retry.{Floats}
use notification_system.Store.Session.{Session}
use notification_system.Worker.Defs.{Config, Answer, with_defaults}
use notification_system.Worker.Process.{Worker, pause, rate_wait, enough, wait_for_rate_limit}

module _ (fl : Floats) where
  pause-positive :
      (w : Worker fl) (a : Answer)
      → 1 ≤ pos_part w.config.rate_wait_step
      → (1 ≤ pause fl w a) × (pause fl w a ≤ pos_part w.config.rate_wait_step)
  unfolding pause
  pause-positive w a h = ground arith

  -- What the wait decides, and when.
  abbrev pub Decided : Worker fl → Time → Result (Option Bool) × Session → Type 0
  Decided w deadline (ok (some b), t) = t.now ≤ deadline + pos_part w.config.rate_wait_step
  Decided w deadline _ = ⊥

  rate_wait_decides :
      (fuel : ℕ) (w : Worker fl) (channel : Channel) (deadline : Time) (s : Session)
      → 1 ≤ pos_part w.config.rate_wait_step
      → s.now ≤ deadline + pos_part w.config.rate_wait_step
      → deadline + 1 < fuel + s.now
      → 0 < fuel
      → Decided w deadline (rate_wait fl fuel w channel deadline s)
  unfolding rate_wait
  rate_wait_decides ℕ.zero w channel deadline s h early fuelled positive = absurd (omega arith)
  rate_wait_decides (suc fuel) w channel deadline s h early fuelled positive =
      let answer = w.ports.limiter s.tick channel in
      let next : Session = record s { tick = s.tick + 1; now = s.now + pause fl w answer } in
      ground (arith, pause-positive w answer h, rate_wait_decides fuel w channel deadline next h)

  -- A worker whose rate-limit step is positive never waits for ever: it learns whether it may send,
  -- at most one step after the longest wait that its configuration allows, whatever the limiter
  -- answers.
  pub wait_for_rate_limit-Decided :
      (w : Worker fl) (channel : Channel) (s : Session)
      → 1 ≤ pos_part w.config.rate_wait_step
      → Decided w (s.now + pos_part w.config.rate_wait_max) (wait_for_rate_limit fl w channel s)
  unfolding wait_for_rate_limit
  wait_for_rate_limit-Decided w channel s h =
      rate_wait_decides (enough fl w) w channel (s.now + pos_part w.config.rate_wait_max) s h
        (omega arith) (omega arith) (omega arith)

  -- The configuration that a worker runs with has such a step.
  pub with_defaults-positive : (c : Config) → 1 ≤ pos_part (with_defaults c).rate_wait_step
  unfolding with_defaults
  with_defaults-positive c = ground arith
