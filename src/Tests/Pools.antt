-- ===== src/Tests/Pools.antt =====
-- The theorems on the goroutines of the worker, at a run with one of them.
use notification_system.Prelude.{◌<◌, Bool, true, [], ◌∷◌, count, ◌≡◌, refl, ◌⊎◌, arith}
use notification_system.Domain.Models.{StreamMessage}
use notification_system.Tests.Samples.{entry, sender}
use notification_system.Worker.{with_defaults}
use notification_system.Worker.Pool.{ReadLoop, Pool, opened, PoolStep, PoolRun, IsOver}
use notification_system.Worker.Pool.Closing.{work_left, closing-less, closing_goes_on}
use notification_system.Worker.Pool.Drained.{PoolRun-drained}

abbrev fed_one : Pool
fed_one = record (opened 1) { loop = ReadLoop.feeding []; jobs = entry ∷ []; fed = entry ∷ [] }

-- The loop reads one message and hands it over.
fed_one-run : PoolRun 1 fed_one
fed_one-run =
    PoolRun.next
      (PoolRun.next (PoolRun.next PoolRun.start (PoolStep.read refl refl))
        (PoolStep.reply refl (entry ∷ [])))
      (PoolStep.feed refl (omega arith))

abbrev shut_pool : Pool
shut_pool = record fed_one { cancelled = true; loop = ReadLoop.returned; closed = true }

-- Then the context is cancelled and the channel closed, before the goroutine has taken the message.
shut_pool-run : PoolRun 1 shut_pool
shut_pool-run =
    PoolRun.next
      (PoolRun.next
        (PoolRun.next (PoolRun.next fed_one-run (PoolStep.fed_all refl))
          (PoolStep.cancel_context refl))
        (PoolStep.stop refl refl))
      (PoolStep.close refl refl)

abbrev taken_pool : Pool
taken_pool = record shut_pool { jobs = []; idle = 0; busy = entry ∷ [] }

taken : PoolStep 1 shut_pool taken_pool
taken = PoolStep.take_job {others = 0} refl refl

abbrev over_pool : Pool
over_pool = record shut_pool { jobs = []; idle = 0; ended = 1; processed = entry ∷ [] }

over_pool-run : PoolRun 1 over_pool
over_pool-run =
    PoolRun.next
      (PoolRun.next (PoolRun.next shut_pool-run taken) (PoolStep.finish entry [] [] refl))
      (PoolStep.leave {others = 0} refl refl refl)

PoolRun-drained_example :
    (over_pool.jobs ≡ [])
    × (over_pool.busy ≡ [])
    × ((q : StreamMessage → Bool) → count q over_pool.processed ≡ count q over_pool.fed)
unfolding with_defaults
PoolRun-drained_example = PoolRun-drained sender.config over_pool-run (refl, refl)

closing-less_example : (taken_pool.closed ≡ true) × (work_left taken_pool < work_left shut_pool)
closing-less_example = closing-less shut_pool-run refl taken

closing_goes_on_example : IsOver 1 shut_pool ⊎ ((q : Pool) × PoolStep 1 shut_pool q)
unfolding with_defaults
closing_goes_on_example = closing_goes_on sender.config shut_pool-run refl
