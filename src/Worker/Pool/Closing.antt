-- ===== src/Worker/Pool/Closing.antt =====
-- The end of the worker: once the channel is closed, the goroutines drain it and leave.
use notification_system.Prelude.{
  ℕ, zero, suc, ◌+◌, ◌*◌, ◌<◌, true, List, [], ◌∷◌, length, length-append, ap, ◌≡◌, refl, ◌∙◌, ◌⊎◌,
  inl, inr, arith, if◌then◌else◌,
}
use notification_system.Domain.Models.{StreamMessage}
use notification_system.Worker.Defs.{Config}
use notification_system.Worker.Pool.Defs.{
  goroutines, goroutines-positive, returned, Pool, PoolStep, PoolRun, cancel_context, stop, read,
  reply, fail, fail_cancelled, resume, stop_paused, feed, stop_feeding, fed_all, close, take_job,
  finish, leave, IsOver,
}
use notification_system.Worker.Pool.Drained.{Sound, run-Sound}

-- How many steps are left at most: three for a message in the buffer, two for one in process, one for
-- a goroutine that waits and one for a cancellation.
abbrev pub work_left : Pool → ℕ
work_left p = 3 * length p.jobs + 2 * length p.busy + p.idle + (if p.cancelled then 0 else 1)

has_returned : {n : ℕ} {p : Pool} → p.closed ≡ true → Sound n p → p.loop ≡ returned
has_returned c h = elim h.shut [ inl o ↦ ground (arith, c, o) | inr r ↦ r ]

-- Every step of a worker that has closed its channel brings it nearer to its end, so there are no more
-- steps than `work_left` says.
pub closing-less :
    {n : ℕ} {p q : Pool}
    → PoolRun n p
    → p.closed ≡ true
    → PoolStep n p q
    → (q.closed ≡ true) × (work_left q < work_left p)
closing-less r c (cancel_context e) = (c, ground (arith, e))
closing-less r c (stop at _) = let z = has_returned c (run-Sound r) in ground (arith, z, at)
closing-less r c (read at _) = let z = has_returned c (run-Sound r) in ground (arith, z, at)
closing-less r c (reply at _) = let z = has_returned c (run-Sound r) in ground (arith, z, at)
closing-less r c (fail at _) = let z = has_returned c (run-Sound r) in ground (arith, z, at)
closing-less r c (fail_cancelled at _) =
    let z = has_returned c (run-Sound r) in ground (arith, z, at)
closing-less r c (resume at) = let z = has_returned c (run-Sound r) in ground (arith, z, at)
closing-less r c (stop_paused at _) = let z = has_returned c (run-Sound r) in ground (arith, z, at)
closing-less r c (feed at _) = let z = has_returned c (run-Sound r) in ground (arith, z, at)
closing-less r c (stop_feeding at _) = let z = has_returned c (run-Sound r) in ground (arith, z, at)
closing-less r c (fed_all at) = let z = has_returned c (run-Sound r) in ground (arith, z, at)
closing-less r c (close _ o) = ground (arith, c, o)
closing-less {p} r c (take_job e i) = (c, omega (arith, ap length e, i))
closing-less {p} r c (finish m before after e) =
    (c, omega (arith, ap length e, length-append before (m ∷ after), length-append before after))
closing-less r c (leave _ _ i) = (c, omega (arith, i))

-- A step of the goroutines of a pool whose channel is closed.
go_on :
    (n : ℕ) (p : Pool) (jobs busy : List StreamMessage) (idle : ℕ)
    → p.jobs ≡ jobs
    → p.busy ≡ busy
    → p.idle ≡ idle
    → p.closed ≡ true
    → 0 < n
    → Sound n p
    → IsOver n p ⊎ ((q : Pool) × PoolStep n p q)
go_on n p jobs (m ∷ rest) idle j b i c lt h = inr (_, finish m [] rest b)
go_on n p (m ∷ rest) [] (suc idle) j b i c lt h =
    inr (_, take_job {others = idle} j (i ∙ omega arith))
go_on n p [] [] (suc idle) j b i c lt h = inr (_, leave {others = idle} c j (i ∙ omega arith))
go_on n p [] [] zero j b i c lt h = inl (c, omega (arith, h.hands, i, ap length b))
go_on n p (m ∷ rest) [] zero j b i c lt h = elim h.left [
  | inl z ↦ inl (c, omega (arith, h.hands, i, ap length b, z, lt))
  | inr x ↦ inl (c, ground (arith, j, x.0))
]

-- A worker that has closed its channel can go on until all of its goroutines have left.
pub closing_goes_on :
    (c : Config) {p : Pool}
    → PoolRun (goroutines c) p
    → p.closed ≡ true
    → IsOver (goroutines c) p ⊎ ((q : Pool) × PoolStep (goroutines c) p q)
closing_goes_on c {p} r shut =
    go_on (goroutines c) p p.jobs p.busy p.idle refl refl refl shut (goroutines-positive c)
      (run-Sound r)
