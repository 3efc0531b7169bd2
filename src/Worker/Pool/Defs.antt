-- ===== src/Worker/Pool/Defs.antt =====
-- worker.go: `Run` with its goroutines, the channel between them and the read loop, as a step relation.
-- What the queue replies, when the context is cancelled and which goroutine goes on is left open.
use notification_system.Prelude.{
  ℕ, zero, suc, ℤ, pos, negsuc, pos_part, leb_ℤ, if◌then◌else◌, ◌+◌, ◌<◌, Bool, true, false, List,
  [], ◌∷◌, ◌++◌, length, ◌≡◌, arith,
}
use notification_system.Domain.Models.{StreamMessage}
use notification_system.Worker.Defs.{Config, with_defaults}

-- Where the read loop stands: before its check of the context, in `Read`, in the pause after an
-- error, at the rest of a batch, or after its return.
pub data ReadLoop : Type 0 where
  at_top in_read paused returned : ReadLoop
  feeding : List StreamMessage → ReadLoop

-- `Run`: the context, the read loop, the buffer of the channel, and the goroutines that wait for a
-- message, process one, or have left. `fed` has what was ever sent on the channel, and `processed`
-- what `process` has returned for.
pub record Pool : Type 0 where
  pub cancelled : Bool
  pub loop : ReadLoop
  pub jobs : List StreamMessage
  pub closed : Bool
  pub idle : ℕ
  pub busy : List StreamMessage
  pub ended : ℕ
  pub fed : List StreamMessage
  pub processed : List StreamMessage

-- How many goroutines `Run` starts.
abbrev pub goroutines : Config → ℕ
goroutines c = pos_part (with_defaults c).concurrency

-- The start, with `n` goroutines.
abbrev pub opened : ℕ → Pool
opened n = record {
  cancelled = false;
  loop = at_top;
  jobs = [];
  closed = false;
  idle = n;
  busy = [];
  ended = 0;
  fed = [];
  processed = [];
}

-- A step of the read loop, of the rest of `Run`, or of a goroutine. The channel has room for as many
-- messages as there are goroutines; a goroutine leaves once it is closed and empty.
pub data PoolStep (n : ℕ) : Pool → Pool → Type 0 where
  cancel_context : {p : Pool} → p.cancelled ≡ false → PoolStep n p (record p { cancelled = true })
  stop :
      {p : Pool}
      → p.loop ≡ at_top
      → p.cancelled ≡ true
      → PoolStep n p (record p { loop = returned })
  read :
      {p : Pool}
      → p.loop ≡ at_top
      → p.cancelled ≡ false
      → PoolStep n p (record p { loop = in_read })
  reply :
      {p : Pool}
      → p.loop ≡ in_read
      → (batch : List StreamMessage) → PoolStep n p (record p { loop = feeding batch })
  fail :
      {p : Pool}
      → p.loop ≡ in_read
      → p.cancelled ≡ false
      → PoolStep n p (record p { loop = paused })
  fail_cancelled :
      {p : Pool}
      → p.loop ≡ in_read
      → p.cancelled ≡ true
      → PoolStep n p (record p { loop = returned })
  resume : {p : Pool} → p.loop ≡ paused → PoolStep n p (record p { loop = at_top })
  stop_paused :
      {p : Pool}
      → p.loop ≡ paused
      → p.cancelled ≡ true
      → PoolStep n p (record p { loop = returned })
  feed :
      {p : Pool} {m : StreamMessage} {rest : List StreamMessage}
      → p.loop ≡ feeding (m ∷ rest)
      → length p.jobs < n
      → PoolStep n p
          (record p { loop = feeding rest; jobs = p.jobs ++ m ∷ []; fed = p.fed ++ m ∷ [] })
  stop_feeding :
      {p : Pool} {m : StreamMessage} {rest : List StreamMessage}
      → p.loop ≡ feeding (m ∷ rest)
      → p.cancelled ≡ true
      → PoolStep n p (record p { loop = returned })
  fed_all : {p : Pool} → p.loop ≡ feeding [] → PoolStep n p (record p { loop = at_top })
  close :
      {p : Pool} → p.loop ≡ returned → p.closed ≡ false → PoolStep n p (record p { closed = true })
  take_job :
      {p : Pool} {m : StreamMessage} {rest : List StreamMessage} {others : ℕ}
      → p.jobs ≡ m ∷ rest
      → p.idle ≡ others + 1
      → PoolStep n p (record p { jobs = rest; idle = others; busy = m ∷ p.busy })
  finish :
      {p : Pool} (m : StreamMessage) (before after : List StreamMessage)
      → p.busy ≡ before ++ m ∷ after
      → PoolStep n p
          (record p { busy = before ++ after; idle = p.idle + 1; processed = m ∷ p.processed })
  leave :
      {p : Pool} {others : ℕ}
      → p.closed ≡ true
      → p.jobs ≡ []
      → p.idle ≡ others + 1
      → PoolStep n p (record p { idle = others; ended = p.ended + 1 })

pub data PoolRun (n : ℕ) : Pool → Type 0 where
  start : PoolRun n (opened n)
  next : {p q : Pool} → PoolRun n p → PoolStep n p q → PoolRun n q

-- `wg.Wait` lets `Run` return.
abbrev pub IsOver : ℕ → Pool → Type 0
IsOver n p = (p.closed ≡ true) × (p.ended ≡ n)

pub goroutines-positive : (c : Config) → 0 < goroutines c
unfolding with_defaults
goroutines-positive c = positive c.concurrency
  where
    positive : (n : ℤ) → 0 < pos_part (if leb_ℤ n (pos 0) then pos 1 else n)
    positive (pos zero) = ground arith
    positive (pos (suc n)) = ground arith
    positive (negsuc n) = ground arith
