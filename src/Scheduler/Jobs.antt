-- ===== src/Scheduler/Jobs.antt =====
-- jobs.go. Every loop runs on fuel, and `false` means that it ran out.
use notification_system.Prelude.{
  ℕ, String, zero, suc, ◌-◌, ◌*◌, ℤ, pos, pos_part, Bool, true, false, List, [], ◌∷◌, ltb, leb_ℤ,
  length, if◌then◌else◌,
}
use notification_system.Domain.Errors.{Result, ok, err}
use notification_system.Domain.Models.{Uuid, OutboxEntry}
use notification_system.Domain.Enums.{all_priorities, all_channels}
use notification_system.Worker.{all_streams}
use notification_system.Effects.{
  Event, add_promoted, add_reclaimed, add_reconciled, set_outbox_unpublished, set_scheduler_lag,
  set_queue_depth, set_queue_pending,
}
use notification_system.Queue.{StreamSizes, publish, depth, pending}
use notification_system.Store.Due.{
  promote_due, sweep_retries, reap_stuck, reconcile_pending, oldest_due_lag, purge_published_outbox,
}
use notification_system.Store.Outbox.{
  fetch_unpublished_outbox, mark_outbox_published, count_unpublished_outbox,
}
use notification_system.Store.Session.{Action, pure, ◌>>=◌, ◌>>◌, emit, attempt, clock_now, each}

pub record SchedulerConfig : Type 0 where
  pub outbox_batch_size : ℕ
  pub promote_batch : ℕ
  pub reconcile_after : ℕ
  pub retention_days : ℤ
  pub pre_create_days : ℤ
  pub outbox_retention : ℤ

-- The defaults of `New`.
unfoldable pub with_defaults : SchedulerConfig → SchedulerConfig
with_defaults c = record c {
  retention_days = if leb_ℤ c.retention_days (pos 0) then pos 30 else c.retention_days;
  pre_create_days = if leb_ℤ c.pre_create_days (pos 0) then pos 3 else c.pre_create_days;
  outbox_retention =
      if leb_ℤ c.outbox_retention (pos 0) then pos (24 * 3600 * 1000000000) else c.outbox_retention;
}

-- A published entry joins the list; one that could not be published is left for later.
abbrev pub note_published : OutboxEntry → Result (Unit {0}) → List Uuid → List Uuid
note_published e (ok _) ids = e.id ∷ ids
note_published e (err _) ids = ids

-- The inner loop of `relayOutbox`: the ids of the entries that were published.
unfoldable pub publish_entries : List OutboxEntry → Action (List Uuid)
publish_entries [] = pure []
publish_entries (e ∷ es) = do
  r ← attempt (publish e.stream e.message)
  rest ← publish_entries es
  pure (note_published e r rest)

-- One round of `relayOutbox`, and whether another follows.
abbrev continue_relay : ℕ → List OutboxEntry → Result (Unit {0}) → Action Bool
continue_relay batch entries (err e) = pure false
continue_relay batch entries (ok _) = pure (if ltb (length entries) batch then false else true)

unfoldable pub relay_entries : ℕ → List OutboxEntry → Action Bool
relay_entries batch [] = pure false
relay_entries batch (e ∷ es) = do
  ids ← publish_entries (e ∷ es)
  marked ← attempt (mark_outbox_published ids)
  continue_relay batch (e ∷ es) marked

abbrev pub on_fetched : ℕ → Result (List OutboxEntry) → Action Bool
on_fetched batch (err e) = pure false
on_fetched batch (ok entries) = relay_entries batch entries

unfoldable pub relay_round : ℕ → Action Bool
relay_round batch = attempt (fetch_unpublished_outbox batch) >>= on_fetched batch

-- A loop whose body says whether to go on.
unfoldable pub repeat : ℕ → Action Bool → Action Bool
repeat zero body s = (ok false, s)
repeat (suc fuel) body s =
    let (r, t) = body s in
    elim r [
      | err e ↦ (err e, t)
      | ok again ↦ elim again [ true ↦ repeat fuel body t | false ↦ (ok true, t) ]
    ]

-- `relayOutbox`
unfoldable pub relay_outbox : ℕ → SchedulerConfig → Action Bool
relay_outbox fuel c = repeat fuel (relay_round c.outbox_batch_size)

-- What a drain loop does with the number of rows moved.
abbrev drained : ℕ → (ℕ → Event) → Bool → Result ℕ → Action Bool
drained batch counter counts (err e) = pure false
drained batch counter counts (ok n) = do
  if ltb 0 n then (if counts then emit (counter n) else pure tt) else pure tt
  pure (if ltb n batch then false else true)

unfoldable pub promote_round : ℕ → Action Bool
promote_round batch = attempt (promote_due batch) >>= drained batch add_promoted true

-- `promoteDue`
unfoldable pub promote_due_job : ℕ → SchedulerConfig → Action Bool
promote_due_job fuel c = repeat fuel (promote_round c.promote_batch)

unfoldable pub sweep_round : ℕ → Action Bool
sweep_round batch = attempt (sweep_retries batch) >>= drained batch add_promoted false

-- `sweepRetries`
unfoldable pub sweep_retries_job : ℕ → SchedulerConfig → Action Bool
sweep_retries_job fuel c = repeat fuel (sweep_round c.promote_batch)

abbrev count_rows : (ℕ → Event) → Result ℕ → Action (Unit {0})
count_rows counter (err e) = pure tt
count_rows counter (ok n) = if ltb 0 n then emit (counter n) else pure tt

-- `reapStuck`
unfoldable pub reap_stuck_job : Action (Unit {0})
reap_stuck_job = attempt reap_stuck >>= count_rows add_reclaimed

-- `reconcile`
unfoldable pub reconcile_job : SchedulerConfig → Action (Unit {0})
reconcile_job c =
    attempt (reconcile_pending c.reconcile_after c.promote_batch) >>= count_rows add_reconciled

abbrev set_gauge : (ℕ → Event) → Result ℕ → Action (Unit {0})
set_gauge gauge (err e) = pure tt
set_gauge gauge (ok n) = emit (gauge n)

-- `allStreams`
abbrev pub scraped_streams : List String
scraped_streams = all_streams all_priorities all_channels

-- The gauges of one stream.
unfoldable pub refresh_stream : StreamSizes → String → Action (Unit {0})
refresh_stream sizes stream = do
  entries ← attempt (depth sizes stream)
  set_gauge (set_queue_depth stream) entries
  waiting ← attempt (pending sizes stream)
  set_gauge (set_queue_pending stream) waiting

-- `refreshMetrics`: a gauge whose query fails keeps its value.
unfoldable pub refresh_metrics : StreamSizes → Action (Unit {0})
refresh_metrics sizes = do
  backlog ← attempt count_unpublished_outbox
  set_gauge set_outbox_unpublished backlog
  lag ← attempt oldest_due_lag
  set_gauge set_scheduler_lag lag
  each (refresh_stream sizes) scraped_streams

abbrev forget_count : Result ℕ → Action (Unit {0})
forget_count r = pure tt

-- The end of `maintainPartitions`: published rows past their retention are purged.
unfoldable pub purge_outbox : SchedulerConfig → Action (Unit {0})
purge_outbox c = do
  now ← clock_now
  purged ← attempt (purge_published_outbox (now - pos_part c.outbox_retention))
  forget_count purged
