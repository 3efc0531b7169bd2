-- ===== src/Store/Due.antt =====
-- scheduler.go of the postgres adapter: the rows that are due, and their way back to the queue.
use notification_system.Prelude.{
  ℕ, ◌-◌, Bool, true, false, not, ◌&&◌, List, [], ◌∷◌, Option, none, some, ◌==◌, any, select,
  update, take, count, if◌then◌else◌, length, ltb, map,
}
use mathlib.Core.List.{head?}
use notification_system.Domain.Enums.{Channel, Priority, DeliveryStatus, stream}
use notification_system.Domain.Errors.{other}
use notification_system.Domain.Models.{Uuid, Time, Delivery}
use notification_system.Store.Session.{
  OutboxRow, Db, Action, pure, or_fail, ◌>>=◌, ◌>>◌, statement, query, with_tx, each, new_uuid,
}
use notification_system.Store.Outbox.{insert_outbox, is_unpublished}
use notification_system.Store.Tables.{has_key, is_due, order_by}

-- `dueRow`
pub record DueRow : Type 0 where
  pub id : Uuid
  pub created_at : Time
  pub request_id : Uuid
  pub channel : Channel
  pub priority : Priority

abbrev pub due_row : Delivery → DueRow
due_row d = record {
  id = d.id;
  created_at = d.created_at;
  request_id = d.request_id;
  channel = d.channel;
  priority = d.priority;
}

-- `enqueueDueTx`
unfoldable pub enqueue_due : DueRow → Action (Unit {0})
enqueue_due d = do
  outbox_id ← new_uuid
  insert_outbox (record {
    id = outbox_id;
    delivery_id = d.id;
    delivery_created_at = d.created_at;
    stream = stream d.priority d.channel;
    message = record {
      delivery_id = d.id;
      delivery_created_at = d.created_at;
      request_id = d.request_id;
      channel = d.channel;
      priority = d.priority;
      correlation_id = "";
    };
  })

abbrev pub in_rows : List Delivery → Delivery → Bool
in_rows due d = any (λ e. has_key e.id e.created_at d) due

abbrev pub as_pending : Time → Delivery → Delivery
as_pending now d = record d { status = DeliveryStatus.pending; updated_at = now }

-- `transitionAndEnqueue`; the query is given by the rows that its CTE picks.
unfoldable pub transition_and_enqueue : (Time → ℕ → List Delivery → List Delivery) → ℕ → Action ℕ
transition_and_enqueue pick limit = with_tx (do
  due ←
      statement "transition query" (λ s. map due_row (pick s.now limit s.db.deliveries))
        (λ s. record s.db {
          deliveries =
              update (in_rows (pick s.now limit s.db.deliveries)) (as_pending s.now)
                s.db.deliveries;
        })
  each enqueue_due due
  pure (length due))

-- An optional instant that is set and before another.
abbrev pub expired : Option Time → Time → Bool
expired none now = false
expired (some t) now = ltb t now

abbrev instant : Option Time → ℕ
instant none = 0
instant (some t) = t

abbrev is_scheduled : DeliveryStatus → Bool
is_scheduled DeliveryStatus.scheduled = true
is_scheduled _ = false

abbrev is_retrying : DeliveryStatus → Bool
is_retrying DeliveryStatus.retrying = true
is_retrying _ = false

abbrev is_pending : DeliveryStatus → Bool
is_pending DeliveryStatus.pending = true
is_pending _ = false

abbrev is_processing : DeliveryStatus → Bool
is_processing DeliveryStatus.processing = true
is_processing _ = false

-- `status='SCHEDULED' AND send_at <= now()`
abbrev pub due_scheduled : Time → Delivery → Bool
due_scheduled now d = is_scheduled d.status && is_due d.send_at now

abbrev pub pick_scheduled : Time → ℕ → List Delivery → List Delivery
pick_scheduled now limit ds =
    take limit (order_by (λ d. instant d.send_at) (select (due_scheduled now) ds))

-- `PromoteDue`
unfoldable pub promote_due : ℕ → Action ℕ
promote_due = transition_and_enqueue pick_scheduled

-- `status='RETRYING' AND next_retry_at <= now()`
abbrev pub due_retry : Time → Delivery → Bool
due_retry now d = is_retrying d.status && is_due d.next_retry_at now

abbrev pub pick_retries : Time → ℕ → List Delivery → List Delivery
pick_retries now limit ds =
    take limit (order_by (λ d. instant d.next_retry_at) (select (due_retry now) ds))

-- `SweepRetries`
unfoldable pub sweep_retries : ℕ → Action ℕ
sweep_retries = transition_and_enqueue pick_retries

-- An unpublished outbox row for the delivery.
abbrev pub awaits_relay : Delivery → OutboxRow → Bool
awaits_relay d o = o.delivery_id == d.id && is_unpublished o

abbrev pub is_orphan : Time → List OutboxRow → Delivery → Bool
is_orphan cutoff outbox d =
    is_pending d.status && ltb d.updated_at cutoff && not (any (awaits_relay d) outbox)

-- The orphans, those that have waited longest first.
abbrev pub waiting : Time → Db → List Delivery
waiting cutoff db = order_by (λ d. d.updated_at) (select (is_orphan cutoff db.outbox) db.deliveries)

abbrev pub orphans : Time → ℕ → Db → List Delivery
orphans cutoff limit db = take limit (waiting cutoff db)

-- `ReconcilePending`; `older_than` is a duration that is not negative.
unfoldable pub reconcile_pending : ℕ → ℕ → Action ℕ
reconcile_pending older_than limit = with_tx (do
  due ← query "reconcile query" (λ s. map due_row (orphans (s.now - older_than) limit s.db))
  each enqueue_due due
  pure (length due))

-- `status='PROCESSING' AND locked_until < now()`
abbrev pub lease_expired : Time → Delivery → Bool
lease_expired now d = is_processing d.status && expired d.locked_until now

abbrev pub reaped : Time → Delivery → Delivery
reaped now d = record d {
  status = DeliveryStatus.retrying;
  next_retry_at = some now;
  locked_until = none;
  updated_at = now;
}

-- `ReapStuck`
unfoldable pub reap_stuck : Action ℕ
reap_stuck =
    statement "reap stuck" (λ s. count (lease_expired s.now) s.db.deliveries)
      (λ s. record s.db {
        deliveries = update (lease_expired s.now) (reaped s.now) s.db.deliveries;
      })

-- The instants since which deliveries wait to be promoted or swept.
abbrev pub due_instants : Time → List Delivery → List Time
due_instants now [] = []
due_instants now (d ∷ ds) =
    let rest = due_instants now ds in
    if due_scheduled now d
    then instant d.send_at ∷ rest
    else if due_retry now d
    then instant d.next_retry_at ∷ rest
    else rest

abbrev pub earliest : Time → List Time → Time
earliest t [] = t
earliest t (u ∷ us) = earliest (if ltb u t then u else t) us

-- The rows of the lag query: `WHERE sub.oldest IS NOT NULL` leaves no row when nothing is due.
abbrev pub lag_rows : Time → List Time → List ℕ
lag_rows now [] = []
lag_rows now (t ∷ ts) = (now - earliest t ts) ∷ []

-- `OldestDueLagSeconds`, in the unit of time. `Scan` fails on a query without a row.
unfoldable pub oldest_due_lag : Action ℕ
oldest_due_lag = do
  rows ← query "oldest due lag" (λ s. lag_rows s.now (due_instants s.now s.db.deliveries))
  or_fail (head? rows) (other "oldest due lag")

-- `PurgePublishedOutbox`, with `purge_published_outbox` of the migrations.
abbrev pub purgeable : Time → OutboxRow → Bool
purgeable before o = expired o.published_at before

unfoldable pub purge_published_outbox : Time → Action ℕ
purge_published_outbox before =
    statement "purge outbox" (λ s. count (purgeable before) s.db.outbox)
      (λ s. record s.db { outbox = select (λ o. not (purgeable before o)) s.db.outbox })
