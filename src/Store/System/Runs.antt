-- ===== src/Store/System/Runs.antt =====
-- Any number of processes over one database: a run is a sequence of operations of the store, each of
-- them in a session of its own over the tables as they stand, at any time and with any faults.
use notification_system.Prelude.{
  ℕ, String, List, [], ◌∷◌, Option, none, All, ◌≡◌, sym, subst, arith,
}
use notification_system.Domain.Models.{
  Uuid, Time, Batch, Request, Delivery, OutboxRecord, BatchItem,
}
use notification_system.Store.Deliveries.{claim_delivery, mark_sent, mark_retrying, mark_failed}
use notification_system.Store.Due.{
  promote_due, sweep_retries, reap_stuck, reconcile_pending, purge_published_outbox,
}
use notification_system.Store.Outbox.{mark_outbox_published}
use notification_system.Store.Requests.{create_notification, create_batch, cancel_request}
use notification_system.Store.Session.{Db, Session, statement}
use notification_system.Store.System.Defs.{Inv}
use notification_system.Store.System.Added.{New, Inv-Base, Base-Inv}
use notification_system.Store.System.Batched.{NewIn, create_batch-Inv}
use notification_system.Store.System.Created.{create_notification-Inv}
use notification_system.Store.System.Steps.{
  RowOf, OpenRowOf, claim_delivery-Inv, reap_stuck-Inv, mark_retrying-Inv, mark_sent-Inv,
  mark_failed-Inv, cancel_request-Inv, promote_due-Inv, sweep_retries-Inv, reconcile_pending-Inv,
}

-- An operation of the store that changes tables, with its arguments. The last three of a worker are
-- about the row that it has claimed.
pub data Operation : Type 0 where
  create_one : Request → Delivery → Option OutboxRecord → Operation
  create_many : Batch → List BatchItem → Operation
  cancel_one : Uuid → Operation
  claim : Uuid → Time → Time → Operation
  record_sent : Delivery → String → Operation
  record_retry : Delivery → ℕ → Time → String → Operation
  record_failed : Delivery → ℕ → String → Operation
  promote sweep : ℕ → Operation
  reap : Operation
  reconcile : ℕ → ℕ → Operation
  mark_published : List Uuid → Operation
  purge : Time → Operation

-- The tables that an operation leaves, whether it returns a result or an error.
unfoldable pub perform : Operation → Session → Db
perform (create_one r d o) s = (create_notification r d o s).1.db
perform (create_many b items) s = (create_batch b items s).1.db
perform (cancel_one id) s = (cancel_request id s).1.db
perform (claim id created lease) s = (claim_delivery id created lease s).1.db
perform (record_sent d message_id) s = (mark_sent d.id d.created_at d.request_id message_id s).1.db
perform (record_retry d attempts next error) s =
    (mark_retrying d.id d.created_at attempts next error s).1.db
perform (record_failed d attempts error) s =
    (mark_failed d.id d.created_at d.request_id attempts error s).1.db
perform (promote limit) s = (promote_due limit s).1.db
perform (sweep limit) s = (sweep_retries limit s).1.db
perform reap s = (reap_stuck s).1.db
perform (reconcile older_than limit) s = (reconcile_pending older_than limit s).1.db
perform (mark_published ids) s = (mark_outbox_published ids s).1.db
perform (purge before) s = (purge_published_outbox before s).1.db

-- What the callers see to: new rows are as the service builds them, and a worker works on a row of the
-- table. One that records a retry still holds its delivery, which no other has ended.
abbrev pub Allowed : Operation → Db → Type 0
Allowed (create_one r d o) db = New r d × (r.batch_id ≡ none)
Allowed (create_many b items) db = All (NewIn b.id) items
Allowed (record_sent d message_id) db = RowOf d db
Allowed (record_retry d attempts next error) db = OpenRowOf d db
Allowed (record_failed d attempts error) db = RowOf d db
Allowed op db = Unit

pub data Run (start : Db) : Db → Type 0 where
  begin : Run start start
  step :
      {db after : Db}
      → Run start db
      → (op : Operation) (s : Session) → s.db ≡ db
      → Allowed op db
      → perform op s ≡ after
      → Run start after

statement-Inv :
    {A : Type 0} (what : String) (read : Session → A) (write : Session → Db) (s : Session)
    → Inv s.db
    → Inv (write s)
    → Inv (statement what read write s).1.db
unfolding statement
statement-Inv what read write s h k = ground (arith, h, k)

mark_outbox_published-Inv :
    (ids : List Uuid) (s : Session) → Inv s.db → Inv (mark_outbox_published ids s).1.db
unfolding mark_outbox_published
mark_outbox_published-Inv [] s h = h
mark_outbox_published-Inv (i ∷ ids) s h =
    statement-Inv _ _ _ s h (Base-Inv _ (Inv-Base s.db h) h.consistent.counted)

purge_published_outbox-Inv :
    (before : Time) (s : Session) → Inv s.db → Inv (purge_published_outbox before s).1.db
unfolding purge_published_outbox
purge_published_outbox-Inv before s h =
    statement-Inv _ _ _ s h (Base-Inv _ (Inv-Base s.db h) h.consistent.counted)

-- Every operation keeps the invariant, whether it commits, fails or has no effect.
pub perform-Inv : (op : Operation) (s : Session) → Allowed op s.db → Inv s.db → Inv (perform op s)
unfolding perform
perform-Inv (create_one r d o) s ok_new h = create_notification-Inv r d o s ok_new.0 ok_new.1 h
perform-Inv (create_many b items) s new h = create_batch-Inv b items s new h
perform-Inv (cancel_one id) s a h = cancel_request-Inv id s h
perform-Inv (claim id created lease) s a h = claim_delivery-Inv id created lease s h
perform-Inv (record_sent d message_id) s row h = mark_sent-Inv d message_id s row h
perform-Inv (record_retry d attempts next error) s row h =
    mark_retrying-Inv d attempts next error s row h
perform-Inv (record_failed d attempts error) s row h = mark_failed-Inv d attempts error s row h
perform-Inv (promote limit) s a h = promote_due-Inv limit s h
perform-Inv (sweep limit) s a h = sweep_retries-Inv limit s h
perform-Inv reap s a h = reap_stuck-Inv s h
perform-Inv (reconcile older_than limit) s a h = reconcile_pending-Inv older_than limit s h
perform-Inv (mark_published ids) s a h = mark_outbox_published-Inv ids s h
perform-Inv (purge before) s a h = purge_published_outbox-Inv before s h

-- Whatever sequence of operations the processes run, interleaved in any way, each at any time and with
-- any of its statements failing, the tables keep their invariant from start to end: every request has
-- the status of its deliveries, every batch counts its requests, no user has two requests with one
-- idempotency key, no two deliveries share a primary key, and no delivery or request refers to a
-- request or batch that does not exist. New rows are to be as the service builds them, a worker is to
-- record its result on a row of the table, and a retry only while the row is in no terminal state.
pub Run-Inv : {start db : Db} → Run start db → Inv start → Inv db
Run-Inv begin h = h
Run-Inv (step {db} r op s e a p) h =
    subst Inv p (perform-Inv op s (subst (Allowed op) (sym e) a) (subst Inv (sym e) (Run-Inv r h)))
