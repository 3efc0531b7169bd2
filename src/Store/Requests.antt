-- ===== src/Store/Requests.antt =====
-- request.go and the creation of a batch: inserting, reading and cancelling notifications.
-- The constraints are those of the migrations: primary keys, one row for each user and idempotency
-- key, and the references to a batch and a template.
use notification_system.Prelude.{
  ℕ, ◌+◌, ◌-◌, String, Bool, true, false, ◌&&◌, ◌||◌, List, [], ◌∷◌, ◌++◌, Option, none, some, ◌==◌,
  any, update, count, find, same_text, length, if◌then◌else◌,
}
use notification_system.Domain.Enums.{DeliveryStatus}
use notification_system.Domain.Errors.{not_found, conflict, cancel_not_allowed, other}
use notification_system.Domain.Models.{
  Uuid, Time, Request, Delivery, OutboxRecord, Batch, BatchItem, BatchResult,
}
use notification_system.Store.Deliveries.{insert_delivery, recompute_request_status}
use notification_system.Store.Outbox.{insert_outbox}
use notification_system.Store.Session.{
  Db, Action, pure, raise, or_fail, ◌>>=◌, ◌>>◌, statement, exec, query, with_tx,
}
use notification_system.Store.Tables.{key_is}

-- Two rows that share a user and an idempotency key.
abbrev pub same_key : String → Option String → Request → Bool
same_key user none r = false
same_key user (some k) r = same_text r.user_id user && key_is r.idempotency_key k

abbrev pub request_id_taken : Uuid → Db → Bool
request_id_taken id db = any (λ r. r.id == id) db.requests

abbrev pub request_key_taken : Request → Db → Bool
request_key_taken r db = any (same_key r.user_id r.idempotency_key) db.requests

abbrev pub refers : {A : Type 0} → (Uuid → A → Bool) → Option Uuid → List A → Bool
refers is none rows = true
refers is (some id) rows = any (is id) rows

-- The foreign keys of a request.
abbrev pub references_hold : Request → Db → Bool
references_hold r db =
    refers (λ id b. b.id == id) r.batch_id db.batches
    && refers (λ id t. t.id == id) r.template_id db.templates

-- How an INSERT of a request ends.
pub data Insertion : Type 0 where
  inserted duplicate_id duplicate_key dangling : Insertion

abbrev pub insertion : Request → Db → Insertion
insertion r db =
    if request_key_taken r db
    then duplicate_key
    else if request_id_taken r.id db
    then duplicate_id
    else if references_hold r db
    then inserted
    else dangling

abbrev pub with_request : Request → Db → Db
with_request r db = elim (insertion r db) [
  | inserted ↦ record db { requests = db.requests ++ r ∷ [] }
  | _ ↦ db
]

abbrev insert_result : Insertion → Action (Unit {0})
insert_result inserted = pure tt
insert_result duplicate_id = raise conflict
insert_result duplicate_key = raise conflict
insert_result dangling = raise (other "insert request")

-- `insertRequest`: a unique violation is a conflict.
unfoldable pub insert_request : Request → Action (Unit {0})
insert_request r = do
  outcome ← statement "insert request" (λ s. insertion r s.db) (λ s. with_request r s.db)
  insert_result outcome

abbrev pub on_conflict_result : Insertion → Action Bool
on_conflict_result inserted = pure true
on_conflict_result duplicate_key = pure false
on_conflict_result duplicate_id = raise (other "insert request on conflict")
on_conflict_result dangling = raise (other "insert request on conflict")

-- `insertRequestOnConflict`: only the conflict of user and key is passed over.
unfoldable pub insert_request_on_conflict : Request → Action Bool
insert_request_on_conflict r = do
  outcome ←
      statement "insert request on conflict" (λ s. insertion r s.db) (λ s. with_request r s.db)
  on_conflict_result outcome

-- The outbox row of an immediate send.
unfoldable pub insert_outbox_if : Option OutboxRecord → Action (Unit {0})
insert_outbox_if none = pure tt
insert_outbox_if (some o) = insert_outbox o

-- `CreateNotification`
unfoldable pub create_notification : Request → Delivery → Option OutboxRecord → Action (Unit {0})
unfolding insert_outbox_if
create_notification r d o = with_tx (do insert_request r; insert_delivery d; insert_outbox_if o)

-- `GetRequestByID` reads the replica.
unfoldable pub get_request_by_id : Uuid → Action Request
get_request_by_id id = do
  or_fail (← query "scan request" (λ s. find (λ r. r.id == id) s.replica.requests)) not_found

-- `GetRequestByIdempotencyKey`
unfoldable pub get_request_by_idempotency_key : String → String → Action Request
get_request_by_idempotency_key user key = do
  or_fail (← query "scan request" (λ s. find (same_key user (some key)) s.db.requests)) not_found

-- `status IN ('SCHEDULED','PENDING','RETRYING')`
unfoldable pub cancellable : DeliveryStatus → Bool
cancellable DeliveryStatus.scheduled = true
cancellable DeliveryStatus.pending = true
cancellable DeliveryStatus.retrying = true
cancellable _ = false

abbrev pub can_cancel : Uuid → Delivery → Bool
can_cancel rid d = d.request_id == rid && cancellable d.status

abbrev pub as_cancelled : Time → Delivery → Delivery
as_cancelled now d = record d { status = DeliveryStatus.cancelled; updated_at = now }

abbrev pub find_request : Uuid → Db → Option Request
find_request id db = find (λ r. r.id == id) db.requests

-- `CancelRequest`
unfoldable pub cancel_request : Uuid → Action Request
cancel_request id = with_tx (do
  locked ← query "scan request" (λ s. find_request id s.db)
  _found ← or_fail locked not_found
  affected ←
      statement "cancel deliveries" (λ s. count (can_cancel id) s.db.deliveries)
        (λ s. record s.db {
          deliveries = update (can_cancel id) (as_cancelled s.now) s.db.deliveries;
        })
  if affected == 0 then raise cancel_not_allowed else pure tt
  recompute_request_status id
  row ← query "scan request" (λ s. find_request id s.db)
  or_fail row not_found)

-- One item of a batch: whether its request was new.
unfoldable pub insert_item : BatchItem → Action Bool
unfolding insert_outbox_if
insert_item item = do
  fresh ← insert_request_on_conflict item.request
  if fresh
      then (insert_delivery item.delivery >> (insert_outbox_if item.outbox >> pure true))
      else pure false

-- The loop over the items, with the number created so far.
unfoldable pub insert_items : ℕ → List BatchItem → Action ℕ
insert_items created [] = pure created
insert_items created (item ∷ items) = do
  fresh ← insert_item item
  insert_items (if fresh then created + 1 else created) items

abbrev pub batch_taken : Batch → Db → Bool
batch_taken b db =
    any (λ c. c.id == b.id) db.batches || any (λ c. same_batch_key c b.idempotency_key) db.batches
  where
    same_batch_key : Batch → Option String → Bool
    same_batch_key c none = false
    same_batch_key c (some k) = same_text c.user_id b.user_id && key_is c.idempotency_key k

-- The inserted row has all its counters at 0.
abbrev pub new_batch : Batch → Batch
new_batch b = record b {
  total_count = 0;
  pending_count = 0;
  sent_count = 0;
  failed_count = 0;
  cancelled_count = 0;
}

abbrev pub with_batch : Batch → Db → Db
with_batch b db =
    if batch_taken b db then db else record db { batches = db.batches ++ new_batch b ∷ [] }

abbrev pub set_counts : Uuid → ℕ → Db → Db
set_counts id n db = record db {
  batches =
      update (λ b. b.id == id) (λ b. record b { total_count = n; pending_count = n }) db.batches;
}

-- `CreateBatch`
unfoldable pub create_batch : Batch → List BatchItem → Action BatchResult
create_batch b items = with_tx (do
  taken ← statement "insert batch" (λ s. batch_taken b s.db) (λ s. with_batch b s.db)
  if taken then raise conflict else pure tt
  created ← insert_items 0 items
  exec "update batch counts" (λ s. set_counts b.id created s.db)
  pure (record {
    batch = record b { total_count = created; pending_count = created };
    created_count = created;
    duplicate_count = length items - created;
  }))
