-- ===== src/Store/Deliveries.antt =====
-- delivery.go: claiming a delivery and recording how it ended.
use notification_system.Prelude.{
  ℕ, String, Bool, true, false, ◌&&◌, List, [], ◌∷◌, ◌++◌, Option, none, some, ◌==◌, any, select,
  update, find, ite, if◌then◌else◌,
}
use mathlib.Core.Option
use notification_system.Domain.Enums.{RequestStatus, RequestStatus-discrete, DeliveryStatus}
use notification_system.Domain.Errors.{other, not_found}
use notification_system.Domain.Models.{Uuid, Time, Request, Delivery}
use notification_system.Domain.Status.{aggregate_request_status}
use notification_system.Store.Batches.{adjust_batch_counters}
use notification_system.Store.Session.{
  Db, Action, pure, raise, or_fail, ◌>>=◌, ◌>>◌, statement, exec, query, with_tx,
}
use notification_system.Store.Tables.{has_key, statuses_of, order_by}

abbrev pub delivery_taken : Delivery → Db → Bool
delivery_taken d db = any (has_key d.id d.created_at) db.deliveries

abbrev pub with_delivery : Delivery → Db → Db
with_delivery d db =
    if delivery_taken d db then db else record db { deliveries = db.deliveries ++ d ∷ [] }

-- `insertDelivery`: the primary key is (id, created_at).
unfoldable pub insert_delivery : Delivery → Action (Unit {0})
insert_delivery d = do
  taken ← statement "insert delivery" (λ s. delivery_taken d s.db) (λ s. with_delivery d s.db)
  if taken then raise (other "insert delivery") else pure tt

-- `GetDelivery`
unfoldable pub get_delivery : Uuid → Time → Action Delivery
get_delivery id created = do
  or_fail (← query "scan delivery" (λ s. find (has_key id created) s.db.deliveries)) not_found

-- `GetDeliveriesByRequest` reads the replica.
unfoldable pub get_deliveries_by_request : Uuid → Action (List Delivery)
get_deliveries_by_request rid =
    query "get deliveries"
      (λ s. order_by (λ d. d.created_at) (select (λ d. d.request_id == rid) s.replica.deliveries))

-- `status IN ('PENDING','RETRYING')`
unfoldable pub claimable : DeliveryStatus → Bool
claimable DeliveryStatus.pending = true
claimable DeliveryStatus.retrying = true
claimable _ = false

abbrev pub can_claim : Uuid → Time → Delivery → Bool
can_claim id created d = has_key id created d && claimable d.status

abbrev pub claimed : Time → Time → Delivery → Delivery
claimed lease now d = record d {
  status = DeliveryStatus.processing;
  locked_until = some lease;
  updated_at = now;
}

-- `ClaimDelivery`: the claimed row as the UPDATE leaves it, or none if the race is lost.
unfoldable pub claim_delivery : Uuid → Time → Time → Action (Option Delivery)
claim_delivery id created lease =
    statement "scan delivery"
      (λ s. Option.map (claimed lease s.now) (find (can_claim id created) s.db.deliveries))
      (λ s. record s.db {
        deliveries = update (can_claim id created) (claimed lease s.now) s.db.deliveries;
      })

abbrev pub set_status : Uuid → RequestStatus → Db → Db
set_status rid st db = record db {
  requests = update (λ r. r.id == rid) (λ r. record r { status = st }) db.requests;
}

-- The counters of a request's batch, if it has one.
unfoldable pub adjust_if : Option Uuid → RequestStatus → RequestStatus → Action (Unit {0})
adjust_if none from to = pure tt
adjust_if (some b) from to = adjust_batch_counters b from to

-- The end of `recomputeRequestStatusTx`: nothing is written if the status is unchanged.
unfoldable pub store_status : Uuid → Request → RequestStatus → Action (Unit {0})
store_status rid r new_status = ite (RequestStatus-discrete new_status r.status) (pure tt) (
    exec "update request status" (λ s. set_status rid new_status s.db)
    >> adjust_if r.batch_id r.status new_status)

-- `recomputeRequestStatusTx`
unfoldable pub recompute_request_status : Uuid → Action (Unit {0})
recompute_request_status rid = do
  row ← query "load request for recompute" (λ s. find (λ r. r.id == rid) s.db.requests)
  r ← or_fail row (other "load request for recompute")
  statuses ← query "load delivery statuses" (λ s. statuses_of rid s.db.deliveries)
  store_status rid r (aggregate_request_status statuses)

-- Every row with the key is rewritten, whatever its status.
abbrev pub rewrite_delivery : Uuid → Time → (Delivery → Delivery) → Db → Db
rewrite_delivery id created f db = record db {
  deliveries = update (has_key id created) f db.deliveries;
}

abbrev pub as_sent : String → Time → Delivery → Delivery
as_sent message_id now d = record d {
  status = DeliveryStatus.sent;
  provider_message_id = some message_id;
  last_error = none;
  locked_until = none;
  updated_at = now;
}

-- `MarkSent`
unfoldable pub mark_sent : Uuid → Time → Uuid → String → Action (Unit {0})
mark_sent id created rid message_id = with_tx (
    exec "mark sent" (λ s. rewrite_delivery id created (as_sent message_id s.now) s.db)
    >> recompute_request_status rid)

abbrev pub as_retrying : ℕ → Time → String → Time → Delivery → Delivery
as_retrying attempts next last_err now d = record d {
  status = DeliveryStatus.retrying;
  attempt_count = attempts;
  next_retry_at = some next;
  last_error = some last_err;
  locked_until = none;
  updated_at = now;
}

-- `MarkRetrying`: one statement, and no recompute.
unfoldable pub mark_retrying : Uuid → Time → ℕ → Time → String → Action (Unit {0})
mark_retrying id created attempts next last_err =
    exec "mark retrying"
      (λ s. rewrite_delivery id created (as_retrying attempts next last_err s.now) s.db)

abbrev pub as_failed : ℕ → String → Time → Delivery → Delivery
as_failed attempts last_err now d = record d {
  status = DeliveryStatus.failed;
  attempt_count = attempts;
  last_error = some last_err;
  locked_until = none;
  updated_at = now;
}

-- `MarkFailed`
unfoldable pub mark_failed : Uuid → Time → Uuid → ℕ → String → Action (Unit {0})
mark_failed id created rid attempts last_err = with_tx (
    exec "mark failed" (λ s. rewrite_delivery id created (as_failed attempts last_err s.now) s.db)
    >> recompute_request_status rid)
