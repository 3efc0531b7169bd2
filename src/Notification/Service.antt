-- ===== src/Notification/Service.antt =====
-- service.go and batch.go: the use cases.
use notification_system.Prelude.{
  ℕ, String, Bool, true, false, Option, none, some, List, [], ◌∷◌, same_text, if◌then◌else◌,
}
use notification_system.Domain.Errors.{Error, not_found, conflict, Result, ok, err}
use notification_system.Domain.Models.{Uuid, Time, Request, Delivery, Batch, BatchItem, BatchResult}
use notification_system.Effects.{inc_created}
use notification_system.Notification.Build.{BuiltNotification, build}
use notification_system.Notification.Input.{CreateInput, BatchInput, validate, validate_batch}
use notification_system.Store.Batches.{get_batch_by_id, get_batch_by_idempotency_key}
use notification_system.Store.Deliveries.{get_deliveries_by_request}
use notification_system.Store.Requests.{
  create_notification, create_batch as store_batch, get_request_by_id,
  get_request_by_idempotency_key, cancel_request,
}
use notification_system.Domain.Query.{ListFilter, Page}
use notification_system.Store.Listing.{list_requests}
use notification_system.Store.Session.{
  Action, pure, raise, ◌>>=◌, ◌>>◌, new_uuid, clock_now, emit, attempt, each,
}

pub record View : Type 0 where
  pub request : Request
  pub deliveries : List Delivery

pub record CreateResult : Type 0 where
  pub request : Request
  pub duplicate : Bool

abbrev pub replayed : Request → CreateResult
replayed r = record { request = r; duplicate = true }

-- A result as an action.
abbrev pub lift : {A : Type 0} → Result A → Action A
lift r s = (r, s)

-- That a row is not found is no error; any other is passed on.
abbrev pub unless_missing : {A : Type 0} → Result A → Action (Option A)
unless_missing (ok a) = pure (some a)
unless_missing (err not_found) = pure none
unless_missing (err e) = raise e

-- A lookup by key that may find nothing.
unfoldable pub existing : {A : Type 0} → Action A → Action (Option A)
existing m = attempt m >>= unless_missing

-- The row with the key of the input, if it gives one.
abbrev pub find_existing : {A : Type 0} → (String → Action A) → Option String → Action (Option A)
find_existing get none = pure none
find_existing get (some key) = existing (get key)

-- After a failed insert: a conflict on a key is another writer's row.
unfoldable pub recover :
    {A B : Type 0} → (String → Action A) → (A → B) → Option String → Error → Action B
recover get found (some key) conflict = get key >>= λ a. pure (found a)
recover get found key e = raise e

-- What follows the insert of a built notification.
unfoldable pub after_insert :
    CreateInput → BuiltNotification → Result (Unit {0}) → Action CreateResult
after_insert i built (ok _) = do
  emit (inc_created built.request.channel built.request.priority)
  pure (record { request = built.request; duplicate = false })
after_insert i built (err e) =
    recover (get_request_by_idempotency_key i.user_id) replayed i.idempotency_key e

-- The insert of a built notification, once no row has its key.
unfoldable pub insert_new : CreateInput → String → Action CreateResult
insert_new i correlation = do
  built ← build i none correlation
  inserted ← attempt (create_notification built.request built.delivery built.outbox)
  after_insert i built inserted

-- `Service.Create`
unfoldable pub create : CreateInput → String → Action CreateResult
create i correlation = do
  lift (validate i)
  found ← find_existing (get_request_by_idempotency_key i.user_id) i.idempotency_key
  elim found [ some r ↦ pure (replayed r) | none ↦ insert_new i correlation ]

-- Rows of another user are as good as absent.
abbrev pub owned_by : {A : Type 0} → String → String → A → Action A
owned_by owner user a = if same_text owner user then pure a else raise not_found

-- `Service.Get`
unfoldable pub get : String → Uuid → Action View
get user id = do
  r ← get_request_by_id id
  mine ← owned_by r.user_id user r
  deliveries ← get_deliveries_by_request id
  pure (record { request = mine; deliveries = deliveries })

-- `Service.List`
unfoldable pub list : ListFilter → Action Page
list f = list_requests f

-- `Service.Cancel`
unfoldable pub cancel : String → Uuid → Action Request
cancel user id = do r ← get_request_by_id id; _mine ← owned_by r.user_id user r; cancel_request id

-- `Service.GetBatch`
unfoldable pub get_batch : String → Uuid → Action Batch
get_batch user id = do b ← get_batch_by_id id; owned_by b.user_id user b

pub record BatchCreateResult : Type 0 where
  pub batch : Batch
  pub duplicate : Bool
  pub created_count : ℕ
  pub duplicate_count : ℕ

abbrev pub replayed_batch : Batch → BatchCreateResult
replayed_batch b = record { batch = b; duplicate = true; created_count = 0; duplicate_count = 0 }

-- The loop that builds the items.
unfoldable pub build_items : String → Uuid → String → List CreateInput → Action (List BatchItem)
build_items user batch_id correlation [] = pure []
build_items user batch_id correlation (i ∷ is) = do
  built ← build (record i { user_id = user }) (some batch_id) correlation
  rest ← build_items user batch_id correlation is
  pure (record { request = built.request; delivery = built.delivery; outbox = built.outbox } ∷ rest)

abbrev pub new_row : BatchInput → Uuid → Time → Batch
new_row b batch_id now = record {
  id = batch_id;
  user_id = b.user_id;
  idempotency_key = b.idempotency_key;
  total_count = 0;
  pending_count = 0;
  sent_count = 0;
  failed_count = 0;
  cancelled_count = 0;
  created_at = now;
}

-- What follows the insert of a batch.
unfoldable pub after_batch :
    BatchInput → List BatchItem → Result BatchResult → Action BatchCreateResult
after_batch b items (ok res) = do
  each (λ (i : BatchItem). emit (inc_created i.request.channel i.request.priority)) items
  pure (record {
    batch = res.batch;
    duplicate = false;
    created_count = res.created_count;
    duplicate_count = res.duplicate_count;
  })
after_batch b items (err e) =
    recover (get_batch_by_idempotency_key b.user_id) replayed_batch b.idempotency_key e

-- The insert of a batch, once no row has its key.
unfoldable pub insert_new_batch : BatchInput → String → Action BatchCreateResult
insert_new_batch b correlation = do
  batch_id ← new_uuid
  now ← clock_now
  items ← build_items b.user_id batch_id correlation b.items
  stored ← attempt (store_batch (new_row b batch_id now) items)
  after_batch b items stored

-- `Service.CreateBatch`
unfoldable pub create_batch : BatchInput → String → Action BatchCreateResult
create_batch b correlation = do
  lift (validate_batch b)
  found ← find_existing (get_batch_by_idempotency_key b.user_id) b.idempotency_key
  elim found [ some x ↦ pure (replayed_batch x) | none ↦ insert_new_batch b correlation ]
