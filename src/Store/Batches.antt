-- ===== src/Store/Batches.antt =====
-- batch.go: the counters of a batch, and the reads.
use notification_system.Prelude.{ℕ, ◌+◌, ◌-◌, String, ◌&&◌, ◌==◌, same_text, update, find, ite}
use notification_system.Domain.Enums.{RequestStatus}
use notification_system.Domain.Errors.{not_found}
use notification_system.Domain.Models.{Uuid, Batch}
use notification_system.Store.Session.{Db, Action, pure, or_fail, ◌>>=◌, exec, query}
use notification_system.Store.Tables.{key_is}

-- The counter columns.
pub data Column : Type 0 where
  pending_count sent_count failed_count cancelled_count : Column

unfoldable pub Column-discrete : Discrete Column
Column-discrete = hlevel

-- `bucketColumn`
unfoldable pub bucket_column : RequestStatus → Column
bucket_column RequestStatus.sent = sent_count
bucket_column RequestStatus.partial = sent_count
bucket_column RequestStatus.failed = failed_count
bucket_column RequestStatus.cancelled = cancelled_count
bucket_column _ = pending_count

-- A counter column of a row, rewritten by a function.
unfoldable pub map_column : Column → (ℕ → ℕ) → Batch → Batch
map_column pending_count f b = record b { pending_count = f b.pending_count }
map_column sent_count f b = record b { sent_count = f b.sent_count }
map_column failed_count f b = record b { failed_count = f b.failed_count }
map_column cancelled_count f b = record b { cancelled_count = f b.cancelled_count }

-- `SET from = GREATEST(from - 1, 0), to = to + 1`: subtraction stops at 0.
unfoldable pub move_unit : Column → Column → Batch → Batch
unfolding map_column
move_unit from to b = map_column to (λ n. n + 1) (map_column from (λ n. n - 1) b)

abbrev pub moved : Uuid → Column → Column → Db → Db
moved id from to db = record db {
  batches = update (λ b. b.id == id) (move_unit from to) db.batches;
}

-- `adjustBatchCountersTx`
unfoldable pub adjust_batch_counters : Uuid → RequestStatus → RequestStatus → Action (Unit {0})
adjust_batch_counters id from to =
    let from_col = bucket_column from in
    let to_col = bucket_column to in
    ite (Column-discrete from_col to_col) (pure tt)
      (exec "adjust batch counters" (λ s. moved id from_col to_col s.db))

-- `GetBatchByID` reads the replica.
unfoldable pub get_batch_by_id : Uuid → Action Batch
get_batch_by_id id = do
  or_fail (← query "scan batch" (λ s. find (λ b. b.id == id) s.replica.batches)) not_found

-- `GetBatchByIdempotencyKey`
unfoldable pub get_batch_by_idempotency_key : String → String → Action Batch
get_batch_by_idempotency_key user key = do
  or_fail
      (← query "scan batch"
        (λ s. find (λ b. same_text b.user_id user && key_is b.idempotency_key key) s.db.batches))
      not_found
