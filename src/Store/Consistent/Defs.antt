-- ===== src/Store/Consistent/Defs.antt =====
-- The invariant of the tables.
use notification_system.Prelude.{
  ℕ, ◌≡◌, Bool, true, false, ◌&&◌, List, [], ◌∷◌, ◌==◌, points_to, any, count, All,
}
use notification_system.Domain.Models.{Uuid, Batch, Request, Delivery}
use notification_system.Domain.Status.{aggregate_request_status}
use notification_system.Store.Batches.{
  Column, pending_count, sent_count, failed_count, cancelled_count, bucket_column,
}
use notification_system.Store.Session.{Db}
use notification_system.Store.Tables.{statuses_of}

-- No two requests share an id.
abbrev pub Distinct : List Request → Type 0
Distinct [] = Unit
Distinct (r ∷ rs) = (any (λ q. q.id == r.id) rs ≡ false) × Distinct rs

abbrev pub Agrees : List Delivery → Request → Type 0
Agrees ds r = r.status ≡ aggregate_request_status (statuses_of r.id ds)

abbrev pub is_column : Column → Column → Bool
is_column pending_count pending_count = true
is_column sent_count sent_count = true
is_column failed_count failed_count = true
is_column cancelled_count cancelled_count = true
is_column _ _ = false

-- The request belongs to the batch and counts under the column.
abbrev pub counts_in : Uuid → Column → Request → Bool
counts_in b c r = points_to r.batch_id b && is_column (bucket_column r.status) c

abbrev pub members : Uuid → Column → List Request → ℕ
members b c rs = count (counts_in b c) rs

pub record Counted (rs : List Request) (b : Batch) : Type 0 where
  pub total : b.total_count ≡ count (λ r. points_to r.batch_id b.id) rs
  pub pending : b.pending_count ≡ members b.id pending_count rs
  pub sent : b.sent_count ≡ members b.id sent_count rs
  pub failed : b.failed_count ≡ members b.id failed_count rs
  pub cancelled : b.cancelled_count ≡ members b.id cancelled_count rs

pub record Consistent (db : Db) : Type 0 where
  pub distinct : Distinct db.requests
  pub agrees : All (Agrees db.deliveries) db.requests
  pub counted : All (Counted db.requests) db.batches
