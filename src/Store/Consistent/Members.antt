-- ===== src/Store/Consistent/Members.antt =====
-- How the members of a batch change with the status of one request.
use notification_system.Prelude.{
  ℕ, ◌+◌, ◌≡◌, refl, Bool, true, false, List, [], ◌∷◌, some, ◌==◌, points_to, any, count, find,
  update, if◌then◌else◌, arith, ◌≢◌, update_none,
}
use notification_system.Domain.Enums.{RequestStatus}
use notification_system.Domain.Models.{Uuid, Batch, Request}
use notification_system.Store.Batches.{
  Column, pending_count, sent_count, failed_count, cancelled_count, bucket_column, move_unit,
}
use notification_system.Store.Consistent.Defs.{Distinct, counts_in, Counted}

abbrev pub one_if : Bool → ℕ
one_if b = if b then 1 else 0

abbrev pub with_status : RequestStatus → Request → Request
with_status st r = record r { status = st }

abbrev pub has_id : Uuid → Request → Bool
has_id rid r = r.id == rid

-- The requests once one of them has been given a status.
abbrev pub after : Uuid → RequestStatus → List Request → List Request
after rid st rs = update (has_id rid) (with_status st) rs

-- Setting the status of one request moves it, and nothing else, between the counts.
pub count-set_status :
    (p : Request → Bool) (rid : Uuid) (st : RequestStatus) (r : Request) (rs : List Request)
    → Distinct rs
    → find (has_id rid) rs ≡ some r
    → count p (update (has_id rid) (with_status st) rs) + one_if (p r)
      ≡ count p rs + one_if (p (with_status st r))
count-set_status p rid st r [] d f = cc
count-set_status p rid st r (q ∷ rs) d f =
    ground (arith, update_none (has_id rid) (with_status st) rs, count-set_status p rid st r rs d.1)

any_id-set_status :
    (k rid : Uuid) (st : RequestStatus) (rs : List Request)
    → any (λ q. q.id == k) (update (has_id rid) (with_status st) rs) ≡ any (λ q. q.id == k) rs
any_id-set_status k rid st [] = refl
any_id-set_status k rid st (q ∷ rs) = ground (arith, any_id-set_status k rid st rs)

pub Distinct-set_status :
    (rid : Uuid) (st : RequestStatus) (rs : List Request)
    → Distinct rs
    → Distinct (update (has_id rid) (with_status st) rs)
Distinct-set_status rid st [] d = tt
Distinct-set_status rid st (q ∷ rs) d =
    ground (arith, any_id-set_status q.id rid st rs, Distinct-set_status rid st rs d.1)

-- The counters of one batch after the move.
module _ (rid : Uuid) (st : RequestStatus) (r : Request) (rs : List Request) (d : Distinct rs)
    (found : find (has_id rid) rs ≡ some r) where
  pub Counted-elsewhere :
      (b : Batch) → points_to r.batch_id b.id ≡ false → Counted rs b → Counted (after rid st rs) b
  Counted-elsewhere b out h = record {
    total = ground (arith, count-set_status (λ q. points_to q.batch_id b.id) rid st r rs d found);
    pending = ground (arith, count-set_status (counts_in b.id pending_count) rid st r rs d found);
    sent = ground (arith, count-set_status (counts_in b.id sent_count) rid st r rs d found);
    failed = ground (arith, count-set_status (counts_in b.id failed_count) rid st r rs d found);
    cancelled =
        ground (arith, count-set_status (counts_in b.id cancelled_count) rid st r rs d found);
  }

  pub Counted-same_column :
      (b : Batch)
      → bucket_column r.status ≡ bucket_column st
      → Counted rs b
      → Counted (after rid st rs) b
  Counted-same_column b same h = record {
    total = ground (arith, count-set_status (λ q. points_to q.batch_id b.id) rid st r rs d found);
    pending = ground (arith, count-set_status (counts_in b.id pending_count) rid st r rs d found);
    sent = ground (arith, count-set_status (counts_in b.id sent_count) rid st r rs d found);
    failed = ground (arith, count-set_status (counts_in b.id failed_count) rid st r rs d found);
    cancelled =
        ground (arith, count-set_status (counts_in b.id cancelled_count) rid st r rs d found);
  }

  pub Counted-moved :
      (b : Batch) (from to : Column)
      → bucket_column r.status ≡ from
      → bucket_column st ≡ to
      → from ≢ to
      → points_to r.batch_id b.id ≡ true
      → Counted rs b
      → Counted (after rid st rs) (move_unit from to b)
  unfolding move_unit
  Counted-moved b from to f t ne in_b h = record {
    total = ground (arith, count-set_status (λ q. points_to q.batch_id b.id) rid st r rs d found);
    pending = ground (arith, count-set_status (counts_in b.id pending_count) rid st r rs d found);
    sent = ground (arith, count-set_status (counts_in b.id sent_count) rid st r rs d found);
    failed = ground (arith, count-set_status (counts_in b.id failed_count) rid st r rs d found);
    cancelled =
        ground (arith, count-set_status (counts_in b.id cancelled_count) rid st r rs d found);
  }
