-- ===== src/Store/Consistent/Refresh.antt =====
-- A refreshed request, and the invariant of the tables.
use mathlib.Core.Logic.{if_pos, if_neg}
use notification_system.Prelude.{
  ◌≡◌, refl, ◌⊎◌, inl, inr, false, List, [], ◌∷◌, Option, none, some, ◌==◌, any, find, update, All,
  arith, find-holds, Bool-cases, ◌≢◌,
}
use notification_system.Domain.Enums.{RequestStatus, RequestStatus-discrete}
use notification_system.Domain.Models.{Uuid, Batch, Request, Delivery}
use notification_system.Domain.Status.{aggregate_request_status}
use notification_system.Store.Atomic.{adjusted, refreshed}
use notification_system.Store.Batches.{Column-discrete, bucket_column, move_unit}
use notification_system.Store.Deliveries.{set_status}
use notification_system.Store.Requests.{find_request}
use notification_system.Store.Session.{Db}
use notification_system.Store.Tables.{statuses_of}
use notification_system.Store.Consistent.Defs.{Distinct, Agrees, Counted, Consistent}
use notification_system.Store.Consistent.Members.{
  has_id, with_status, Distinct-set_status, after, Counted-elsewhere, Counted-same_column,
  Counted-moved,
}

-- Every request but one has the status of its deliveries.
abbrev pub AgreesBut : Uuid → List Delivery → Request → Type 0
AgreesBut rid ds q = (q.id ≡ rid) ⊎ Agrees ds q

Agrees-elsewhere :
    (ds : List Delivery) (rid : Uuid) (rs : List Request)
    → any (has_id rid) rs ≡ false
    → All (AgreesBut rid ds) rs
    → All (Agrees ds) rs
Agrees-elsewhere ds rid [] no_rid h = tt
Agrees-elsewhere ds rid (q ∷ rs) no_rid h = ground (arith, Agrees-elsewhere ds rid rs)

Agrees-found :
    (ds : List Delivery) (rid : Uuid) (r : Request) (rs : List Request)
    → Distinct rs
    → find (has_id rid) rs ≡ some r
    → Agrees ds r
    → All (AgreesBut rid ds) rs
    → All (Agrees ds) rs
Agrees-found ds rid r [] d f a h = tt
Agrees-found ds rid r (q ∷ rs) d f a h =
    ground (arith, Agrees-elsewhere ds rid rs, Agrees-found ds rid r rs d.1)

Agrees-set_status :
    (ds : List Delivery) (rid : Uuid) (st : RequestStatus) (rs : List Request)
    → st ≡ aggregate_request_status (statuses_of rid ds)
    → All (AgreesBut rid ds) rs
    → All (Agrees ds) (update (has_id rid) (with_status st) rs)
Agrees-set_status ds rid st [] e h = tt
Agrees-set_status ds rid st (q ∷ rs) e h = ground (arith, Agrees-set_status ds rid st rs)

module _ (rid : Uuid) (st : RequestStatus) (r : Request) (rs : List Request) (d : Distinct rs)
    (found : find (has_id rid) rs ≡ some r) where
  Counted-adjusted :
      (bs : List Batch) (b : Uuid)
      → r.batch_id ≡ some b
      → bucket_column r.status ≢ bucket_column st
      → All (Counted rs) bs
      → All
          (Counted (after rid st rs))
          (update (λ c. c.id == b) (move_unit (bucket_column r.status) (bucket_column st)) bs)
  Counted-adjusted [] b e ne h = tt
  Counted-adjusted (c ∷ bs) b e ne h = (
    elim (Bool-cases (c.id == b)) [
      | inl same ↦ rw same (Counted-moved rid st r rs d found c _ _ refl refl ne (ground arith) h.0)
      | inr differs ↦ rw differs (Counted-elsewhere rid st r rs d found c (ground arith) h.0)
    ],
    Counted-adjusted bs b e ne h.1,
  )

  All-Counted_elsewhere :
      (bs : List Batch)
      → r.batch_id ≡ none
      → All (Counted rs) bs
      → All (Counted (after rid st rs)) bs
  All-Counted_elsewhere [] e h = tt
  All-Counted_elsewhere (c ∷ bs) e h =
      (Counted-elsewhere rid st r rs d found c (ground arith) h.0, All-Counted_elsewhere bs e h.1)

  All-Counted_same_column :
      (bs : List Batch)
      → bucket_column r.status ≡ bucket_column st
      → All (Counted rs) bs
      → All (Counted (after rid st rs)) bs
  All-Counted_same_column [] e h = tt
  All-Counted_same_column (c ∷ bs) e h =
      (Counted-same_column rid st r rs d found c e h.0, All-Counted_same_column bs e h.1)

adjusted-Consistent :
    (rid : Uuid) (st : RequestStatus) (r : Request) (db : Db) (batch : Option Uuid)
    → Distinct db.requests
    → find_request rid db ≡ some r
    → r.batch_id ≡ batch
    → All (Agrees db.deliveries) (after rid st db.requests)
    → All (Counted db.requests) db.batches
    → Consistent (adjusted batch r.status st (set_status rid st db))
adjusted-Consistent rid st r db none d f e a c = record {
  distinct = Distinct-set_status rid st db.requests d;
  agrees = a;
  counted = All-Counted_elsewhere rid st r db.requests d f db.batches e c;
}
adjusted-Consistent rid st r db (some b) d f e a c =
    elim (Column-discrete (bucket_column r.status) (bucket_column st)) [
      | yes same ↦ rw (if_pos _ same) (record {
        distinct = Distinct-set_status rid st db.requests d;
        agrees = a;
        counted = All-Counted_same_column rid st r db.requests d f db.batches same c;
      })
      | no differ ↦ rw (if_neg _ differ) (record {
        distinct = Distinct-set_status rid st db.requests d;
        agrees = a;
        counted = Counted-adjusted rid st r db.requests d f db.batches b e differ c;
      })
    ]

pub refreshed-Consistent :
    (rid : Uuid) (r : Request) (db : Db)
    → Distinct db.requests
    → find_request rid db ≡ some r
    → All (AgreesBut rid db.deliveries) db.requests
    → All (Counted db.requests) db.batches
    → Consistent (refreshed rid r db)
refreshed-Consistent rid r db d f a c =
    let st = aggregate_request_status (statuses_of rid db.deliveries) in
    elim (RequestStatus-discrete st r.status) [
      | yes same ↦ rw (if_pos _ same) (record {
        distinct = d;
        agrees = Agrees-found db.deliveries rid r db.requests d f (agrees_at same) a;
        counted = c;
      })
      | no differ ↦ rw (if_neg _ differ) (
          adjusted-Consistent rid st r db r.batch_id d f refl
            (Agrees-set_status db.deliveries rid st db.requests refl a) c)
    ]
  where
    agrees_at :
        aggregate_request_status (statuses_of rid db.deliveries) ≡ r.status → Agrees db.deliveries r
    agrees_at e = ground (arith, find-holds (has_id rid) db.requests r f)
