-- ===== src/Store/Cancellation/Row.antt =====
-- The request whose status follows from its deliveries, after `recomputeRequestStatus` of
-- postgres/delivery.go.
use notification_system.Prelude.{
  ◌≡◌, refl, sym, ap, ◌∙◌, inl, inr, Bool, Bool-cases, Option, none, some, List, [], ◌∷◌, find,
  update, ite, arith, ◌==◌,
}
use notification_system.Domain.Enums.{RequestStatus, RequestStatus-discrete}
use notification_system.Domain.Models.{Uuid, Request}
use notification_system.Domain.Status.{aggregate_request_status}
use notification_system.Store.Atomic.{adjusted, refreshed}
use notification_system.Store.Batches.{moved, bucket_column, Column-discrete}
use notification_system.Store.Deliveries.{set_status}
use notification_system.Store.Requests.{find_request}
use notification_system.Store.Session.{Db}
use notification_system.Store.Tables.{statuses_of}

either_way :
    {P B : Type 0} (f : Db → B) (c : Dec P) (x y : Db) {b : B}
    → f x ≡ b
    → f y ≡ b
    → f (ite c x y) ≡ b
either_way f (yes p) x y h k = h
either_way f (no p) x y h k = k

adjusted_keeps :
    {B : Type 0} (f : Db → B) (batch : Option Uuid) (from to : RequestStatus) (db : Db)
    → ((b : Uuid) → f (moved b (bucket_column from) (bucket_column to) db) ≡ f db)
    → f (adjusted batch from to db) ≡ f db
adjusted_keeps f none from to db h = refl
adjusted_keeps f (some b) from to db h =
    either_way f (Column-discrete (bucket_column from) (bucket_column to)) db _ refl (h b)

pub refreshed-deliveries :
    (rid : Uuid) (r : Request) (db : Db) → (refreshed rid r db).deliveries ≡ db.deliveries
refreshed-deliveries rid r db =
    either_way (λ t. t.deliveries)
      (RequestStatus-discrete (aggregate_request_status (statuses_of rid db.deliveries)) r.status)
      db _ refl (adjusted_keeps (λ t. t.deliveries) r.batch_id r.status _ _ (λ b. refl))

pub find-update :
    {A : Type 0} (p : A → Bool) (f : A → A) (xs : List A) {a : A}
    → ((x : A) → p (f x) ≡ p x)
    → find p xs ≡ some a
    → find p (update p f xs) ≡ some (f a)
find-update p f [] h e = cc
find-update p f (x ∷ xs) {a} h e = elim (Bool-cases (p x)) [
  | inl here ↦ ground (arith, here, h x, e)
  | inr below ↦
      let found : find p xs ≡ some a = ground (arith, below, e) in
      let rest = find-update p f xs h found in ground (arith, below, rest)
]

pub some-injective : {A : Type 0} {a b : A} → some a ≡ some b → a ≡ b
some-injective e = cc

-- The request after it has been refreshed.
abbrev pub Refreshed : Uuid → Db → Type 0
Refreshed rid db =
    (r : Request) × (find_request rid db ≡ some r)
    × (r.status ≡ aggregate_request_status (statuses_of rid db.deliveries))

pub refreshed_row :
    (rid : Uuid) (r : Request) (db : Db)
    → find_request rid db ≡ some r
    → Refreshed rid (refreshed rid r db)
refreshed_row rid r db found =
    let st = aggregate_request_status (statuses_of rid db.deliveries) in
    let new = row (RequestStatus-discrete st r.status) in
    (
      new.0,
      new.1,
      new.2
          ∙ sym (
              ap (λ ds. aggregate_request_status (statuses_of rid ds))
                (refreshed-deliveries rid r db)),
    )
  where
    st : RequestStatus
    st = aggregate_request_status (statuses_of rid db.deliveries)

    changed : Db
    changed = adjusted r.batch_id r.status st (set_status rid st db)

    kept : changed.requests ≡ (set_status rid st db).requests
    kept =
        adjusted_keeps (λ t. t.requests) r.batch_id r.status st (set_status rid st db) (λ b. refl)

    row :
        (c : Dec (st ≡ r.status))
        → (q : Request) × (find_request rid (ite c db changed) ≡ some q) × (q.status ≡ st)
    row (yes p) = (r, found, sym p)
    row (no p) = (
      record r { status = st },
      ap (λ rows. find (λ q. q.id == rid) rows) kept
          ∙ find-update (λ q. q.id == rid) (λ q. record q { status = st }) db.requests (λ q. refl)
              found,
      refl,
    )
