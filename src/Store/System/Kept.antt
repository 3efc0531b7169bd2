-- ===== src/Store/System/Kept.antt =====
-- Changes that leave the keys and the references of the rows alone.
use notification_system.Prelude.{
  Bool, Option, none, some, List, [], ◌∷◌, any, update, ◌≡◌, refl, ◌∙◌, ite, arith, String, ◌==◌,
}
use notification_system.Domain.Enums.{RequestStatus, RequestStatus-discrete}
use notification_system.Domain.Models.{Uuid, Request, Delivery}
use notification_system.Domain.Status.{aggregate_request_status}
use notification_system.Store.Atomic.{refreshed, adjusted}
use notification_system.Store.Batches.{Column, Column-discrete, bucket_column, move_unit, moved}
use notification_system.Store.Consistent.{Consistent, has_id, with_status}
use notification_system.Store.Deliveries.{set_status}
use notification_system.Store.Insertion.{KeysDistinct}
use notification_system.Store.Requests.{same_key}
use notification_system.Store.Session.{Db}
use notification_system.Store.Tables.{statuses_of}
use notification_system.Store.System.Defs.{
  SameShape, SameShape-Linked, Inv, map-update, delivery_key,
}

pub record Kept (a b : Db) : Type 0 where
  pub shape : SameShape a b
  pub keys : KeysDistinct a.requests → KeysDistinct b.requests

pub Inv-Kept : (a b : Db) → Kept a b → Inv a → Consistent b → Inv b
Inv-Kept a b k h c = record {
  consistent = c;
  keys = k.keys h.keys;
  linked = SameShape-Linked a b k.shape h.linked;
}

pub Kept-refl : (a : Db) → Kept a a
Kept-refl a = record {
  shape = record { deliveries = refl; requests = refl; refs = refl; batches = refl };
  keys = λ h. h;
}

pub Kept-trans : (a b c : Db) → Kept a b → Kept b c → Kept a c
Kept-trans a b c h k = record {
  shape = record {
    deliveries = h.shape.deliveries ∙ k.shape.deliveries;
    requests = h.shape.requests ∙ k.shape.requests;
    refs = h.shape.refs ∙ k.shape.refs;
    batches = h.shape.batches ∙ k.shape.batches;
  };
  keys = λ x. k.keys (h.keys x);
}

-- Deliveries that are rewritten with their keys.
pub Kept-deliveries :
    (p : Delivery → Bool) (f : Delivery → Delivery) (db : Db)
    → ((d : Delivery) → delivery_key (f d) ≡ delivery_key d)
    → Kept db (record db { deliveries = update p f db.deliveries })
Kept-deliveries p f db h = record {
  shape = record {
    deliveries = map-update delivery_key p f db.deliveries h;
    requests = refl;
    refs = refl;
    batches = refl;
  };
  keys = λ x. x;
}

any_key-set_status :
    (user : String) (key : Option String) (rid : Uuid) (st : RequestStatus) (rs : List Request)
    → any (same_key user key) (update (has_id rid) (with_status st) rs) ≡ any (same_key user key) rs
any_key-set_status user none rid st [] = refl
any_key-set_status user none rid st (r ∷ rs) =
    ground (arith, any_key-set_status user none rid st rs)
any_key-set_status user (some k) rid st [] = refl
any_key-set_status user (some k) rid st (r ∷ rs) =
    ground (arith, any_key-set_status user (some k) rid st rs)

KeysDistinct-set_status :
    (rid : Uuid) (st : RequestStatus) (rs : List Request)
    → KeysDistinct rs
    → KeysDistinct (update (has_id rid) (with_status st) rs)
KeysDistinct-set_status rid st [] h = tt
KeysDistinct-set_status rid st (r ∷ rs) h = ground (
  arith,
  any_key-set_status r.user_id r.idempotency_key rid st rs,
  KeysDistinct-set_status rid st rs h.1,
)

Kept-set_status : (rid : Uuid) (st : RequestStatus) (db : Db) → Kept db (set_status rid st db)
Kept-set_status rid st db = record {
  shape = record {
    deliveries = refl;
    requests = map-update (λ r. r.id) (has_id rid) (with_status st) db.requests (λ r. refl);
    refs = map-update (λ r. r.batch_id) (has_id rid) (with_status st) db.requests (λ r. refl);
    batches = refl;
  };
  keys = KeysDistinct-set_status rid st db.requests;
}

Kept-moved : (b : Uuid) (from to : Column) (db : Db) → Kept db (moved b from to db)
unfolding move_unit
Kept-moved b from to db = record {
  shape = record {
    deliveries = refl;
    requests = refl;
    refs = refl;
    batches =
        map-update (λ c. c.id) (λ c. c.id == b) (move_unit from to) db.batches (λ c. ground arith);
  };
  keys = λ x. x;
}

Kept-ite : {P : Type 0} (a x y : Db) (d : Dec P) → Kept a x → Kept a y → Kept a (ite d x y)
Kept-ite a x y (yes p) h k = h
Kept-ite a x y (no p) h k = k

Kept-adjusted :
    (batch : Option Uuid) (from to : RequestStatus) (db : Db) → Kept db (adjusted batch from to db)
Kept-adjusted none from to db = Kept-refl db
Kept-adjusted (some b) from to db =
    Kept-ite db _ _ (Column-discrete (bucket_column from) (bucket_column to)) (Kept-refl db)
      (Kept-moved b (bucket_column from) (bucket_column to) db)

-- A request that is refreshed, with the counters of its batch.
pub Kept-refreshed : (rid : Uuid) (r : Request) (db : Db) → Kept db (refreshed rid r db)
Kept-refreshed rid r db =
    let st = aggregate_request_status (statuses_of rid db.deliveries) in
    Kept-ite db _ _ (RequestStatus-discrete st r.status) (Kept-refl db) (
      Kept-trans db (set_status rid st db) _ (Kept-set_status rid st db)
        (Kept-adjusted r.batch_id r.status st (set_status rid st db)))
