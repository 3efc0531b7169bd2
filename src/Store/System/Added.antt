-- ===== src/Store/System/Added.antt =====
-- A request that is added with its delivery: all of the invariant but the counters of the batches.
use notification_system.Prelude.{
  true, false, Option, none, some, List, [], ◌∷◌, ◌++◌, ◌==◌, any, map, All, ◌≡◌, refl, ap, sym,
  ◌∙◌, subst, arith, if◌then◌else◌, ◌⊎◌, inl, inr, All-append_one, All-mono, any-append_one,
}
use notification_system.Domain.Enums.{RequestStatus, DeliveryStatus}
use notification_system.Domain.Models.{Uuid, Time, Batch, Request, Delivery}
use notification_system.Domain.Status.{aggregate_request_status}
use notification_system.Store.Consistent.{Distinct, Agrees, Counted}
use notification_system.Store.Deliveries.{delivery_taken}
use notification_system.Store.Insertion.{KeysDistinct, append-KeysDistinct, key_free}
use notification_system.Store.Promotion.{append_key}
use notification_system.Store.Requests.{insertion, inserted, request_id_taken, refers}
use notification_system.Store.Session.{Db}
use notification_system.Store.Tables.{has_key, statuses_of}
use notification_system.Store.System.Defs.{
  delivery_key, same_delivery, Once, id_in, Placed, reference_in, Filed, Inv,
}

-- What `build` makes of an input: a pending request, and its delivery, which waits to be sent.
abbrev pub New : Request → Delivery → Type 0
New r d =
    (r.status ≡ RequestStatus.pending)
    × (d.request_id ≡ r.id)
    × ((d.status ≡ DeliveryStatus.pending) ⊎ (d.status ≡ DeliveryStatus.scheduled))

pub record Base (rs : List Request) (ds : List Delivery) (bs : List Batch) : Type 0 where
  pub distinct : Distinct rs
  pub agrees : All (Agrees ds) rs
  pub keys : KeysDistinct rs
  pub once : Once (map delivery_key ds)
  pub placed : Placed (map (λ (r : Request). r.id) rs) (map delivery_key ds)
  pub filed : Filed (map (λ (b : Batch). b.id) bs) (map (λ (r : Request). r.batch_id) rs)

pub Inv-Base : (db : Db) → Inv db → Base db.requests db.deliveries db.batches
Inv-Base db h = record {
  distinct = h.consistent.distinct;
  agrees = h.consistent.agrees;
  keys = h.keys;
  once = h.linked.once;
  placed = h.linked.placed;
  filed = h.linked.filed;
}

pub Base-Inv :
    (db : Db)
    → Base db.requests db.deliveries db.batches
    → All (Counted db.requests) db.batches
    → Inv db
Base-Inv db h c = record {
  consistent = record { distinct = h.distinct; agrees = h.agrees; counted = c };
  keys = h.keys;
  linked = record { once = h.once; placed = h.placed; filed = h.filed };
}

Distinct-append :
    (rs : List Request) (r : Request)
    → Distinct rs
    → any (λ q. q.id == r.id) rs ≡ false
    → Distinct (rs ++ r ∷ [])
Distinct-append [] r d h = (refl, tt)
Distinct-append (q ∷ rs) r d h =
    ground (arith, any-append_one (λ x. x.id == q.id) rs r, Distinct-append rs r d.1)

id_in-any :
    (k rid : Uuid) (rs : List Request)
    → any (λ q. q.id == rid) rs ≡ false
    → id_in (map (λ (r : Request). r.id) rs) k ≡ true
    → (k == rid) ≡ false
id_in-any k rid [] h p = cc
id_in-any k rid (q ∷ rs) h p = ground (arith, id_in-any k rid rs)

-- No delivery belongs to a request that does not exist.
statuses_none :
    (rid : Uuid) (rs : List Request) (ds : List Delivery)
    → any (λ q. q.id == rid) rs ≡ false
    → Placed (map (λ (r : Request). r.id) rs) (map delivery_key ds)
    → statuses_of rid ds ≡ []
statuses_none rid rs [] h p = refl
statuses_none rid rs (d ∷ ds) h p =
    ground (arith, id_in-any d.request_id rid rs, statuses_none rid rs ds h p.1)

statuses-append :
    (rid : Uuid) (ds : List Delivery) (d : Delivery)
    → statuses_of rid (ds ++ d ∷ [])
      ≡ statuses_of rid ds ++ (if d.request_id == rid then d.status ∷ [] else [])
statuses-append rid [] d = ground arith
statuses-append rid (e ∷ ds) d = ground (arith, statuses-append rid ds d)

append_nothing : {A : Type 0} (xs : List A) → xs ++ [] ≡ xs
append_nothing [] = refl
append_nothing (x ∷ xs) = ap (λ l. x ∷ l) (append_nothing xs)

Agrees-old :
    (ds : List Delivery) (d : Delivery) (rid : Uuid) (rs : List Request)
    → any (λ q. q.id == rid) rs ≡ false
    → d.request_id ≡ rid
    → All (Agrees ds) rs
    → All (Agrees (ds ++ d ∷ [])) rs
Agrees-old ds d rid [] h e a = tt
Agrees-old ds d rid (q ∷ rs) h e a = (
  ground (arith, statuses-append q.id ds d, append_nothing (statuses_of q.id ds)),
  Agrees-old ds d rid rs (ground arith) e a.1,
)

single_pending :
    (st : DeliveryStatus)
    → (st ≡ DeliveryStatus.pending) ⊎ (st ≡ DeliveryStatus.scheduled)
    → aggregate_request_status (st ∷ []) ≡ RequestStatus.pending
unfolding aggregate_request_status
single_pending st (inl e) = rw e refl
single_pending st (inr e) = rw e refl

Agrees-New :
    (r : Request) (d : Delivery) (rs : List Request) (ds : List Delivery)
    → New r d
    → any (λ q. q.id == r.id) rs ≡ false
    → Placed (map (λ (r : Request). r.id) rs) (map delivery_key ds)
    → Agrees (ds ++ d ∷ []) r
Agrees-New r d rs ds new h p =
    ground (
      arith,
      statuses-append r.id ds d,
      statuses_none r.id rs ds h p,
      single_pending d.status new.2,
    )

any-keys :
    (id : Uuid) (created : Time) (ds : List Delivery)
    → any (same_delivery id created) (map delivery_key ds) ≡ any (has_key id created) ds
any-keys id created [] = refl
any-keys id created (d ∷ ds) = ground (arith, any-keys id created ds)

Once-append :
    (ks : List (Uuid × Time × Uuid)) (k : Uuid × Time × Uuid)
    → Once ks
    → any (same_delivery k.0 k.1) ks ≡ false
    → Once (ks ++ k ∷ [])
Once-append [] k o h = (refl, tt)
Once-append (j ∷ ks) k o h =
    ground (arith, any-append_one (same_delivery j.0 j.1) ks k, Once-append ks k o.1)

pub id_in-append :
    (ids : List Uuid) (i k : Uuid) → id_in ids k ≡ true → id_in (ids ++ i ∷ []) k ≡ true
id_in-append ids i k h = ground (arith, any-append_one (λ j. j == k) ids i)

id_in_last : (ids : List Uuid) (i k : Uuid) → k ≡ i → id_in (ids ++ i ∷ []) k ≡ true
id_in_last ids i k e = ground (arith, any-append_one (λ j. j == k) ids i)

pub any-ids :
    (id : Uuid) (bs : List Batch)
    → any (λ b. b.id == id) bs ≡ id_in (map (λ (b : Batch). b.id) bs) id
any-ids id [] = refl
any-ids id (b ∷ bs) = ground (arith, any-ids id bs)

reference_holds :
    (o : Option Uuid) (bs : List Batch)
    → refers (λ id b. b.id == id) o bs ≡ true
    → reference_in (map (λ (b : Batch). b.id) bs) o ≡ true
reference_holds none bs h = refl
reference_holds (some id) bs h = sym (any-ids id bs) ∙ h

Placed-append :
    (ids : List Uuid) (i : Uuid) (ks : List (Uuid × Time × Uuid)) (k : Uuid × Time × Uuid)
    → k.2 ≡ i
    → Placed ids ks
    → Placed (ids ++ i ∷ []) (ks ++ k ∷ [])
Placed-append ids i ks k e h =
    All-append_one _ ks k (All-mono ks (λ j p. id_in-append ids i j.2 p) h) (id_in_last ids i k.2 e)

id_free : (r : Request) (db : Db) → insertion r db ≡ inserted → request_id_taken r.id db ≡ false
id_free r db e = ground arith

batch_there :
    (r : Request) (db : Db)
    → insertion r db ≡ inserted
    → refers (λ id b. b.id == id) r.batch_id db.batches ≡ true
batch_there r db e = ground arith

-- The request and its delivery, added.
pub Base-added :
    (r : Request) (d : Delivery) (db : Db)
    → New r d
    → insertion r db ≡ inserted
    → delivery_taken d db ≡ false
    → Base db.requests db.deliveries db.batches
    → Base (db.requests ++ r ∷ []) (db.deliveries ++ d ∷ []) db.batches
Base-added r d db new free untaken h =
    let fresh = id_free r db free in
    let key = delivery_key d in
    let ids = map (λ (q : Request). q.id) db.requests in
    record {
      distinct = Distinct-append db.requests r h.distinct fresh;
      agrees =
          All-append_one (Agrees (db.deliveries ++ d ∷ [])) db.requests r
            (Agrees-old db.deliveries d r.id db.requests fresh new.1 h.agrees)
            (Agrees-New r d db.requests db.deliveries new fresh h.placed);
      keys = append-KeysDistinct db.requests r h.keys (key_free r db free);
      once = subst Once (sym (append_key delivery_key db.deliveries d)) (
          Once-append (map delivery_key db.deliveries) key h.once
            (any-keys d.id d.created_at db.deliveries ∙ untaken));
      placed =
          subst (λ k. Placed k (map delivery_key (db.deliveries ++ d ∷ [])))
            (sym (append_key (λ (q : Request). q.id) db.requests r))
            (subst (Placed (ids ++ r.id ∷ [])) (sym (append_key delivery_key db.deliveries d))
              (Placed-append ids r.id (map delivery_key db.deliveries) key new.1 h.placed));
      filed =
          subst (Filed (map (λ (b : Batch). b.id) db.batches))
            (sym (append_key (λ (q : Request). q.batch_id) db.requests r))
            (All-append_one _ (map (λ (q : Request). q.batch_id) db.requests) r.batch_id h.filed
              (reference_holds r.batch_id db.batches (batch_there r db free)));
    }
