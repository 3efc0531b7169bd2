-- ===== src/Store/System/Created.antt =====
-- `CreateNotification` and the invariant.
use notification_system.Prelude.{
  false, Option, none, some, List, [], ◌∷◌, ◌++◌, All-mono, ◌≡◌, refl, sym, subst, arith,
  count-append, points_to,
}
use notification_system.Domain.Errors.{Result}
use notification_system.Domain.Models.{Uuid, Time, Batch, Request, Delivery, OutboxRecord}
use notification_system.Store.Batches.{pending_count, sent_count, failed_count, cancelled_count}
use notification_system.Store.Consistent.{Counted, counts_in}
use notification_system.Store.Deliveries.{delivery_taken}
use notification_system.Store.Insertion.{
  created, add_outbox, add_delivery, add_request, create_notification_ends,
}
use notification_system.Store.Outcome.{Outcome, done, failed}
use notification_system.Store.Requests.{insertion, inserted, create_notification}
use notification_system.Store.Session.{Db, Session}
use notification_system.Store.System.Defs.{Inv}
use notification_system.Store.System.Added.{New, Inv-Base, Base-Inv, Base-added}

-- A request that is in none of the rows' batches leaves their counters right.
pub Counted-other :
    (b : Batch) (r : Request) (rs : List Request)
    → points_to r.batch_id b.id ≡ false
    → Counted rs b
    → Counted (rs ++ r ∷ []) b
Counted-other b r rs out h = record {
  total = ground (arith, count-append (λ q. points_to q.batch_id b.id) rs (r ∷ []), h.total);
  pending = ground (arith, count-append (counts_in b.id pending_count) rs (r ∷ []), h.pending);
  sent = ground (arith, count-append (counts_in b.id sent_count) rs (r ∷ []), h.sent);
  failed = ground (arith, count-append (counts_in b.id failed_count) rs (r ∷ []), h.failed);
  cancelled =
      ground (arith, count-append (counts_in b.id cancelled_count) rs (r ∷ []), h.cancelled);
}

without_batch : (o : Option Uuid) (id : Uuid) → o ≡ none → points_to o id ≡ false
without_batch o id e = rw e refl

-- The outbox does not matter to the invariant.
pub Inv-outbox :
    (o : Option OutboxRecord) (now : Time) (db : Db) → Inv db → Inv (add_outbox o now db)
Inv-outbox none now db h = h
Inv-outbox (some o) now db h = Base-Inv _ (Inv-Base db h) h.consistent.counted

created-Inv :
    (r : Request) (d : Delivery) (o : Option OutboxRecord) (now : Time) (db : Db)
    → New r d
    → r.batch_id ≡ none
    → insertion r db ≡ inserted
    → delivery_taken d db ≡ false
    → Inv db
    → Inv (created r d o now db)
created-Inv r d o now db new alone free untaken h =
    Inv-outbox o now (add_delivery d (add_request r db)) (
      Base-Inv _ (Base-added r d db new free untaken (Inv-Base db h)) (
        All-mono db.batches
          (λ b c. Counted-other b r db.requests (without_batch r.batch_id b.id alone) c)
          h.consistent.counted))

-- Creating a notification outside of a batch keeps the invariant.
pub create_notification-Inv :
    (r : Request) (d : Delivery) (o : Option OutboxRecord) (s : Session)
    → New r d
    → r.batch_id ≡ none
    → Inv s.db
    → Inv (create_notification r d o s).1.db
create_notification-Inv r d o s new alone h =
    settle (create_notification r d o s) (create_notification_ends r d o s)
  where
    settle :
        (x : Result (Unit {0}) × Session)
        → Outcome
            (λ _ t.
              (insertion r s.db ≡ inserted)
              × (delivery_taken d s.db ≡ false)
              × (t.db ≡ created r d o s.now s.db))
            (λ e t. t.db ≡ s.db)
            x
        → Inv x.1.db
    settle x (done (free, untaken, e)) =
        subst Inv (sym e) (created-Inv r d o s.now s.db new alone free untaken h)
    settle x (failed e) = subst Inv (sym e) h
