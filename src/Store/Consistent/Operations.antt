-- ===== src/Store/Consistent/Operations.antt =====
-- The operations of delivery.go and scheduler.go, and the invariant of the tables.
use notification_system.Prelude.{
  ℕ, String, ◌≡◌, refl, ◌⊎◌, inl, inr, false, List, [], ◌∷◌, none, some, All, arith, ◌∙◌, sym,
  subst,
}
use notification_system.Domain.Enums.{is_terminal}
use notification_system.Domain.Models.{Uuid, Time, Request, Delivery}
use notification_system.Store.Atomic.{
  refreshed, Finalizes, mark_sent-Finalizes, mark_failed-Finalizes,
}
use notification_system.Store.Deliveries.{
  claimable, can_claim, claimed, claim_delivery, rewrite_delivery, as_sent, as_retrying, as_failed,
  mark_sent, mark_retrying, mark_failed,
}
use notification_system.Store.Requests.{find_request}
use notification_system.Domain.Errors.{Result}
use notification_system.Store.Due.{lease_expired, reaped, reap_stuck}
use notification_system.Store.Outcome.{Outcome, Faulty, done, failed}
use notification_system.Store.Session.{Db, Session, Action, statement}
use notification_system.Store.Tables.{has_key}
use notification_system.Store.Consistent.Defs.{Consistent}
use notification_system.Store.Consistent.Progress.{
  InProgress, Within, progress-Consistent, progress_all-Consistent, agrees_but,
}
use notification_system.Store.Consistent.Refresh.{refreshed-Consistent}

-- After one statement the invariant holds if it holds of what the statement writes.
statement-Consistent :
    {A : Type 0} (what : String) (read : Session → A) (write : Session → Db) (s : Session)
    → Consistent s.db
    → Consistent (write s)
    → Consistent (statement what read write s).1.db
unfolding statement
statement-Consistent what read write s c w = ground (arith, c, w)

can_claim_progress :
    (id : Uuid) (created lease now : Time) (d : Delivery)
    → InProgress (can_claim id created) (claimed lease now) d
unfolding claimable is_terminal
can_claim_progress id created lease now d = ground arith

-- Claiming a delivery keeps the tables consistent, whether it is won, lost or fails.
pub claim_delivery-Consistent :
    (id : Uuid) (created lease : Time) (s : Session)
    → Consistent s.db
    → Consistent (claim_delivery id created lease s).1.db
unfolding claim_delivery
claim_delivery-Consistent id created lease s c = statement-Consistent _ _ _ s c (
    progress_all-Consistent (can_claim id created) (claimed lease s.now) s.db
      (can_claim_progress id created lease s.now) c)

reaped_progress : (now : Time) (d : Delivery) → InProgress (lease_expired now) (reaped now) d
unfolding is_terminal
reaped_progress now d = ground arith

-- Reclaiming the deliveries whose lease has run out keeps the tables consistent.
pub reap_stuck-Consistent : (s : Session) → Consistent s.db → Consistent (reap_stuck s).1.db
unfolding reap_stuck
reap_stuck-Consistent s c =
    statement-Consistent _ _ _ s c
      (progress_all-Consistent (lease_expired s.now) (reaped s.now) s.db (reaped_progress s.now) c)

-- No delivery with the key is in a terminal state.
abbrev pub Unfinished : Uuid → Time → Delivery → Type 0
Unfinished id created d = (has_key id created d ≡ false) ⊎ (is_terminal d.status ≡ false)

retrying_progress :
    (id : Uuid) (created : Time) (attempts : ℕ) (next : Time) (last_err : String) (now : Time)
    (ds : List Delivery)
    → All (Unfinished id created) ds
    → All (InProgress (has_key id created) (as_retrying attempts next last_err now)) ds
unfolding is_terminal
retrying_progress id created attempts next last_err now [] h = tt
retrying_progress id created attempts next last_err now (d ∷ ds) h = (
  elim h.0 [ inl other_key ↦ inl other_key | inr going ↦ inr (going, refl, refl) ],
  retrying_progress id created attempts next last_err now ds h.1,
)

-- Recording a delivery as retrying keeps the tables consistent, though it recomputes no request, if no
-- delivery with its key is in a terminal state.
pub mark_retrying-Consistent :
    (id : Uuid) (created : Time) (attempts : ℕ) (next : Time) (last_err : String) (s : Session)
    → Consistent s.db
    → All (Unfinished id created) s.db.deliveries
    → Consistent (mark_retrying id created attempts next last_err s).1.db
unfolding mark_retrying
mark_retrying-Consistent id created attempts next last_err s c h = statement-Consistent _ _ _ s c (
    progress-Consistent (has_key id created) (as_retrying attempts next last_err s.now) s.db
      (retrying_progress id created attempts next last_err s.now s.db.deliveries h) c)

-- Whatever has the key belongs to the request.
abbrev pub Owned : Uuid → Time → Uuid → Delivery → Type 0
Owned id created rid d = (has_key id created d ≡ false) ⊎ (d.request_id ≡ rid)

Within-Owned :
    (id : Uuid) (created : Time) (rid : Uuid) (f : Delivery → Delivery) (ds : List Delivery)
    → ((d : Delivery) → (f d).request_id ≡ d.request_id)
    → All (Owned id created rid) ds
    → All (Within rid (has_key id created) f) ds
Within-Owned id created rid f [] k h = tt
Within-Owned id created rid f (d ∷ ds) k h = (
  elim h.0 [ inl other_key ↦ inl other_key | inr own ↦ inr (own, k d ∙ own) ],
  Within-Owned id created rid f ds k h.1,
)

-- A transaction that rewrites deliveries of one request and refreshes it.
Finalizes-Consistent :
    (m : Action (Unit {0})) (s : Session) (id : Uuid) (created : Time) (rid : Uuid)
    (f : Delivery → Delivery)
    → ((d : Delivery) → (f d).request_id ≡ d.request_id)
    → Finalizes m s rid (rewrite_delivery id created f s.db)
    → Consistent s.db
    → All (Owned id created rid) s.db.deliveries
    → Consistent (m s).1.db
Finalizes-Consistent m s id created rid f keep ends c own = finish (m s) ends
  where
    finish :
        (x : Result (Unit {0}) × Session)
        → Outcome
            (λ _ t.
              (r : Request) × (find_request rid (rewrite_delivery id created f s.db) ≡ some r)
              × (t.db ≡ refreshed rid r (rewrite_delivery id created f s.db)))
            (λ e t.
              (t.db ≡ s.db)
              × (Faulty s ⊎ (find_request rid (rewrite_delivery id created f s.db) ≡ none)))
            x
        → Consistent x.1.db
    finish x (done (r, found, e)) = subst Consistent (sym e) (
        refreshed-Consistent rid r (rewrite_delivery id created f s.db) c.distinct found
          (agrees_but rid (has_key id created) f s.db.deliveries s.db.requests
            (Within-Owned id created rid f s.db.deliveries keep own) c.agrees)
          c.counted)
    finish x (failed (e, _)) = subst Consistent (sym e) c

-- Recording a delivery as sent keeps the tables consistent, whether or not it commits, if every
-- delivery with its key belongs to the request: each request has the status of its deliveries, and
-- the counters of each batch count its requests.
pub mark_sent-Consistent :
    (id : Uuid) (created : Time) (rid : Uuid) (message_id : String) (s : Session)
    → Consistent s.db
    → All (Owned id created rid) s.db.deliveries
    → Consistent (mark_sent id created rid message_id s).1.db
mark_sent-Consistent id created rid message_id s c own =
    Finalizes-Consistent (mark_sent id created rid message_id) s id created rid
      (as_sent message_id s.now) (λ d. refl) (mark_sent-Finalizes id created rid message_id s) c own

-- Recording a delivery as failed keeps the tables consistent, whether or not it commits, if every
-- delivery with its key belongs to the request.
pub mark_failed-Consistent :
    (id : Uuid) (created : Time) (rid : Uuid) (attempts : ℕ) (last_err : String) (s : Session)
    → Consistent s.db
    → All (Owned id created rid) s.db.deliveries
    → Consistent (mark_failed id created rid attempts last_err s).1.db
mark_failed-Consistent id created rid attempts last_err s c own =
    Finalizes-Consistent (mark_failed id created rid attempts last_err) s id created rid
      (as_failed attempts last_err s.now) (λ d. refl)
      (mark_failed-Finalizes id created rid attempts last_err s) c own
