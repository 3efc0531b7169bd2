-- ===== src/Store/System/Steps.antt =====
-- The operations on rows that exist, and the invariant.
use notification_system.Prelude.{
  ℕ, String, false, some, List, find, map, ◌≡◌, refl, sym, subst, arith, ap, count, ◌<◌, ◌≤◌, ◌-◌,
  All,
}
use notification_system.Domain.Enums.{is_terminal}
use notification_system.Domain.Errors.{Result}
use notification_system.Domain.Models.{Uuid, Time, Request, Delivery, Batch}
use notification_system.Store.Atomic.{
  refreshed, Finalizes, mark_sent-Finalizes, mark_failed-Finalizes,
}
use notification_system.Store.Consistent.{
  claim_delivery-Consistent, reap_stuck-Consistent, mark_retrying-Consistent, mark_sent-Consistent,
  mark_failed-Consistent, cancel_request-Consistent, cancel_request_ends, cancelled_in,
  promote_due-Consistent, sweep_retries-Consistent, Owned, rewritten, Queued-Consistent,
}
use notification_system.Store.Deliveries.{
  can_claim, claimed, claim_delivery, rewrite_delivery, as_sent, as_retrying, as_failed, mark_sent,
  mark_retrying, mark_failed,
}
use notification_system.Store.Due.{
  DueRow, due_row, lease_expired, reaped, reap_stuck, promote_due, sweep_retries, in_rows,
  as_pending, pick_scheduled, pick_retries, orphans, reconcile_pending,
}
use notification_system.Store.Insertion.{KeysDistinct}
use notification_system.Store.Outcome.{Outcome, done, failed}
use notification_system.Store.Promotion.{
  Moves, Queued, promote_due-Moves, sweep_retries-Moves, reconcile_pending_ends,
}
use notification_system.Store.Requests.{can_cancel, as_cancelled, find_request, cancel_request}
use notification_system.Store.Session.{Db, Session, Action, statement}
use notification_system.Store.Tables.{has_key}
use notification_system.Store.System.Defs.{Inv, delivery_key}
use notification_system.Store.System.Keys.{
  find-Owned, find-Unfinished, pick_scheduled-Open, pick_retries-Open,
}
use notification_system.Store.System.Kept.{
  Kept, Inv-Kept, Kept-refl, Kept-trans, Kept-deliveries, Kept-refreshed,
}

statement-Kept :
    {A : Type 0} (what : String) (read : Session → A) (write : Session → Db) (s : Session)
    → Kept s.db (write s)
    → Kept s.db (statement what read write s).1.db
unfolding statement
statement-Kept what read write s k = ground (arith, Kept-refl s.db, k)

pub claim_delivery-Inv :
    (id : Uuid) (created lease : Time) (s : Session)
    → Inv s.db
    → Inv (claim_delivery id created lease s).1.db
unfolding claim_delivery
claim_delivery-Inv id created lease s h =
    Inv-Kept s.db _
      (statement-Kept _ _ _ s
        (Kept-deliveries (can_claim id created) (claimed lease s.now) s.db (λ d. refl)))
      h (claim_delivery-Consistent id created lease s h.consistent)

pub reap_stuck-Inv : (s : Session) → Inv s.db → Inv (reap_stuck s).1.db
unfolding reap_stuck
reap_stuck-Inv s h =
    Inv-Kept s.db _
      (statement-Kept _ _ _ s
        (Kept-deliveries (lease_expired s.now) (reaped s.now) s.db (λ d. refl)))
      h (reap_stuck-Consistent s h.consistent)

-- The worker's delivery is a row of the table: the one with its key, of the same request.
abbrev pub RowOf : Delivery → Db → Type 0
RowOf d db =
    (q : Delivery) × (find (has_key d.id d.created_at) db.deliveries ≡ some q)
    × (q.request_id ≡ d.request_id)

-- Moreover it is not in a terminal state: no other worker has ended it meanwhile.
abbrev pub OpenRowOf : Delivery → Db → Type 0
OpenRowOf d db =
    (q : Delivery) × (find (has_key d.id d.created_at) db.deliveries ≡ some q)
    × (is_terminal q.status ≡ false)

pub mark_retrying-Inv :
    (d : Delivery) (attempts : ℕ) (next : Time) (last_err : String) (s : Session)
    → OpenRowOf d s.db
    → Inv s.db
    → Inv (mark_retrying d.id d.created_at attempts next last_err s).1.db
unfolding mark_retrying
mark_retrying-Inv d attempts next last_err s row h =
    Inv-Kept s.db _
      (statement-Kept _ _ _ s (
        Kept-deliveries (has_key d.id d.created_at) (as_retrying attempts next last_err s.now) s.db
          (λ e. refl)))
      h
      (mark_retrying-Consistent d.id d.created_at attempts next last_err s h.consistent
        (find-Unfinished d.id d.created_at s.db.deliveries row.0 h.linked.once row.1 row.2))

Finalizes-Kept :
    (m : Action (Unit {0})) (s : Session) (id : Uuid) (created : Time) (rid : Uuid)
    (f : Delivery → Delivery)
    → ((d : Delivery) → delivery_key (f d) ≡ delivery_key d)
    → Finalizes m s rid (rewrite_delivery id created f s.db)
    → Kept s.db (m s).1.db
Finalizes-Kept m s id created rid f keep ends = settle (m s) ends
  where
    settle :
        (x : Result (Unit {0}) × Session)
        → Finalizes (λ _. x) s rid (rewrite_delivery id created f s.db)
        → Kept s.db x.1.db
    settle x (done (r, found, e)) = subst (Kept s.db) (sym e) (
        Kept-trans s.db (rewrite_delivery id created f s.db) _
          (Kept-deliveries (has_key id created) f s.db keep)
          (Kept-refreshed rid r (rewrite_delivery id created f s.db)))
    settle x (failed (e, _)) = subst (Kept s.db) (sym e) (Kept-refl s.db)

Owned-row :
    (d : Delivery) (db : Db)
    → Inv db
    → RowOf d db
    → All (Owned d.id d.created_at d.request_id) db.deliveries
Owned-row d db h row =
    subst (λ rid. All (Owned d.id d.created_at rid) db.deliveries) row.2
      (find-Owned d.id d.created_at db.deliveries row.0 h.linked.once row.1)

pub mark_sent-Inv :
    (d : Delivery) (message_id : String) (s : Session)
    → RowOf d s.db
    → Inv s.db
    → Inv (mark_sent d.id d.created_at d.request_id message_id s).1.db
mark_sent-Inv d message_id s row h =
    let m = mark_sent d.id d.created_at d.request_id message_id in
    Inv-Kept s.db _
      (Finalizes-Kept m s d.id d.created_at d.request_id (as_sent message_id s.now) (λ e. refl)
        (mark_sent-Finalizes d.id d.created_at d.request_id message_id s))
      h
      (mark_sent-Consistent d.id d.created_at d.request_id message_id s h.consistent
        (Owned-row d s.db h row))

pub mark_failed-Inv :
    (d : Delivery) (attempts : ℕ) (last_err : String) (s : Session)
    → RowOf d s.db
    → Inv s.db
    → Inv (mark_failed d.id d.created_at d.request_id attempts last_err s).1.db
mark_failed-Inv d attempts last_err s row h =
    let m = mark_failed d.id d.created_at d.request_id attempts last_err in
    Inv-Kept s.db _
      (Finalizes-Kept m s d.id d.created_at d.request_id (as_failed attempts last_err s.now)
        (λ e. refl) (mark_failed-Finalizes d.id d.created_at d.request_id attempts last_err s))
      h
      (mark_failed-Consistent d.id d.created_at d.request_id attempts last_err s h.consistent
        (Owned-row d s.db h row))

cancel-Kept : (id : Uuid) (s : Session) → Kept s.db (cancel_request id s).1.db
cancel-Kept id s = settle (cancel_request id s) (cancel_request_ends id s)
  where
    settle :
        (x : Result Request × Session)
        → Outcome
            (λ r t.
              (0 < count (can_cancel id) s.db.deliveries)
              × (find_request id t.db ≡ some r)
              × ((q : Request) × (find_request id s.db ≡ some q)
                  × (t.db ≡ refreshed id q (cancelled_in id s))))
            (λ e t. t.db ≡ s.db)
            x
        → Kept s.db x.1.db
    settle x (done (n, again, (q, found, e))) = subst (Kept s.db) (sym e) (
        Kept-trans s.db (cancelled_in id s) _
          (Kept-deliveries (can_cancel id) (as_cancelled s.now) s.db (λ d. refl))
          (Kept-refreshed id q (cancelled_in id s)))
    settle x (failed e) = subst (Kept s.db) (sym e) (Kept-refl s.db)

pub cancel_request-Inv : (id : Uuid) (s : Session) → Inv s.db → Inv (cancel_request id s).1.db
cancel_request-Inv id s h =
    Inv-Kept s.db _ (cancel-Kept id s) h (cancel_request-Consistent id s h.consistent)

-- Rows that are queued leave the other tables alone.
Queued-Kept : (due : List DueRow) (a b : Db) → Queued due a b → Kept a b
Queued-Kept due a b q = record {
  shape = record {
    deliveries = ap (map delivery_key) (sym q.1);
    requests = ap (map (λ (r : Request). r.id)) (sym q.2);
    refs = ap (map (λ (r : Request). r.batch_id)) (sym q.2);
    batches = ap (map (λ (c : Batch). c.id)) (sym q.3);
  };
  keys = λ h. subst KeysDistinct (sym q.2) h;
}

Moves-Kept :
    (pick : Time → ℕ → List Delivery → List Delivery) (limit : ℕ) (s : Session)
    (x : Result ℕ × Session)
    → Moves (λ _. x) pick limit s
    → Kept s.db x.1.db
Moves-Kept pick limit s x (done {s = t} h) =
    let picked = pick s.now limit s.db.deliveries in
    Kept-trans s.db (rewritten (in_rows picked) (as_pending s.now) s.db) t.db
      (Kept-deliveries (in_rows picked) (as_pending s.now) s.db (λ d. refl))
      (Queued-Kept (map due_row picked) _ t.db h.1)
Moves-Kept pick limit s x (failed e) = subst (Kept s.db) (sym e) (Kept-refl s.db)

pub promote_due-Inv : (limit : ℕ) (s : Session) → Inv s.db → Inv (promote_due limit s).1.db
promote_due-Inv limit s h =
    Inv-Kept s.db _
      (Moves-Kept pick_scheduled limit s (promote_due limit s) (promote_due-Moves limit s)) h
      (promote_due-Consistent limit s h.consistent
        (pick_scheduled-Open s.now limit s.db.deliveries h.linked.once))

pub sweep_retries-Inv : (limit : ℕ) (s : Session) → Inv s.db → Inv (sweep_retries limit s).1.db
sweep_retries-Inv limit s h =
    Inv-Kept s.db _
      (Moves-Kept pick_retries limit s (sweep_retries limit s) (sweep_retries-Moves limit s)) h
      (sweep_retries-Consistent limit s h.consistent
        (pick_retries-Open s.now limit s.db.deliveries h.linked.once))

pub reconcile_pending-Inv :
    (older_than limit : ℕ) (s : Session)
    → Inv s.db
    → Inv (reconcile_pending older_than limit s).1.db
reconcile_pending-Inv older_than limit s h =
    settle (reconcile_pending older_than limit s) (reconcile_pending_ends older_than limit s)
  where
    settle :
        (x : Result ℕ × Session)
        → Outcome
            (λ n t.
              (n ≤ limit)
              × Queued (map due_row (orphans (s.now - older_than) limit s.db)) s.db t.db)
            (λ e t. t.db ≡ s.db)
            x
        → Inv x.1.db
    settle x (done {s = t} k) =
        Inv-Kept s.db t.db (Queued-Kept _ s.db t.db k.1) h
          (Queued-Consistent _ s.db t.db k.1 h.consistent)
    settle x (failed e) = subst Inv (sym e) h
