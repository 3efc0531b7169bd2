-- ===== src/Store/Consistent/Cancelling.antt =====
-- `CancelRequest`, of postgres/request.go, and the invariant of the tables.
use notification_system.Prelude.{
  ◌<◌, ◌≡◌, refl, sym, subst, List, [], ◌∷◌, some, update, count, All, arith, ◌==◌,
}
use notification_system.Domain.Errors.{Result}
use notification_system.Domain.Models.{Uuid, Time, Request, Delivery}
use notification_system.Store.Atomic.{refreshed, recompute_ends}
use notification_system.Store.Consistent.Defs.{Consistent}
use notification_system.Store.Consistent.Progress.{Within, agrees_but}
use notification_system.Store.Consistent.Refresh.{refreshed-Consistent}
use notification_system.Store.Outcome.{
  Outcome, done, failed, statement_rule, or_fail_rule, if_rule, bind_rule, with_tx_rule,
  Outcome-mono,
}
use notification_system.Store.Requests.{
  cancellable, can_cancel, as_cancelled, find_request, cancel_request,
}
use notification_system.Store.Session.{Db, Session}

abbrev pub cancelled_in : Uuid → Session → Db
cancelled_in id s = record s.db {
  deliveries = update (can_cancel id) (as_cancelled s.now) s.db.deliveries;
}

-- Cancelling a request cancels every delivery of it that waits to be sent, of which there is at least
-- one, and gives the request the status that follows; otherwise no table changes.
pub cancel_request_ends :
    (id : Uuid) (s : Session)
    → Outcome
        (λ r t.
          (0 < count (can_cancel id) s.db.deliveries)
          × (find_request id t.db ≡ some r)
          × ((q : Request) × (find_request id s.db ≡ some q)
              × (t.db ≡ refreshed id q (cancelled_in id s))))
        (λ e t. t.db ≡ s.db)
        (cancel_request id s)
unfolding cancel_request
cancel_request_ends id s =
    with_tx_rule _ s (λ _ t f e. e)
      (bind_rule _ _ _ (
        statement_rule _ _ _ _ (λ f. refl)
          (bind_rule _ _ _ (
            or_fail_rule _ _ _
              (λ q found. bind_rule _ _ _ (
                statement_rule _ _ _ _ (λ f. refl)
                  (bind_rule _ _ _ (
                    if_rule (count (can_cancel id) s.db.deliveries == 0) _ _ _
                      (λ nothing. failed refl)
                      (λ some_there. done (
                        bind_rule _ _ _ (
                          Outcome-mono _
                            (λ _ t h. bind_rule _ _ t (
                              statement_rule _ _ _ t (λ f. refl)
                                (or_fail_rule _ _ _
                                  (λ r found_again. (h.0, (ground arith, found_again, h.1)))
                                  (λ missing. refl))))
                            (λ _ t h. refl) (recompute_ends id _))))))))
              (λ missing. refl)))))

Within-cancel :
    (id : Uuid) (now : Time) (ds : List Delivery)
    → All (Within id (can_cancel id) (as_cancelled now)) ds
unfolding cancellable
Within-cancel id now [] = tt
Within-cancel id now (d ∷ ds) = (ground arith, Within-cancel id now ds)

-- Cancelling a request keeps the tables consistent, whether or not it commits.
pub cancel_request-Consistent :
    (id : Uuid) (s : Session) → Consistent s.db → Consistent (cancel_request id s).1.db
cancel_request-Consistent id s c = settle (cancel_request id s) (cancel_request_ends id s)
  where
    settle :
        (x : Result Request × Session)
        → Outcome
            (λ r t.
              (0 < count (can_cancel id) s.db.deliveries)
              × (find_request id t.db ≡ some r)
              × ((q : Request) × (find_request id s.db ≡ some q)
                  × (t.db ≡ refreshed id q (cancelled_in id s))))
            (λ e t. t.db ≡ s.db)
            x
        → Consistent x.1.db
    settle x (done (n, again, (q, found, e))) = subst Consistent (sym e) (
        refreshed-Consistent id q (cancelled_in id s) c.distinct found
          (agrees_but id (can_cancel id) (as_cancelled s.now) s.db.deliveries s.db.requests
            (Within-cancel id s.now s.db.deliveries) c.agrees)
          c.counted)
    settle x (failed e) = subst Consistent (sym e) c
