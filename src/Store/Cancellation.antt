-- ===== src/Store/Cancellation.antt =====
-- `CancelRequest`, of postgres/request.go: what it cancels, and why it does not.
pub mod Rows
pub mod Row
use notification_system.Prelude.{
  ◌≡◌, refl, sym, subst, ap, ◌∙◌, ◌⊎◌, inl, inr, true, Option, none, some, update, count, arith,
  ◌==◌, ◌<◌, All,
}
use notification_system.Domain.Errors.{Error, not_found, cancel_not_allowed}
use notification_system.Domain.Models.{Uuid, Request}
use notification_system.Domain.Status.{aggregate_request_status}
use notification_system.Store.Atomic.{refreshed, recompute_ends}
use notification_system.Store.Outcome.{
  Outcome, Faulty, done, failed, statement_rule, or_fail_rule, if_rule, bind_rule, with_tx_rule,
  Outcome-mono,
}
use notification_system.Store.Requests.{can_cancel, as_cancelled, find_request, cancel_request}
use notification_system.Store.Session.{Db, Session}
use notification_system.Store.Tables.{statuses_of}
use notification_system.Store.Cancellation.Rows.{
  WaitsOf, CancelledRows, update-CancelledRows, none-Waits, some_wait,
}
use notification_system.Store.Cancellation.Row.{
  refreshed-deliveries, Refreshed, refreshed_row, some-injective,
}

abbrev cancelled_in : Uuid → Session → Db
cancelled_in id s = record s.db {
  deliveries = update (can_cancel id) (as_cancelled s.now) s.db.deliveries;
}

-- Why a request is not cancelled: it is not there, none of its deliveries waits, or a statement
-- fails.
abbrev pub Uncancelled : Uuid → Error → Session → Type 0
Uncancelled id e s =
    ((e ≡ not_found) × (find_request id s.db ≡ none))
    ⊎ (((e ≡ cancel_not_allowed) × All (λ d. ¬ (WaitsOf id d)) s.db.deliveries) ⊎ Faulty s)

-- What a cancellation leaves.
abbrev pub CancelledTo : Uuid → Session → Request → Session → Type 0
CancelledTo id s r t =
    CancelledRows id s.now s.db.deliveries t.db.deliveries
    × (¬ (All (λ d. ¬ (WaitsOf id d)) s.db.deliveries))
    × (find_request id t.db ≡ some r)
    × (r.status ≡ aggregate_request_status (statuses_of id t.db.deliveries))

refreshed-Cancelled :
    (id : Uuid) (q : Request) (s t : Session) (r : Request)
    → 0 < count (can_cancel id) s.db.deliveries
    → find_request id s.db ≡ some q
    → t.db ≡ refreshed id q (cancelled_in id s)
    → find_request id t.db ≡ some r
    → CancelledTo id s r t
refreshed-Cancelled id q s t r there found left again =
    let row = refreshed_row id q (cancelled_in id s) found in
    let now_there = subst (Refreshed id) (sym left) row in
    let same : now_there.0 ≡ r = some-injective (sym now_there.1 ∙ again) in
    (
      subst (CancelledRows id s.now s.db.deliveries)
          (sym (ap (λ db. db.deliveries) left ∙ refreshed-deliveries id q (cancelled_in id s)))
          (update-CancelledRows id s.now s.db.deliveries),
      some_wait id s.db.deliveries there,
      again,
      ap (λ x. x.status) (sym same) ∙ now_there.2,
    )

still_there :
    (id : Uuid) (q : Request) (s t : Session)
    → find_request id s.db ≡ some q
    → t.db ≡ refreshed id q (cancelled_in id s)
    → find_request id t.db ≡ none
    → ⊥
still_there id q s t found left missing =
    let row = subst (Refreshed id) (sym left) (refreshed_row id q (cancelled_in id s) found) in
    ground (arith, row.1, missing)

-- Cancelling a request cancels exactly those of its deliveries that are scheduled, pending or
-- retrying, of which there is at least one, leaves every other delivery as it was, and gives the
-- request the status that follows from them. Otherwise no table changes, and the request is not
-- there, none of its deliveries is in such a status, or a statement fails. A delivery that is in
-- process is not cancelled.
pub cancel_request-Cancelled :
    (id : Uuid) (s : Session)
    → Outcome (CancelledTo id s) (λ e t. (t.db ≡ s.db) × Uncancelled id e s) (cancel_request id s)
unfolding cancel_request
cancel_request-Cancelled id s =
    with_tx_rule _ s (λ _ t f e. (e, inr (inr f)))
      (bind_rule _ _ _ (
        statement_rule _ _ _ _ (λ f. (refl, inr (inr (_, f))))
          (bind_rule _ _ _ (
            or_fail_rule _ _ _
              (λ q found. bind_rule _ _ _ (
                statement_rule _ _ _ _ (λ f. (refl, inr (inr (_, f))))
                  (bind_rule _ _ _ (
                    if_rule (count (can_cancel id) s.db.deliveries == 0) _ _ _
                      (λ nothing. failed (
                        refl,
                        inr (inl (refl, none-Waits id s.db.deliveries (ground (arith, nothing)))),
                      ))
                      (λ some_there. done (
                        bind_rule _ _ _ (
                          Outcome-mono _
                            (λ _ t h. bind_rule _ _ t (
                              statement_rule _ _ _ t
                                (λ f.
                                  (refl, inr (inr (t.tick, subst (λ g. g t.tick ≡ true) h.0 f))))
                                (or_fail_rule _ _ _
                                  (λ r again. (
                                    h.0,
                                    refreshed-Cancelled id h.1.0 s t r (ground (arith, some_there))
                                        h.1.1 h.1.2 again,
                                  ))
                                  (λ missing.
                                    absurd (still_there id h.1.0 s t h.1.1 h.1.2 missing)))))
                            (λ e t h. (refl, why e (find_request id s.db) found h))
                            (recompute_ends id _))))))))
              (λ missing. (refl, inl (refl, missing)))))))
  where
    why :
        {q : Request} (e : Error) (o : Option Request)
        → o ≡ some q
        → Faulty s ⊎ (o ≡ none)
        → Uncancelled id e s
    why e o found (inl f) = inr (inr f)
    why e o found (inr missing) = absurd (ground (arith, found, missing))
