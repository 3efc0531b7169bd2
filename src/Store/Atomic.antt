-- ===== src/Store/Atomic.antt =====
-- How `withTx` and the transactions of postgres/delivery.go end.
use notification_system.Prelude.{ℕ, ◌+◌, String, ◌≡◌, refl, ◌⊎◌, inl, inr, Option, none, some, ite}
use notification_system.Domain.Enums.{RequestStatus, RequestStatus-discrete}
use notification_system.Domain.Errors.{Error, Result, ok, err}
use notification_system.Domain.Models.{Uuid, Time, Request}
use notification_system.Domain.Status.{aggregate_request_status}
use notification_system.Store.Batches.{Column-discrete, bucket_column, moved, adjust_batch_counters}
use notification_system.Store.Deliveries.{
  set_status, adjust_if, store_status, recompute_request_status, rewrite_delivery, as_sent,
  as_failed, mark_sent, mark_failed,
}
use notification_system.Store.Requests.{find_request}
use notification_system.Store.Session.{Db, Session, Action, pure, exec, ◌>>◌, with_tx, roll_back}
use notification_system.Store.Outcome.{
  Outcome, Faulty, stepped, statement_rule, or_fail_rule, bind_rule, with_tx_rule, Outcome-mono,
  done,
}
use notification_system.Store.Tables.{statuses_of}

roll_back-err :
    {A : Type 0} (db : Db) (x : Result A × Session) {e : Error}
    → (roll_back db x).0 ≡ err e
    → (roll_back db x).1.db ≡ db
roll_back-err db (ok a, t) h = cc
roll_back-err db (err e, t) h = refl

-- A transaction that returns an error, from wherever in it, has changed no table.
pub with_tx_rolls_back :
    {A : Type 0} (body : Action A) (s : Session) {e : Error}
    → (with_tx body s).0 ≡ err e
    → (with_tx body s).1.db ≡ s.db
unfolding with_tx
with_tx_rolls_back body s = roll_back-err s.db _

-- The tables after the counters of a request's batch, if it has one, have been moved.
abbrev pub adjusted : Option Uuid → RequestStatus → RequestStatus → Db → Db
adjusted none from to db = db
adjusted (some b) from to db =
    ite (Column-discrete (bucket_column from) (bucket_column to)) db
      (moved b (bucket_column from) (bucket_column to) db)

-- The tables after a request that was found has been given the status of its deliveries.
abbrev pub refreshed : Uuid → Request → Db → Db
refreshed rid r db =
    let new_status = aggregate_request_status (statuses_of rid db.deliveries) in
    ite (RequestStatus-discrete new_status r.status) db
      (adjusted r.batch_id r.status new_status (set_status rid new_status db))

-- Only a fault stops the action; otherwise the tables given are left.
abbrev pub Leaves : Action (Unit {0}) → Session → Db → Type 0
Leaves m s db = Outcome (λ _ t. (t.faults ≡ s.faults) × (t.db ≡ db)) (λ e t. Faulty s) (m s)

ite-Leaves :
    {P : Type 0} (d : Dec P) (m n : Action (Unit {0})) (s : Session) (x y : Db)
    → Leaves m s x
    → Leaves n s y
    → Leaves (ite d m n) s (ite d x y)
ite-Leaves (yes p) m n s x y h k = h
ite-Leaves (no p) m n s x y h k = k

adjust-Leaves :
    (batch : Option Uuid) (from to : RequestStatus) (s : Session)
    → Leaves (adjust_if batch from to) s (adjusted batch from to s.db)
unfolding adjust_if adjust_batch_counters
adjust-Leaves none from to s = done (refl, refl)
adjust-Leaves (some b) from to s =
    let from_col = bucket_column from in
    let to_col = bucket_column to in
    let change = λ (t : Session). moved b from_col to_col t.db in
    ite-Leaves (Column-discrete from_col to_col) (pure tt) (exec "adjust batch counters" change) s
      s.db (change s) (done (refl, refl))
      (statement_rule "adjust batch counters" (λ _. tt) change s (λ f. (s.tick, f)) (refl, refl))

store_status-Leaves :
    (rid : Uuid) (r : Request) (new_status : RequestStatus) (s : Session)
    → Leaves (store_status rid r new_status) s (
        ite
          (RequestStatus-discrete new_status r.status)
          s.db
          (adjusted r.batch_id r.status new_status (set_status rid new_status s.db)))
unfolding store_status
store_status-Leaves rid r new_status s =
    let change = λ (t : Session). set_status rid new_status t.db in
    let adjust = adjust_if r.batch_id r.status new_status in
    ite-Leaves (RequestStatus-discrete new_status r.status) (pure tt)
      (exec "update request status" change >> adjust) s s.db
      (adjusted r.batch_id r.status new_status (change s)) (done (refl, refl))
      (bind_rule (exec "update request status" change) (λ _. adjust) s
        (statement_rule "update request status" (λ _. tt) change s (λ f. (s.tick, f))
          (adjust-Leaves r.batch_id r.status new_status (stepped s (change s)))))

-- The request gets the status of its deliveries, unless a statement fails or it is not there.
pub recompute_ends :
    (rid : Uuid) (s : Session)
    → Outcome
        (λ _ t.
          (t.faults ≡ s.faults)
          × ((r : Request) × (find_request rid s.db ≡ some r) × (t.db ≡ refreshed rid r s.db)))
        (λ e t. Faulty s ⊎ (find_request rid s.db ≡ none))
        (recompute_request_status rid s)
unfolding recompute_request_status
recompute_ends rid s = bind_rule _ _ s (
    statement_rule _ _ _ s (λ f. inl (s.tick, f))
      (bind_rule _ _ _ (
        or_fail_rule _ _ _
          (λ r found. bind_rule _ _ _ (
            statement_rule _ _ _ _ (λ f. inl (s.tick + 1, f))
              (Outcome-mono _ (λ _ t k. (k.0, (r, found, k.1))) (λ _ t k. inl k)
                (store_status-Leaves rid r _ _))))
          (λ missing. inr missing))))

-- How a transaction ends that rewrites deliveries and then refreshes their request: it commits both,
-- or it changes nothing, because a statement failed or the request is not there.
abbrev pub Finalizes : Action (Unit {0}) → Session → Uuid → Db → Type 0
Finalizes m s rid written =
    Outcome
      (λ _ t.
        (r : Request) × (find_request rid written ≡ some r) × (t.db ≡ refreshed rid r written))
      (λ e t. (t.db ≡ s.db) × (Faulty s ⊎ (find_request rid written ≡ none))) (m s)

finalizes :
    (what : String) (write : Session → Db) (rid : Uuid) (s : Session)
    → Finalizes
        (with_tx (exec what write >> recompute_request_status rid))
        s
        rid
        (write (stepped s s.db))
finalizes what write rid s =
    with_tx_rule (exec what write >> recompute_request_status rid) s (λ _ t f e. (e, inl f))
      (bind_rule (exec what write) (λ _. recompute_request_status rid) _
        (statement_rule what (λ _. tt) write _ (λ f. (refl, inl (s.tick + 1, f)))
          (Outcome-mono _ (λ _ t k. (k.0, k.1)) (λ _ t k. (refl, k)) (recompute_ends rid _))))

-- Recording a delivery as sent either commits the row together with the request's new status and the
-- batch's counters, or changes nothing, and then because a statement failed or the request is not
-- there.
pub mark_sent-Finalizes :
    (id : Uuid) (created : Time) (rid : Uuid) (message_id : String) (s : Session)
    → Finalizes
        (mark_sent id created rid message_id)
        s
        rid
        (rewrite_delivery id created (as_sent message_id s.now) s.db)
unfolding mark_sent
mark_sent-Finalizes id created rid message_id s =
    finalizes "mark sent" (λ t. rewrite_delivery id created (as_sent message_id t.now) t.db) rid s

pub mark_failed-Finalizes :
    (id : Uuid) (created : Time) (rid : Uuid) (attempts : ℕ) (last_err : String) (s : Session)
    → Finalizes
        (mark_failed id created rid attempts last_err)
        s
        rid
        (rewrite_delivery id created (as_failed attempts last_err s.now) s.db)
unfolding mark_failed
mark_failed-Finalizes id created rid attempts last_err s =
    finalizes "mark failed"
      (λ t. rewrite_delivery id created (as_failed attempts last_err t.now) t.db) rid s
