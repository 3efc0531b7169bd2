-- ===== src/Worker/Sound.antt =====
-- The pipeline of a message, and the invariant of the tables.
use notification_system.Prelude.{
  ℕ, String, Bool, true, false, Option, none, some, Bool-cases, inl, inr,
}
use notification_system.Domain.Enums.{Channel, DeliveryStatus}
use notification_system.Domain.Errors.{Result, ok, err}
use notification_system.Domain.Models.{Time, Request, Delivery, StreamMessage, ProviderError}
use notification_system.Provider.{ProviderReply, accepted, refused}
use notification_system.Retry.{Floats, Outcome as Verdict}
use notification_system.Store.Deliveries.{mark_sent, mark_retrying, mark_failed}
use notification_system.Store.Outcome.{Outcome, done, failed}
use notification_system.Store.Session.{Db, Session, Action, ◌>>=◌, attempt, clock_now}
use notification_system.Store.System.{
  Inv, mark_sent-Inv, mark_failed-Inv, mark_retrying-Inv, RowOf, OpenRowOf,
}
use notification_system.Store.System.Stays.{
  Stays, bind-Stays, attempt-Stays, clock_now-Stays, emit-Stays, external-Stays,
}
use notification_system.Worker.{
  Worker, wait_for_rate_limit, requeue_without_attempt, after_failed, count_retry, count_sent,
  or_instant, is_breaker_open, store_outcome, handle_failure, after_send, with_request_of,
  after_wait, after_claim, handle, process,
}
use notification_system.Worker.Held.{
  Held, HeldIf, claim_ends, Leads, Holding, bind-Leads, then-Stays, attempt-Leads,
}
use notification_system.Worker.Quiet.{
  rate_wait-Stays, after_failed-Stays, request-Stays, send-Stays,
}

module _ (fl : Floats) where
  RowOf-Held : (d : Delivery) (db : Db) → Held d db → RowOf d db
  RowOf-Held d db h = (h.0, h.1, h.2)

  OpenRowOf-Held : (d : Delivery) (db : Db) → Held d db → OpenRowOf d db
  OpenRowOf-Held d db h = (h.0, h.1, h.3)

  sent-Leads :
      (d : Delivery) (message_id : String)
      → Leads (Holding d) Inv (mark_sent d.id d.created_at d.request_id message_id)
  sent-Leads d message_id s h = mark_sent-Inv d message_id s (RowOf-Held d s.db h.1) h.0

  failed-Leads :
      (d : Delivery) (attempts : ℕ) (error : String)
      → Leads (Holding d) Inv (mark_failed d.id d.created_at d.request_id attempts error)
  failed-Leads d attempts error s h = mark_failed-Inv d attempts error s (RowOf-Held d s.db h.1) h.0

  retrying-Leads :
      (d : Delivery) (attempts : ℕ) (next : Time) (error : String)
      → Leads (Holding d) Inv (mark_retrying d.id d.created_at attempts next error)
  retrying-Leads d attempts next error s h =
      mark_retrying-Inv d attempts next error s (OpenRowOf-Held d s.db h.1) h.0

  requeue-Leads :
      (w : Worker fl) (d : Delivery) (reason : String)
      → Leads (Holding d) Inv (requeue_without_attempt fl w d reason)
  unfolding requeue_without_attempt
  requeue-Leads w d reason =
      bind-Leads (Holding d) Inv _ _ (λ db h. h.0) (clock_now-Stays (Holding d))
        (λ now.
          then-Stays (Holding d) Inv _ _ (attempt-Leads (Holding d) Inv _ (retrying-Leads d _ _ _))
            (λ r s p. p))

  give_up-Leads :
      (w : Worker fl) (d : Delivery) (msg : StreamMessage) (attempts : ℕ) (error : String)
      → Leads (Holding d) Inv (
          attempt (mark_failed d.id d.created_at d.request_id attempts error)
          >>= after_failed fl w d msg attempts error)
  give_up-Leads w d msg attempts error =
      then-Stays (Holding d) Inv _ _
        (attempt-Leads (Holding d) Inv _ (failed-Leads d attempts error))
        (after_failed-Stays fl Inv w d msg attempts error)

  retry-Leads :
      (d : Delivery) (attempts : ℕ) (next : Time) (error : String)
      → Leads
          (Holding d)
          Inv
          (attempt (mark_retrying d.id d.created_at attempts next error) >>= count_retry fl d)
  retry-Leads d attempts next error =
      then-Stays (Holding d) Inv _ _
        (attempt-Leads (Holding d) Inv _ (retrying-Leads d attempts next error)) counted
    where
      counted : (r : Result (Unit {0})) → Stays Inv (count_retry fl d r)
      counted (ok _) = emit-Stays Inv _
      counted (err e) = λ s p. p

  -- The branches of the outcome's status.
  abbrev by_status : DeliveryStatus → Action (Unit {0}) → Action (Unit {0}) → Action (Unit {0})
  by_status st lost again = elim st [ DeliveryStatus.failed ↦ lost | _ ↦ again ]

  by_status-Leads :
      (P R : Db → Type 0) (st : DeliveryStatus) (lost again : Action (Unit {0}))
      → Leads P R lost
      → Leads P R again
      → Leads P R (by_status st lost again)
  by_status-Leads P R DeliveryStatus.failed lost again h k = h
  by_status-Leads P R DeliveryStatus.scheduled lost again h k = k
  by_status-Leads P R DeliveryStatus.pending lost again h k = k
  by_status-Leads P R DeliveryStatus.processing lost again h k = k
  by_status-Leads P R DeliveryStatus.retrying lost again h k = k
  by_status-Leads P R DeliveryStatus.sent lost again h k = k
  by_status-Leads P R DeliveryStatus.cancelled lost again h k = k

  store_outcome-Leads :
      (w : Worker fl) (d : Delivery) (msg : StreamMessage) (error : String) (now : Time)
      (o : Verdict)
      → Leads (Holding d) Inv (store_outcome fl w d msg error now o)
  unfolding store_outcome
  store_outcome-Leads w d msg error now o =
      by_status-Leads (Holding d) Inv o.status _ _ (give_up-Leads w d msg o.attempt_count error)
        (retry-Leads d o.attempt_count (or_instant o.next_retry_at now) error)

  handle_failure-Leads :
      (w : Worker fl) (d : Delivery) (msg : StreamMessage) (error : String)
      (perr : Option ProviderError)
      → Leads (Holding d) Inv (handle_failure fl w d msg error perr)
  unfolding handle_failure
  handle_failure-Leads w d msg error perr s h = elim (Bool-cases (is_breaker_open perr)) [
    | inl closed ↦ rw closed (requeue-Leads w d "circuit breaker open" s h)
    | inr reached ↦ rw reached (store_outcome-Leads w d msg error s.now _ s h)
  ]

  after_send-Leads :
      (w : Worker fl) (d : Delivery) (msg : StreamMessage) (reply : ProviderReply)
      → Leads (Holding d) Inv (after_send fl w d msg reply)
  unfolding after_send
  after_send-Leads w d msg (accepted res) =
      then-Stays (Holding d) Inv _ _ (attempt-Leads (Holding d) Inv _ (sent-Leads d res.message_id))
        counted
    where
      counted : (r : Result (Unit {0})) → Stays Inv (count_sent fl d r)
      counted (ok _) = emit-Stays Inv _
      counted (err e) = λ s p. p
  after_send-Leads w d msg (refused error perr) = handle_failure-Leads w d msg error perr

  with_request_of-Leads :
      (w : Worker fl) (d : Delivery) (msg : StreamMessage) (r : Result Request)
      → Leads (Holding d) Inv (with_request_of fl w d msg r)
  unfolding with_request_of
  with_request_of-Leads w d msg (ok r) =
      bind-Leads (Holding d) Inv _ _ (λ db h. h.0) (send-Stays fl (Holding d) w d r)
        (after_send-Leads w d msg)
  with_request_of-Leads w d msg (err e) = λ s h. h.0

  after_wait-Leads :
      (w : Worker fl) (d : Delivery) (msg : StreamMessage) (allowed : Option Bool)
      → Leads (Holding d) Inv (after_wait fl w d msg allowed)
  unfolding after_wait
  after_wait-Leads w d msg (some true) =
      bind-Leads (Holding d) Inv _ _ (λ db h. h.0)
        (attempt-Stays (Holding d) _ (request-Stays fl (Holding d) d.request_id))
        (with_request_of-Leads w d msg)
  after_wait-Leads w d msg (some false) = requeue-Leads w d "rate limited"
  after_wait-Leads w d msg none = requeue-Leads w d "rate limited"

  wait-Stays :
      (P : Db → Type 0) (w : Worker fl) (channel : Channel)
      → Stays P (wait_for_rate_limit fl w channel)
  unfolding wait_for_rate_limit
  wait-Stays P w channel s p = rate_wait-Stays fl P _ w channel _ s p

  -- What follows the claim, in the tables that it leaves.
  after_claim-Inv :
      (w : Worker fl) (msg : StreamMessage) (x : Result (Option Delivery) × Session)
      → Outcome (λ o t. Inv t.db × HeldIf o t.db) (λ e t. Inv t.db) x
      → Inv (after_claim fl w msg x.0 x.1).1.db
  unfolding after_claim
  after_claim-Inv w msg (ok none, t) (done h) = h.0
  after_claim-Inv w msg (ok (some d), t) (done h) =
      bind-Leads (Holding d) Inv _ _ (λ db k. k.0) (wait-Stays (Holding d) w msg.delivery.channel)
        (after_wait-Leads w d msg) t h
  after_claim-Inv w msg (err e, t) (failed h) = h

  handle-Inv : (w : Worker fl) (msg : StreamMessage) → Stays Inv (handle fl w msg)
  unfolding handle ◌>>=◌ attempt clock_now
  handle-Inv w msg s h = after_claim-Inv w msg _ (claim_ends _ _ _ s h)

  -- Processing a message, from the claim to the acknowledgement, keeps the invariant of the tables,
  -- whatever the rate limiter and the provider answer and whichever statements fail, where no other
  -- process writes meanwhile: the worker records its result on the row that it has claimed.
  pub process-Inv :
      (w : Worker fl) (msg : StreamMessage) (s : Session) → Inv s.db → Inv (process fl w msg s).1.db
  unfolding process
  process-Inv w msg =
      bind-Stays Inv _ _ (attempt-Stays Inv _ (handle-Inv w msg))
        (λ handled. bind-Stays Inv _ _ (attempt-Stays Inv _ (external-Stays Inv _ _)) (λ r s p. p))
