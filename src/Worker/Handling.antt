-- ===== src/Worker/Handling.antt =====
-- How often `process`, of worker/process.go, calls the provider.
use notification_system.Prelude.{
  ℕ, suc, ◌+◌, ◌≤◌, ◌≡◌, refl, Bool, true, false, Option, none, some, [], ◌∷◌, arith, count-append,
  if◌then◌else◌, String,
}
use notification_system.Domain.Errors.{Result, ok, err}
use notification_system.Domain.Models.{Uuid, Time, Request, Delivery, StreamMessage, ProviderError}
use notification_system.Domain.Enums.{Channel, DeliveryStatus}
use notification_system.Effects.{Event, called_provider, inc_retry}
use notification_system.Provider.{ProviderReply, accepted, refused}
use notification_system.Retry.{Floats, Outcome, evaluate_failure}
use notification_system.Store.Session.{Session, Action, pure, ◌>>=◌, emit, attempt, clock_now}
use notification_system.Store.Deliveries.{claim_delivery, mark_failed, mark_retrying}
use notification_system.Store.Requests.{get_request_by_id}
use notification_system.Worker.Calls.{
  Calls, calls, is_call, Calls-bind, Calls-chain, Calls-attempt, Calls-pure, Calls-emit,
  Calls-external, Calls-statement, Calls-or_fail, Calls-mark_sent, Calls-mark_failed,
}
use notification_system.Worker.Process.{
  Worker, pause, rate_wait, wait_for_rate_limit, requeue_without_attempt, publish_dlq, after_failed,
  store_outcome, handle_failure, send, after_send, with_request_of, after_wait, after_claim, handle,
  process, enough, is_breaker_open, provider_request,
}

Calls-clock_now : Calls 0 clock_now
unfolding Calls clock_now
Calls-clock_now s = omega arith

Calls-mark_retrying :
    (id : Uuid) (created : Time) (n : ℕ) (next : Time) (e : String)
    → Calls 0 (mark_retrying id created n next e)
unfolding mark_retrying
Calls-mark_retrying id created n next e = Calls-statement _ _ _

Calls-if :
    (b : Bool) (m n : Action (Unit {0})) → Calls 0 m → Calls 0 n → Calls 0 (if b then m else n)
Calls-if true m n h k = h
Calls-if false m n h k = k

-- A counter that goes up unless there was an error.
Calls-counted :
    (r : Result (Unit {0})) (e : Event)
    → is_call e ≡ false
    → Calls 0 (elim r as (λ _. Action (Unit {0})) [ ok x ↦ emit e | err e' ↦ pure tt ])
Calls-counted (ok x) e h = Calls-emit e h
Calls-counted (err e') e h = Calls-pure tt

Calls-switch :
    (st : DeliveryStatus) (m n : Action (Unit {0}))
    → Calls 0 m
    → Calls 0 n
    → Calls 0 (elim st as (λ _. Action (Unit {0})) [ DeliveryStatus.failed ↦ m | _ ↦ n ])
Calls-switch DeliveryStatus.failed m n h k = h
Calls-switch _ m n h k = k

module _ (fl : Floats) where
  Calls-rate_wait :
      (fuel : ℕ) (w : Worker fl) (channel : Channel) (deadline : Time)
      → Calls 0 (rate_wait fl fuel w channel deadline)
  unfolding Calls rate_wait
  Calls-rate_wait ℕ.zero w channel deadline s = omega arith
  Calls-rate_wait (suc fuel) w channel deadline s =
      let answer = w.ports.limiter s.tick channel in
      let next : Session = record s { tick = s.tick + 1; now = s.now + pause fl w answer } in
      ground (arith, Calls-rate_wait fuel w channel deadline next)

  Calls-wait_for_rate_limit :
      (w : Worker fl) (channel : Channel) → Calls 0 (wait_for_rate_limit fl w channel)
  unfolding Calls wait_for_rate_limit
  Calls-wait_for_rate_limit w channel s = Calls-rate_wait (enough fl w) w channel _ s

  Calls-requeue :
      (w : Worker fl) (del : Delivery) (reason : String)
      → Calls 0 (requeue_without_attempt fl w del reason)
  unfolding requeue_without_attempt
  Calls-requeue w del reason = Calls-chain _ _ Calls-clock_now (λ now.
      Calls-chain _ _ (Calls-attempt 0 _ (Calls-mark_retrying _ _ _ _ _)) (λ r. Calls-pure tt))

  Calls-publish_dlq :
      (w : Worker fl) (msg : StreamMessage) (n : ℕ) (e : String)
      → Calls 0 (publish_dlq fl w msg n e)
  unfolding publish_dlq
  Calls-publish_dlq w msg n e =
      Calls-if w.ports.has_dlq _ _
        (Calls-chain _ _ Calls-clock_now (λ now.
          Calls-chain _ _ (Calls-attempt 0 _ (Calls-external _ _ refl))
            (λ sent. Calls-counted sent _ refl)))
        (Calls-pure tt)

  Calls-after_failed :
      (w : Worker fl) (del : Delivery) (msg : StreamMessage) (n : ℕ) (e : String)
      (r : Result (Unit {0}))
      → Calls 0 (after_failed fl w del msg n e r)
  unfolding after_failed
  Calls-after_failed w del msg n e (ok x) =
      Calls-chain _ _ (Calls-emit _ refl) (λ _. Calls-publish_dlq w msg n e)
  Calls-after_failed w del msg n e (err e') = Calls-pure tt

  Calls-store_failed :
      (w : Worker fl) (del : Delivery) (msg : StreamMessage) (n : ℕ) (e : String)
      → Calls 0 (
          attempt (mark_failed del.id del.created_at del.request_id n e)
          >>= after_failed fl w del msg n e)
  Calls-store_failed w del msg n e =
      Calls-chain _ _ (Calls-attempt 0 _ (Calls-mark_failed _ _ _ _ _))
        (Calls-after_failed w del msg n e)

  Calls-store_retrying :
      (del : Delivery) (n : ℕ) (next : Time) (e : String)
      → Calls 0 (
          attempt (mark_retrying del.id del.created_at n next e) >>= (λ r.
            elim r as (λ _. Action (Unit {0})) [
              | ok x ↦ emit (inc_retry del.channel del.priority)
              | err e' ↦ pure tt
            ]))
  Calls-store_retrying del n next e =
      Calls-chain _ _ (Calls-attempt 0 _ (Calls-mark_retrying _ _ _ _ _))
        (λ r. Calls-counted r _ refl)

  Calls-store_outcome :
      (w : Worker fl) (del : Delivery) (msg : StreamMessage) (e : String) (now : Time) (o : Outcome)
      → Calls 0 (store_outcome fl w del msg e now o)
  unfolding store_outcome
  Calls-store_outcome w del msg e now o =
      Calls-switch o.status _ _ (Calls-store_failed w del msg o.attempt_count e)
        (Calls-store_retrying del o.attempt_count _ e)

  Calls-handle_failure :
      (w : Worker fl) (del : Delivery) (msg : StreamMessage) (e : String)
      (perr : Option ProviderError)
      → Calls 0 (handle_failure fl w del msg e perr)
  unfolding Calls handle_failure
  Calls-handle_failure w del msg e perr s = by_breaker (is_breaker_open perr)
    where
      o : Outcome
      o = evaluate_failure fl w.policy (w.draw s.tick) s.now del.attempt_count perr

      by_breaker :
          (b : Bool)
          → calls
              (if b
                then requeue_without_attempt fl w del "circuit breaker open" s
                else store_outcome fl w del msg e s.now o s).1
            ≤ calls s + 0
      by_breaker true = Calls-requeue w del "circuit breaker open" s
      by_breaker false = Calls-store_outcome w del msg e s.now o s

  Calls-send : (w : Worker fl) (del : Delivery) (r : Request) → Calls 1 (send fl w del r)
  unfolding Calls send
  Calls-send w del r s =
      ground
        (arith, count-append is_call s.events (called_provider (provider_request fl del r) ∷ []))

  Calls-after_send :
      (w : Worker fl) (del : Delivery) (msg : StreamMessage) (reply : ProviderReply)
      → Calls 0 (after_send fl w del msg reply)
  unfolding after_send
  Calls-after_send w del msg (accepted res) =
      Calls-chain _ _ (Calls-attempt 0 _ (Calls-mark_sent _ _ _ _)) (λ r. Calls-counted r _ refl)
  Calls-after_send w del msg (refused e perr) = Calls-handle_failure w del msg e perr

  Calls-more : {A : Type 0} (m : Action A) → Calls 0 m → Calls 1 m
  unfolding Calls
  Calls-more m h s = omega (arith, h s)

  Calls-with_request_of :
      (w : Worker fl) (del : Delivery) (msg : StreamMessage) (r : Result Request)
      → Calls 1 (with_request_of fl w del msg r)
  unfolding with_request_of
  Calls-with_request_of w del msg (ok r) =
      Calls-bind 1 0 _ _ (Calls-send w del r) (Calls-after_send w del msg)
  Calls-with_request_of w del msg (err e) = Calls-more _ (Calls-pure tt)

  Calls-after_wait :
      (w : Worker fl) (del : Delivery) (msg : StreamMessage) (b : Option Bool)
      → Calls 1 (after_wait fl w del msg b)
  unfolding after_wait get_request_by_id
  Calls-after_wait w del msg (some true) =
      Calls-bind 0 1 _ _
        (Calls-attempt 0 _ (Calls-chain _ _ (Calls-statement _ _ _) (λ o. Calls-or_fail o _)))
        (Calls-with_request_of w del msg)
  Calls-after_wait w del msg (some false) = Calls-more _ (Calls-requeue w del _)
  Calls-after_wait w del msg none = Calls-more _ (Calls-requeue w del _)

  Calls-after_claim :
      (w : Worker fl) (msg : StreamMessage) (r : Result (Option Delivery))
      → Calls 1 (after_claim fl w msg r)
  unfolding after_claim
  Calls-after_claim w msg (err e) = Calls-more _ (Calls-pure tt)
  Calls-after_claim w msg (ok none) = Calls-more _ (Calls-pure tt)
  Calls-after_claim w msg (ok (some del)) =
      Calls-bind 0 1 _ _ (Calls-wait_for_rate_limit w _) (Calls-after_wait w del msg)

  Calls-handle : (w : Worker fl) (msg : StreamMessage) → Calls 1 (handle fl w msg)
  unfolding handle claim_delivery
  Calls-handle w msg = Calls-bind 0 1 _ _ Calls-clock_now (λ now.
      Calls-bind 0 1 _ _ (Calls-attempt 0 _ (Calls-statement _ _ _)) (Calls-after_claim w msg))

  -- Handling a message calls the provider at most once, whatever the database, the rate limiter and
  -- the provider answer.
  pub process-calls_once :
      (w : Worker fl) (msg : StreamMessage) (s : Session)
      → calls (process fl w msg s).1 ≤ calls s + 1
  unfolding Calls process
  process-calls_once w msg = Calls-bind 1 0 _ _ (Calls-attempt 1 _ (Calls-handle w msg)) (λ handled.
      Calls-chain _ _ (Calls-attempt 0 _ (Calls-external _ _ refl)) (λ acked. Calls-pure tt))
