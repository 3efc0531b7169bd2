-- ===== src/Worker/Process.antt =====
-- process.go: the pipeline for one message.
use notification_system.Prelude.{
  ℕ, zero, suc, ◌+◌, String, pos, pos_part, Bool, true, false, ◌&&◌, Option, none, some, ltb, ltb_ℤ,
  add_duration, if◌then◌else◌, ◌++◌, [], ◌∷◌,
}
use notification_system.Domain.Enums.{Channel, DeliveryStatus}
use notification_system.Domain.Errors.{Result, ok, err}
use notification_system.Domain.Models.{
  Time, Request, Delivery, StreamMessage, DlqMessage, ProviderRequest, ProviderError,
}
use notification_system.Effects.{
  called_provider, acknowledged, dead_lettered, inc_sent, inc_failed, inc_retry, inc_dlq,
}
use notification_system.Provider.{ProviderReply, accepted, refused}
use notification_system.Retry.{Floats, Policy, Outcome, evaluate_failure}
use notification_system.Store.Deliveries.{claim_delivery, mark_sent, mark_failed, mark_retrying}
use notification_system.Store.Requests.{get_request_by_id}
use notification_system.Store.Session.{
  Session, Action, pure, ◌>>=◌, ◌>>◌, clock_now, emit, external, attempt,
}
use notification_system.Worker.Defs.{Config, Ports, Answer}

-- Waiting takes time.
unfoldable pub pass : ℕ → Action (Unit {0})
pass d s = (ok tt, record s { now = s.now + d })

-- What remains of a result whose error is logged and dropped.
abbrev pub ignore : {A : Type 0} → Result A → Action (Unit {0})
ignore r = pure tt

abbrev pub is_breaker_open : Option ProviderError → Bool
is_breaker_open none = false
is_breaker_open (some e) = e.breaker_open

abbrev pub or_instant : Option Time → Time → Time
or_instant none now = now
or_instant (some t) now = t

module _ (fl : Floats) where
  pub record Worker : Type 0 where
    pub config : Config
    pub policy : Policy fl
    pub draw : ℕ → fl.Float
    pub ports : Ports

  -- The pause before the next try: the limiter's, if it is positive and shorter than the step.
  unfoldable pub pause : Worker → Answer → ℕ
  pause w a =
      if ltb_ℤ (pos 0) a.retry_after && ltb_ℤ a.retry_after w.config.rate_wait_step
      then pos_part a.retry_after
      else pos_part w.config.rate_wait_step

  -- The loop of `waitForRateLimit`; `none` means that the fuel ran out.
  unfoldable pub rate_wait : ℕ → Worker → Channel → Time → Action (Option Bool)
  rate_wait zero w channel deadline s = (ok none, s)
  rate_wait (suc fuel) w channel deadline s =
      let answer = w.ports.limiter s.tick channel in
      let t : Session = record s { tick = s.tick + 1 } in
      elim answer.allowed [
        | true ↦ (ok (some true), t)
        | false ↦ elim (ltb deadline t.now) [
          | true ↦ (ok (some false), t)
          | false ↦ rate_wait fuel w channel deadline (record t { now = t.now + pause w answer })
        ]
      ]

  -- As many rounds as there are instants up to the deadline, and two more.
  abbrev pub enough : Worker → ℕ
  enough w = pos_part w.config.rate_wait_max + 2

  -- `waitForRateLimit`
  unfoldable pub wait_for_rate_limit : Worker → Channel → Action (Option Bool)
  wait_for_rate_limit w channel s =
      rate_wait (enough w) w channel (s.now + pos_part w.config.rate_wait_max) s

  -- `requeueWithoutAttempt`
  unfoldable pub requeue_without_attempt : Worker → Delivery → String → Action (Unit {0})
  requeue_without_attempt w del reason = do
    now ← clock_now
    marked ← attempt (
        mark_retrying del.id del.created_at del.attempt_count
          (add_duration now w.config.rate_wait_step) reason)
    ignore marked

  -- The reason of a dead letter.
  abbrev pub dlq_reason : ℕ → String
  dlq_reason attempts = if ltb 0 attempts then "exhausted_retries" else "permanent_failure"

  abbrev pub dlq_message : StreamMessage → ℕ → String → Time → DlqMessage
  dlq_message msg attempts error now = record {
    original = some msg.delivery;
    reason = dlq_reason attempts;
    error = error;
    attempt_count = attempts;
    stream = msg.stream;
    entry_id = msg.id;
    timestamp = now;
  }

  abbrev pub count_dlq : String → Result (Unit {0}) → Action (Unit {0})
  count_dlq reason (ok _) = emit (inc_dlq reason)
  count_dlq reason (err e) = pure tt

  -- `publishDLQ`
  unfoldable pub publish_dlq : Worker → StreamMessage → ℕ → String → Action (Unit {0})
  publish_dlq w msg attempts error =
      if w.ports.has_dlq
      then (do
        now ← clock_now
        sent ← attempt (external "xadd dlq" (dead_lettered (dlq_message msg attempts error now)))
        count_dlq (dlq_reason attempts) sent)
      else pure tt

  -- What follows `MarkFailed`.
  unfoldable pub after_failed :
      Worker → Delivery → StreamMessage → ℕ → String → Result (Unit {0}) → Action (Unit {0})
  after_failed w del msg attempts error (ok _) =
      emit (inc_failed del.channel del.priority) >> publish_dlq w msg attempts error
  after_failed w del msg attempts error (err e) = pure tt

  abbrev pub count_retry : Delivery → Result (Unit {0}) → Action (Unit {0})
  count_retry del (ok _) = emit (inc_retry del.channel del.priority)
  count_retry del (err e) = pure tt

  -- The `switch` on the outcome's status.
  unfoldable pub store_outcome :
      Worker → Delivery → StreamMessage → String → Time → Outcome → Action (Unit {0})
  store_outcome w del msg error now o = elim o.status [
    | DeliveryStatus.failed ↦
        attempt (mark_failed del.id del.created_at del.request_id o.attempt_count error)
        >>= after_failed w del msg o.attempt_count error
    | _ ↦
        attempt (
          mark_retrying del.id del.created_at o.attempt_count (or_instant o.next_retry_at now)
            error)
        >>= count_retry del
  ]

  -- `handleFailure`
  unfoldable pub handle_failure :
      Worker → Delivery → StreamMessage → String → Option ProviderError → Action (Unit {0})
  handle_failure w del msg error perr s =
      if is_breaker_open perr
      then requeue_without_attempt w del "circuit breaker open" s
      else store_outcome w del msg error s.now
          (evaluate_failure fl w.policy (w.draw s.tick) s.now del.attempt_count perr) s

  abbrev pub count_sent : Delivery → Result (Unit {0}) → Action (Unit {0})
  count_sent del (ok _) = emit (inc_sent del.channel del.priority)
  count_sent del (err e) = pure tt

  abbrev pub provider_request : Delivery → Request → ProviderRequest
  provider_request del r = record {
    delivery_id = del.id;
    to = r.recipient;
    channel = del.channel;
    content = r.rendered_content;
  }

  -- `send`: a call that reached the provider is an event, also when it failed.
  unfoldable pub send : Worker → Delivery → Request → Action ProviderReply
  send w del r s =
      let (called, reply) = w.ports.provider s.tick (provider_request del r) in
      let events =
        if called then s.events ++ called_provider (provider_request del r) ∷ [] else s.events in
      (ok reply, record s { tick = s.tick + 1; events = events })

  unfoldable pub after_send : Worker → Delivery → StreamMessage → ProviderReply → Action (Unit {0})
  after_send w del msg (accepted res) =
      attempt (mark_sent del.id del.created_at del.request_id res.message_id) >>= count_sent del
  after_send w del msg (refused error perr) = handle_failure w del msg error perr

  unfoldable pub with_request_of :
      Worker → Delivery → StreamMessage → Result Request → Action (Unit {0})
  with_request_of w del msg (ok r) = send w del r >>= after_send w del msg
  with_request_of w del msg (err e) = pure tt

  -- What follows the wait for the rate limiter.
  unfoldable pub after_wait : Worker → Delivery → StreamMessage → Option Bool → Action (Unit {0})
  after_wait w del msg (some true) =
      attempt (get_request_by_id del.request_id) >>= with_request_of w del msg
  after_wait w del msg _ = requeue_without_attempt w del "rate limited"

  -- What follows the claim: an error or a lost race ends the work.
  unfoldable pub after_claim : Worker → StreamMessage → Result (Option Delivery) → Action (Unit {0})
  after_claim w msg (err e) = pure tt
  after_claim w msg (ok none) = pure tt
  after_claim w msg (ok (some del)) =
      wait_for_rate_limit w msg.delivery.channel >>= after_wait w del msg

  -- `process` up to its deferred acknowledgement.
  unfoldable pub handle : Worker → StreamMessage → Action (Unit {0})
  handle w msg = do
    now ← clock_now
    claim ← attempt (
        claim_delivery msg.delivery.delivery_id msg.delivery.delivery_created_at
          (add_duration now w.config.lease_ttl))
    after_claim w msg claim

  -- `process`: the entry is acknowledged whatever has happened.
  unfoldable pub process : Worker → StreamMessage → Action (Unit {0})
  process w msg = do
    handled ← attempt (handle w msg)
    acked ← attempt (external "ack" (acknowledged msg.stream msg.id))
    ignore acked
