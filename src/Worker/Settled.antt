-- ===== src/Worker/Settled.antt =====
-- How a message is settled: the acknowledgement, a lost claim, an open breaker and the dead letter.
use notification_system.Prelude.{
  ℕ, ◌≡◌, refl, ◌⊎◌, inl, inr, true, Bool-cases, Option, none, [], ◌∷◌, ◌++◌, arith, String, find,
  ◌≢◌, All, List, ◌+◌, false, update_unfound, add_duration,
}
use notification_system.Domain.Errors.{ok}
use notification_system.Domain.Enums.{DeliveryStatus}
use notification_system.Store.Tables.{has_key}
use notification_system.Domain.Models.{Uuid, Time, Delivery, StreamMessage, ProviderError}
use notification_system.Effects.{acknowledged}
use notification_system.Retry.{Floats, Policy, evaluate_failure, evaluate_failure_cases}
use notification_system.Store.Deliveries.{
  claimable, can_claim, claimed, claim_delivery, rewrite_delivery, as_retrying, mark_retrying,
}
use notification_system.Store.Outcome.{Faulty}
use notification_system.Store.Session.{Session, ◌>>=◌, statement, external, attempt, clock_now}
use notification_system.Worker.Process.{
  Worker, requeue_without_attempt, handle_failure, after_claim, handle, process, is_breaker_open,
  dlq_reason,
}

module _ (fl : Floats) where
  -- No worker may claim the delivery with the key: the row is another one, or neither pending nor
  -- retrying.
  abbrev pub NotWaiting : Uuid → Time → Delivery → Type 0
  NotWaiting id created d =
      (has_key id created d ≡ false)
      ⊎ ((d.status ≢ DeliveryStatus.pending) × (d.status ≢ DeliveryStatus.retrying))

  unclaimable :
      (st : DeliveryStatus)
      → st ≢ DeliveryStatus.pending
      → st ≢ DeliveryStatus.retrying
      → claimable st ≡ false
  unfolding claimable
  unclaimable DeliveryStatus.pending p r = absurd (p refl)
  unclaimable DeliveryStatus.retrying p r = absurd (r refl)
  unclaimable DeliveryStatus.scheduled p r = refl
  unclaimable DeliveryStatus.processing p r = refl
  unclaimable DeliveryStatus.sent p r = refl
  unclaimable DeliveryStatus.failed p r = refl
  unclaimable DeliveryStatus.cancelled p r = refl

  no_claim :
      (id : Uuid) (created : Time) (d : Delivery)
      → NotWaiting id created d
      → can_claim id created d ≡ false
  no_claim id created d (inl other) = rw other refl
  no_claim id created d (inr st) = ground (arith, unclaimable d.status st.0 st.1)

  none_to_claim :
      (id : Uuid) (created : Time) (ds : List Delivery)
      → All (NotWaiting id created) ds
      → find (can_claim id created) ds ≡ none
  none_to_claim id created [] h = refl
  none_to_claim id created (d ∷ ds) h =
      ground (arith, no_claim id created d h.0, none_to_claim id created ds h.1)

  -- A message for a delivery that waits for no worker, since it is sent, failed, cancelled, scheduled,
  -- in process or not there, has no effect but its acknowledgement: no table changes, nothing is
  -- sent, queued or counted, and no error is returned. The acknowledgement is missing only if its own
  -- call fails, the one that follows the claim's.
  pub process-redelivered :
      (w : Worker fl) (msg : StreamMessage) (s : Session)
      → All (NotWaiting msg.delivery.delivery_id msg.delivery.delivery_created_at) s.db.deliveries
      → let (r, t) = process fl w msg s in
        (r ≡ ok tt)
        × (t.db ≡ s.db)
        × ((t.events ≡ s.events ++ acknowledged msg.stream msg.id ∷ [])
            ⊎ ((t.events ≡ s.events) × (s.faults (s.tick + 1) ≡ true)))
  unfolding process handle claim_delivery statement external attempt clock_now ◌>>=◌ after_claim
  process-redelivered w msg s waits =
      let h = none_to_claim _ _ s.db.deliveries waits in
      let kept =
        update_unfound (can_claim msg.delivery.delivery_id msg.delivery.delivery_created_at)
          (claimed (add_duration s.now w.config.lease_ttl) s.now) s.db.deliveries h in
      elim (Bool-cases (s.faults s.tick)) [
        | inl lost ↦ elim (Bool-cases (s.faults (s.tick + 1))) [
          | inl faulty ↦ rw (lost, faulty) (refl, refl, inr (refl, refl))
          | inr fine ↦ rw (lost, fine) (refl, refl, inl refl)
        ]
        | inr asked ↦ elim (Bool-cases (s.faults (s.tick + 1))) [
          | inl faulty ↦ rw (asked, h, kept, faulty) (refl, refl, inr (refl, refl))
          | inr fine ↦ rw (asked, h, kept, fine) (refl, refl, inl refl)
        ]
      ]

  -- An open breaker costs no attempt: the delivery waits to be retried with the count that it had,
  -- and nothing but its row changes; if the statement fails, nothing does.
  pub handle_failure-breaker_open :
      (w : Worker fl) (del : Delivery) (msg : StreamMessage) (error : String)
      (perr : Option ProviderError) (s : Session)
      → is_breaker_open perr ≡ true
      → let t = (handle_failure fl w del msg error perr s).1 in
        (t.events ≡ s.events)
        × ((t.db
              ≡ rewrite_delivery del.id del.created_at
                  (as_retrying del.attempt_count
                    (add_duration s.now w.config.rate_wait_step)
                    "circuit breaker open"
                    s.now)
                  s.db)
            ⊎ ((t.db ≡ s.db) × Faulty s))
  unfolding handle_failure requeue_without_attempt mark_retrying statement attempt clock_now ◌>>=◌
  handle_failure-breaker_open w del msg error perr s h = elim (Bool-cases (s.faults s.tick)) [
    | inl faulty ↦ rw (h, faulty) (refl, inr (refl, (_, faulty)))
    | inr fine ↦ rw (h, fine) (refl, inl refl)
  ]

  -- A dead letter never says `permanent_failure`: the count that the policy returns includes the
  -- attempt that failed, so the reason is `exhausted_retries` even for a permanent error.
  pub dlq_reason-exhausted :
      (p : Policy fl) (draw : fl.Float) (now : Time) (current : ℕ) (perr : Option ProviderError)
      → dlq_reason fl (evaluate_failure fl p draw now current perr).attempt_count
        ≡ "exhausted_retries"
  dlq_reason-exhausted p draw now current perr =
      ground (arith, evaluate_failure_cases fl p draw now current perr)
