-- ===== src/Worker/Quiet.antt =====
-- The parts of the pipeline that write to no table.
use notification_system.Prelude.{ℕ, zero, suc, String, arith, ◌+◌}
use notification_system.Domain.Enums.{Channel}
use notification_system.Domain.Errors.{Result, ok, err, not_found}
use notification_system.Domain.Models.{Uuid, Time, Request, Delivery, StreamMessage}
use notification_system.Retry.{Floats}
use notification_system.Store.Requests.{get_request_by_id}
use notification_system.Store.Session.{Db}
use notification_system.Store.System.Stays.{
  Stays, query-Stays, bind-Stays, or_fail-Stays, attempt-Stays, if-Stays, clock_now-Stays,
  emit-Stays, external-Stays,
}
use notification_system.Worker.{
  Worker, pause, rate_wait, publish_dlq, after_failed, dlq_reason, count_dlq, send,
}

module _ (fl : Floats) where
  module _ (P : Db → Type 0) where
    pub rate_wait-Stays :
        (fuel : ℕ) (w : Worker fl) (channel : Channel) (deadline : Time)
        → Stays P (rate_wait fl fuel w channel deadline)
    unfolding rate_wait
    rate_wait-Stays zero w channel deadline s p = p
    rate_wait-Stays (suc fuel) w channel deadline s p = ground (
      arith,
      rate_wait-Stays fuel w channel deadline (record s {
        tick = s.tick + 1;
        now = s.now + pause fl w (w.ports.limiter s.tick channel);
      }),
    )

    pub count_dlq-Stays :
        (reason : String) (r : Result (Unit {0})) → Stays P (count_dlq fl reason r)
    count_dlq-Stays reason (ok _) = emit-Stays P _
    count_dlq-Stays reason (err e) = λ s p. p

    pub publish_dlq-Stays :
        (w : Worker fl) (msg : StreamMessage) (attempts : ℕ) (error : String)
        → Stays P (publish_dlq fl w msg attempts error)
    unfolding publish_dlq
    publish_dlq-Stays w msg attempts error =
        if-Stays P w.ports.has_dlq _ _
          (bind-Stays P _ _ (clock_now-Stays P) (λ now.
            bind-Stays P _ _ (attempt-Stays P _ (external-Stays P _ _))
              (count_dlq-Stays (dlq_reason fl attempts))))
          (λ s p. p)

    pub after_failed-Stays :
        (w : Worker fl) (del : Delivery) (msg : StreamMessage) (attempts : ℕ) (error : String)
        (r : Result (Unit {0}))
        → Stays P (after_failed fl w del msg attempts error r)
    unfolding after_failed
    after_failed-Stays w del msg attempts error (ok _) =
        bind-Stays P _ _ (emit-Stays P _) (λ _. publish_dlq-Stays w msg attempts error)
    after_failed-Stays w del msg attempts error (err e) = λ s p. p

    pub request-Stays : (id : Uuid) → Stays P (get_request_by_id id)
    unfolding get_request_by_id
    request-Stays id = bind-Stays P _ _ (query-Stays P _ _) (λ row. or_fail-Stays P row not_found)

    pub send-Stays : (w : Worker fl) (del : Delivery) (r : Request) → Stays P (send fl w del r)
    unfolding send
    send-Stays w del r s p = p
