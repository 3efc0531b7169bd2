-- ===== src/Tests/Cases.antt =====
-- The theorems on the use cases, the statuses and the retries, at sample inputs.
use notification_system.Prelude.{
  ◌≤◌, ◌<◌, ◌≡◌, refl, ◌⊎◌, ◌↔◌, pos, true, false, none, some, List, [], ◌∷◌, ◌==◌, find, same_text,
  is_blank,
}
use notification_system.Domain.Enums.{RequestStatus, DeliveryStatus, channel_valid, priority_valid}
use notification_system.Domain.Errors.{ok, not_found}
use notification_system.Domain.Models.{ProviderError}
use notification_system.Domain.Status.{aggregate_request_status, Rules, aggregate-Rules_iff}
use notification_system.Notification.{
  validate, max_content_length, create, replayed, get, cancel, BatchInput,
}
use notification_system.Notification.Ownership.{
  DeliveriesOf, NotOwned, Refused, cancel-NotOwned, get-owned,
}
use notification_system.Notification.Replay.{Untouched, create-replayed}
use notification_system.Notification.Validation.{Acceptable, validate-Acceptable}
use notification_system.Retry.{evaluate_failure, evaluate_failure_cases, next_retry-ge-now}
use notification_system.Store.Outcome.{Outcome, Faulty}
use notification_system.Tests.Samples.{
  order_update, shop, order_input, not_of_bob, whole_numbers, two_steps,
}

abbrev two_kinds : List DeliveryStatus
two_kinds = DeliveryStatus.sent ∷ DeliveryStatus.failed ∷ []

aggregate-Rules_iff_example :
    (aggregate_request_status two_kinds ≡ RequestStatus.partial)
    ↔ Rules two_kinds RequestStatus.partial
aggregate-Rules_iff_example = aggregate-Rules_iff two_kinds RequestStatus.partial

abbrev busy : ProviderError
busy = record {
  permanent = false;
  status_code = 429;
  retry_after = some (pos 7);
  breaker_open = false;
  message = "busy";
}

evaluate_failure_cases_example :
    let o = evaluate_failure whole_numbers two_steps 1 1000 0 (some busy) in
    (o.attempt_count ≡ 1)
    × (((o.status ≡ DeliveryStatus.failed) × (o.next_retry_at ≡ none) × ((false ≡ true) ⊎ (3 ≤ 1)))
        ⊎ ((o.status ≡ DeliveryStatus.retrying)
            × (false ≡ false)
            × (1 < 3)
            × (o.next_retry_at ≡ some 1007)))
evaluate_failure_cases_example = evaluate_failure_cases whole_numbers two_steps 1 1000 0 (some busy)

next_retry-ge-now_example : 1000 ≤ 1007
unfolding evaluate_failure
next_retry-ge-now_example =
    next_retry-ge-now whole_numbers two_steps 1 1000 0 (some busy) {t = 1007} (refl, (refl, tt))
      refl

create-replayed_example :
    Outcome
      (λ res t. (res ≡ replayed order_update) × Untouched shop t)
      (λ e t. Untouched shop t × Faulty shop)
      (create order_input "c" shop)
unfolding validate channel_valid priority_valid is_blank max_content_length
create-replayed_example = create-replayed order_input "c" "order-1" order_update shop refl refl refl

cancel-NotOwned_example : Refused shop (cancel "bob" 1 shop)
cancel-NotOwned_example = cancel-NotOwned "bob" 1 shop not_of_bob

get-owned_example :
    Outcome
      (λ v t.
        (same_text v.request.user_id "ada" ≡ true)
        × (find (λ q. q.id == 1) shop.replica.requests ≡ some v.request)
        × DeliveriesOf 1 shop.replica.deliveries v.deliveries
        × (t.db ≡ shop.db))
      (λ e t. ((e ≡ not_found) × NotOwned "ada" 1 shop) ⊎ Faulty shop)
      (get "ada" 1 shop)
get-owned_example = get-owned "ada" 1 shop

validate-Acceptable_example : (validate order_input ≡ ok tt) ↔ Acceptable order_input
validate-Acceptable_example = validate-Acceptable order_input

abbrev one_order : BatchInput
one_order = record { user_id = "ada"; idempotency_key = none; items = order_input ∷ [] }
