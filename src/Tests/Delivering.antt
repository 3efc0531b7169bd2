-- ===== src/Tests/Delivering.antt =====
-- The theorems on the worker, the queue and the scheduler, at sample inputs.
use notification_system.Prelude.{
  inr, ◌+◌, ◌≤◌, ◌≡◌, refl, ◌⊎◌, true, false, none, some, List, [], ◌∷◌, ◌++◌, map, arith, count,
  String,
}
use notification_system.Domain.Errors.{ok}
use notification_system.Domain.Models.{Delivery, OutboxEntry, ProviderError}
use notification_system.Effects.{acknowledged}
use notification_system.Queue.{Unmarshalled, parsed, unparsed, RawEntry, QueueConfig, read_entries}
use notification_system.Queue.Reading.{Reads, messages, pills, is_poison, read_entries-Reads}
use notification_system.Scheduler.{relay_round}
use notification_system.Scheduler.Relay.{RoundOf, relay_round-RoundOf}
use notification_system.Store.Deliveries.{rewrite_delivery, as_retrying}
use notification_system.Store.Outbox.{unpublished, entry_of}
use notification_system.Store.Outcome.{Faulty}
use notification_system.Worker.{process, handle_failure, wait_for_rate_limit}
use notification_system.Worker.Calls.{calls}
use notification_system.Worker.Counted.{Counts, handle_failure-Counts}
use notification_system.Domain.Enums.{DeliveryStatus}
use notification_system.Worker.Handling.{process-calls_once}
use notification_system.Worker.Settled.{process-redelivered, handle_failure-breaker_open}
use notification_system.Worker.Waiting.{Decided, wait_for_rate_limit-Decided}
use notification_system.Tests.Samples.{
  order_update, first_try, to_deliver, shop, in_flight, whole_numbers, sender, entry,
}

process-calls_once_example : calls (process whole_numbers sender entry shop).1 ≤ calls shop + 1
process-calls_once_example = process-calls_once whole_numbers sender entry shop

wait_for_rate_limit-Decided_example :
    Decided whole_numbers sender 1030 (wait_for_rate_limit whole_numbers sender "sms" shop)
wait_for_rate_limit-Decided_example =
    wait_for_rate_limit-Decided whole_numbers sender "sms" shop (omega arith)

abbrev open_breaker : ProviderError
open_breaker = record {
  permanent = false;
  status_code = 0;
  retry_after = none;
  breaker_open = true;
  message = "open";
}

handle_failure-breaker_open_example :
    let t =
      (handle_failure whole_numbers sender first_try entry "open"
        (some open_breaker)
        in_flight).1 in
    (t.events ≡ in_flight.events)
    × ((t.db ≡ rewrite_delivery 2 100 (as_retrying 0 1005 "circuit breaker open" 1000) in_flight.db)
        ⊎ ((t.db ≡ in_flight.db) × Faulty in_flight))
handle_failure-breaker_open_example =
    handle_failure-breaker_open whole_numbers sender first_try entry "open" (some open_breaker)
      in_flight refl

abbrev knows_a : String → Unmarshalled
knows_a String.[] = unparsed "unexpected end of JSON input"
knows_a s = parsed to_deliver

abbrev queue : QueueConfig
queue = record { decode = knows_a; has_dlq = true; has_metrics = true }

abbrev raw_entries : List RawEntry
raw_entries =
    record { stream = "s"; id = "1-0"; payload = some "a" }
    ∷ record { stream = "s"; id = "2-0"; payload = none }
    ∷ []

read_entries-Reads_example :
    Reads
      (read_entries queue raw_entries)
      shop
      (messages queue raw_entries)
      (pills queue (count (is_poison queue) raw_entries))
read_entries-Reads_example = read_entries-Reads queue raw_entries shop

abbrev outgoing : List OutboxEntry
outgoing = record { id = 3; stream = "notif:high:sms"; message = to_deliver } ∷ []

relay_round-RoundOf_example :
    RoundOf (map entry_of (unpublished 10 shop.db.outbox)) shop (relay_round 10 shop)
relay_round-RoundOf_example = relay_round-RoundOf 10 shop

process-redelivered_example :
    let (r, t) = process whole_numbers sender entry in_flight in
    (r ≡ ok tt)
    × (t.db ≡ in_flight.db)
    × ((t.events ≡ in_flight.events ++ acknowledged "notif:high:sms" "1-0" ∷ [])
        ⊎ ((t.events ≡ in_flight.events) × (in_flight.faults (in_flight.tick + 1) ≡ true)))
process-redelivered_example =
    process-redelivered whole_numbers sender entry in_flight (inr ((λ e. cc), (λ e. cc)), tt)

abbrev held : Delivery
held = record first_try { status = DeliveryStatus.processing; locked_until = some 900 }

handle_failure-Counts_example :
    Counts whole_numbers 3 held
      (some (record open_breaker { breaker_open = false }))
      in_flight
      (handle_failure whole_numbers sender held entry "busy"
        (some (record open_breaker { breaker_open = false }))
        in_flight).1.db
handle_failure-Counts_example =
    handle_failure-Counts whole_numbers sender held entry "busy"
      (some (record open_breaker { breaker_open = false })) order_update in_flight refl refl refl
