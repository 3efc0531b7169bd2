-- ===== src/Tests/Runs.antt =====
-- The theorems on runs of operations, on the service and on the pipeline, at the sample tables.
use notification_system.Prelude.{refl, inl, none, some, [], ◌∷◌}
use notification_system.Domain.Enums.{DeliveryStatus}
use notification_system.Domain.Models.{Request, Delivery}
use notification_system.Notification.{BatchInput, create, create_batch}
use notification_system.Notification.Sound.{create-Inv, create_batch_service-Inv}
use notification_system.Store.Session.{Session}
use notification_system.Store.System.{Inv}
use notification_system.Store.System.Runs.{Operation, perform, Run, Run-Inv}
use notification_system.Tests.Samples.{
  order_update, first_try, at_noon, shop, in_flight, shop-Consistent, in_flight-Consistent,
  whole_numbers, sender, entry, order_input,
}
use notification_system.Worker.{process}
use notification_system.Worker.Sound.{process-Inv}

in_flight-Inv : Inv in_flight.db
in_flight-Inv = record {
  consistent = in_flight-Consistent;
  keys = (refl, tt);
  linked = record { once = (refl, tt); placed = (refl, tt); filed = (refl, tt) };
}

shop-Inv : Inv shop.db
shop-Inv = record {
  consistent = shop-Consistent;
  keys = (refl, tt);
  linked = record { once = (refl, tt); placed = (refl, tt); filed = (refl, tt) };
}

abbrev gift : Request
gift = record order_update { id = 11; batch_id = none; idempotency_key = none }

abbrev gift_try : Delivery
gift_try = record first_try { id = 12; request_id = 11 }

abbrev held_try : Delivery
held_try = record first_try { status = DeliveryStatus.processing; locked_until = some 900 }

-- The worker records that the sample delivery is sent, then a request is created and claimed.
abbrev was_sent : Operation
was_sent = Operation.record_sent held_try "m-1"

abbrev after_sent : Session
after_sent = at_noon (perform was_sent in_flight)

abbrev is_new : Operation
is_new = Operation.create_one gift gift_try none

abbrev after_new : Session
after_new = at_noon (perform is_new after_sent)

abbrev is_claimed : Operation
is_claimed = Operation.claim 12 100 1060

Run-Inv_example : Inv (perform is_claimed after_new)
Run-Inv_example =
    Run-Inv
      (Run.step
        (Run.step (Run.step Run.begin was_sent in_flight refl (held_try, refl, refl) refl) is_new
          after_sent refl ((refl, refl, inl refl), refl) refl)
        is_claimed after_new refl tt refl)
      in_flight-Inv

create-Inv_example : Inv (create order_input "c" shop).1.db
create-Inv_example = create-Inv order_input "c" shop shop-Inv

abbrev batch_input : BatchInput
batch_input = record { user_id = "ada"; idempotency_key = none; items = order_input ∷ [] }

create_batch_service-Inv_example : Inv (create_batch batch_input "c" shop).1.db
create_batch_service-Inv_example = create_batch_service-Inv batch_input "c" shop shop-Inv

process-Inv_example : Inv (process whole_numbers sender entry shop).1.db
process-Inv_example = process-Inv whole_numbers sender entry shop shop-Inv
