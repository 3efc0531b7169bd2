-- ===== src/Tests/Tables.antt =====
-- The theorems on the tables, at the sample tables.
use notification_system.Prelude.{◌-◌, ◌≤◌, ◌≡◌, none, some, [], ◌∷◌, map}
use notification_system.Domain.Models.{Request}
use notification_system.Store.Atomic.{Finalizes, mark_sent-Finalizes}
use notification_system.Store.Claims.{wins, wins-le-1}
use notification_system.Store.Cancellation.{CancelledTo, Uncancelled, cancel_request-Cancelled}
use notification_system.Store.Deliveries.{as_sent, rewrite_delivery, mark_sent}
use notification_system.Store.Due.{due_row, orphans, pick_scheduled, promote_due, reconcile_pending}
use notification_system.Store.Insertion.{created, create_notification_atomic}
use notification_system.Store.Outcome.{Outcome}
use notification_system.Store.Promotion.{Moves, Queued, promote_due-Moves, reconcile_pending_ends}
use notification_system.Store.Requests.{insertion, inserted, create_notification, cancel_request}
use notification_system.Tests.Samples.{order_update, first_try, shop, scheduled_shop, in_flight}

wins-le-1_example : wins 2 100 (1060 ∷ 1070 ∷ []) shop ≤ 1
wins-le-1_example = wins-le-1 2 100 (1060 ∷ 1070 ∷ []) shop

cancel_request-Cancelled_example :
    Outcome
      (CancelledTo 1 shop)
      (λ e t. (t.db ≡ shop.db) × Uncancelled 1 e shop)
      (cancel_request 1 shop)
cancel_request-Cancelled_example = cancel_request-Cancelled 1 shop

mark_sent-Finalizes_example :
    Finalizes
      (mark_sent 2 100 1 "m-1")
      in_flight
      1
      (rewrite_delivery 2 100 (as_sent "m-1" 1000) in_flight.db)
mark_sent-Finalizes_example = mark_sent-Finalizes 2 100 1 "m-1" in_flight

abbrev second_order : Request
second_order = record order_update { id = 11; idempotency_key = some "order-2"; batch_id = none }

create_notification_atomic_example :
    Outcome
      (λ _ t.
        (insertion second_order shop.db ≡ inserted)
        × (t.db
            ≡ created second_order
                (record first_try { id = 12; request_id = 11 })
                none
                1000
                shop.db))
      (λ e t. t.db ≡ shop.db)
      (create_notification second_order (record first_try { id = 12; request_id = 11 }) none shop)
create_notification_atomic_example =
    create_notification_atomic second_order (record first_try { id = 12; request_id = 11 }) none
      shop

promote_due-Moves_example : Moves (promote_due 10) pick_scheduled 10 scheduled_shop
promote_due-Moves_example = promote_due-Moves 10 scheduled_shop

reconcile_pending_ends_example :
    Outcome
      (λ n t. (n ≤ 10) × Queued (map due_row (orphans (1000 - 300) 10 shop.db)) shop.db t.db)
      (λ e t. t.db ≡ shop.db)
      (reconcile_pending 300 10 shop)
reconcile_pending_ends_example = reconcile_pending_ends 300 10 shop
