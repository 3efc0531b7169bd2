-- ===== src/Effects.antt =====
-- What the program does to the world beside the database: calls of the provider, the queue and the
-- dead-letter stream, and the counters of its metrics ports.
use notification_system.Prelude.{String, ℕ}
use notification_system.Domain.Enums.{Channel, Priority}
use notification_system.Domain.Models.{DeliveryMessage, DlqMessage, ProviderRequest}

pub data Event : Type 0 where
  called_provider : ProviderRequest → Event
  published : String → DeliveryMessage → Event
  acknowledged : String → String → Event
  dead_lettered : DlqMessage → Event
  inc_created inc_sent inc_failed inc_retry : Channel → Priority → Event
  inc_dlq : String → Event
  inc_poison : Event
  add_promoted add_reclaimed add_reconciled : ℕ → Event
  set_outbox_unpublished set_scheduler_lag : ℕ → Event
  set_queue_depth set_queue_pending : String → ℕ → Event
