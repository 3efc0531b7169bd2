-- ===== src/Domain/Models.antt =====
-- internal/domain/models.go, message.go and provider.go: the rows and the messages. A UUID is a
-- number, an instant is a number of nanoseconds, a Go pointer is an `Option`.
use notification_system.Prelude.{ℕ, ℤ, String, Option, List, Bool}
use notification_system.Domain.Enums.{Channel, Priority, RequestStatus, DeliveryStatus}

abbrev pub Uuid : Type 0
Uuid = ℕ

abbrev pub Time : Type 0
Time = ℕ

pub record Batch : Type 0 where
  pub id : Uuid
  pub user_id : String
  pub idempotency_key : Option String
  pub total_count : ℕ
  pub pending_count : ℕ
  pub sent_count : ℕ
  pub failed_count : ℕ
  pub cancelled_count : ℕ
  pub created_at : Time

pub record Template : Type 0 where
  pub id : Uuid
  pub name : String
  pub channel : Channel
  pub content : String
  pub required_variables : List String
  pub created_at : Time

pub record Request : Type 0 where
  pub id : Uuid
  pub user_id : String
  pub batch_id : Option Uuid
  pub recipient : String
  pub channel : Channel
  pub priority : Priority
  pub template_id : Option Uuid
  pub rendered_content : String
  pub idempotency_key : Option String
  pub status : RequestStatus
  pub created_at : Time

pub record Delivery : Type 0 where
  pub id : Uuid
  pub request_id : Uuid
  pub channel : Channel
  pub priority : Priority
  pub status : DeliveryStatus
  pub attempt_count : ℕ
  pub provider_message_id : Option String
  pub last_error : Option String
  pub next_retry_at : Option Time
  pub locked_until : Option Time
  pub send_at : Option Time
  pub created_at : Time
  pub updated_at : Time

pub record DeliveryMessage : Type 0 where
  pub delivery_id : Uuid
  pub delivery_created_at : Time
  pub request_id : Uuid
  pub channel : Channel
  pub priority : Priority
  pub correlation_id : String

pub record DlqMessage : Type 0 where
  pub original : Option DeliveryMessage  -- the zero message where the entry could not be read
  pub reason : String
  pub error : String
  pub attempt_count : ℕ
  pub stream : String
  pub entry_id : String
  pub timestamp : Time

pub record StreamMessage : Type 0 where
  pub stream : String
  pub id : String
  pub delivery : DeliveryMessage

pub record OutboxRecord : Type 0 where
  pub id : Uuid
  pub delivery_id : Uuid
  pub delivery_created_at : Time
  pub stream : String
  pub message : DeliveryMessage

pub record BatchItem : Type 0 where
  pub request : Request
  pub delivery : Delivery
  pub outbox : Option OutboxRecord

pub record BatchResult : Type 0 where
  pub batch : Batch
  pub created_count : ℕ
  pub duplicate_count : ℕ

pub record OutboxEntry : Type 0 where
  pub id : Uuid
  pub stream : String
  pub message : DeliveryMessage

pub record ProviderRequest : Type 0 where
  pub delivery_id : Uuid
  pub to : String
  pub channel : Channel
  pub content : String

pub record ProviderResult : Type 0 where
  pub message_id : String
  pub status : String
  pub timestamp : Time

pub record ProviderError : Type 0 where
  pub permanent : Bool
  pub status_code : ℕ
  pub retry_after : Option ℤ
  pub breaker_open : Bool
  pub message : String
