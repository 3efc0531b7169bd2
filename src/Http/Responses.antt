-- ===== src/Http/Responses.antt =====
-- dto.go: the bodies of the responses, and what a request, a delivery and a batch look like in them.
use notification_system.Prelude.{ℕ, String, Option, List, [], ◌∷◌}
use notification_system.Domain.Enums.{status_text, delivery_status_text}
use notification_system.Domain.Models.{Uuid, Time, Request, Delivery, Batch}

pub record DeliveryResponse : Type 0 where
  pub id : Uuid
  pub status : String
  pub attempt_count : ℕ
  pub provider_message_id : Option String
  pub last_error : Option String
  pub next_retry_at : Option Time
  pub send_at : Option Time
  pub updated_at : Time

pub record NotificationResponse : Type 0 where
  pub id : Uuid
  pub batch_id : Option Uuid
  pub recipient : String
  pub channel : String
  pub priority : String
  pub status : String
  pub content : String
  pub created_at : Time
  pub deliveries : List DeliveryResponse

-- `toNotificationSummaryResponse`
unfoldable pub to_notification_summary_response : Request → NotificationResponse
to_notification_summary_response r = record {
  id = r.id;
  batch_id = r.batch_id;
  recipient = r.recipient;
  channel = r.channel;
  priority = r.priority;
  status = status_text r.status;
  content = "";
  created_at = r.created_at;
  deliveries = [];
}

abbrev pub delivery_response : Delivery → DeliveryResponse
delivery_response d = record {
  id = d.id;
  status = delivery_status_text d.status;
  attempt_count = d.attempt_count;
  provider_message_id = d.provider_message_id;
  last_error = d.last_error;
  next_retry_at = d.next_retry_at;
  send_at = d.send_at;
  updated_at = d.updated_at;
}

abbrev pub delivery_responses : List Delivery → List DeliveryResponse
delivery_responses [] = []
delivery_responses (d ∷ ds) = delivery_response d ∷ delivery_responses ds

-- `toNotificationResponse`
unfoldable pub to_notification_response : Request → List Delivery → NotificationResponse
unfolding to_notification_summary_response
to_notification_response r ds = record (to_notification_summary_response r) {
  content = r.rendered_content;
  deliveries = delivery_responses ds;
}

pub record BatchResponse : Type 0 where
  pub id : Uuid
  pub total_count : ℕ
  pub pending_count : ℕ
  pub sent_count : ℕ
  pub failed_count : ℕ
  pub cancelled_count : ℕ
  pub created_at : Time

-- `toBatchResponse`
unfoldable pub to_batch_response : Batch → BatchResponse
to_batch_response b = record {
  id = b.id;
  total_count = b.total_count;
  pending_count = b.pending_count;
  sent_count = b.sent_count;
  failed_count = b.failed_count;
  cancelled_count = b.cancelled_count;
  created_at = b.created_at;
}

pub record ListResponse : Type 0 where
  pub items : List NotificationResponse
  pub next_cursor : Option String
