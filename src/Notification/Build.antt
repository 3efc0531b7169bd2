-- ===== src/Notification/Build.antt =====
-- `build`: the rows of one notification.
use notification_system.Prelude.{String, Bool, false, Option, none, some, ltb, if◌then◌else◌}
use notification_system.Domain.Enums.{RequestStatus, DeliveryStatus, stream}
use notification_system.Domain.Models.{Uuid, Time, Request, Delivery, OutboxRecord}
use notification_system.Notification.Input.{CreateInput}
use notification_system.Store.Session.{Action, pure, ◌>>=◌, new_uuid, clock_now}
use notification_system.Template.{render}

pub record BuiltNotification : Type 0 where
  pub request : Request
  pub delivery : Delivery
  pub outbox : Option OutboxRecord

-- `in.SendAt != nil && in.SendAt.After(now)`
abbrev pub is_future : Option Time → Time → Bool
is_future none now = false
is_future (some t) now = ltb now t

-- The content of the request: rendered, or as given.
unfoldable pub content_of : CreateInput → Action String
content_of i = elim i.template_id [
  | none ↦ pure i.content
  | some t ↦ render t i.channel i.variables >>= λ r. pure r.1
]

abbrev pub built_request : CreateInput → Option Uuid → String → Uuid → Time → Request
built_request i batch_id content request_id now = record {
  id = request_id;
  user_id = i.user_id;
  batch_id = batch_id;
  recipient = i.recipient;
  channel = i.channel;
  priority = i.priority;
  template_id = i.template_id;
  rendered_content = content;
  idempotency_key = i.idempotency_key;
  status = RequestStatus.pending;
  created_at = now;
}

abbrev pub built_delivery : CreateInput → Uuid → Uuid → Time → Delivery
built_delivery i request_id delivery_id now =
    let future = is_future i.send_at now in
    record {
      id = delivery_id;
      request_id = request_id;
      channel = i.channel;
      priority = i.priority;
      status = if future then DeliveryStatus.scheduled else DeliveryStatus.pending;
      attempt_count = 0;
      provider_message_id = none;
      last_error = none;
      next_retry_at = none;
      locked_until = none;
      send_at = if future then i.send_at else none;
      created_at = now;
      updated_at = now;
    }

abbrev pub built_outbox : CreateInput → Uuid → Uuid → Uuid → Time → String → OutboxRecord
built_outbox i outbox_id request_id delivery_id now correlation = record {
  id = outbox_id;
  delivery_id = delivery_id;
  delivery_created_at = now;
  stream = stream i.priority i.channel;
  message = record {
    delivery_id = delivery_id;
    delivery_created_at = now;
    request_id = request_id;
    channel = i.channel;
    priority = i.priority;
    correlation_id = correlation;
  };
}

-- The outbox row of an immediate send; none for a future one.
unfoldable pub outbox_of : CreateInput → Uuid → Uuid → Time → String → Action (Option OutboxRecord)
outbox_of i request_id delivery_id now correlation =
    if is_future i.send_at now
    then pure none
    else (new_uuid >>= λ outbox_id.
        pure (some (built_outbox i outbox_id request_id delivery_id now correlation)))

-- `build`; the correlation id is the one in the request's context.
unfoldable pub build : CreateInput → Option Uuid → String → Action BuiltNotification
unfolding content_of outbox_of
build i batch_id correlation = do
  content ← content_of i
  now ← clock_now
  request_id ← new_uuid
  delivery_id ← new_uuid
  outbox ← outbox_of i request_id delivery_id now correlation
  pure (record {
    request = built_request i batch_id content request_id now;
    delivery = built_delivery i request_id delivery_id now;
    outbox = outbox;
  })
