-- ===== src/Tests/Samples.antt =====
-- A small set of tables, a session and a worker.
use notification_system.Prelude.{
  ℕ, ◌+◌, ◌-◌, ◌*◌, String, pos, pos_part, ◌≡◌, refl, subst, same_text, true, false, none, some, [],
  ◌∷◌, ◌==◌,
}
use notification_system.Domain.Enums.{RequestStatus, DeliveryStatus}
use notification_system.Domain.Models.{
  Batch, Request, Delivery, DeliveryMessage, StreamMessage, ProviderRequest,
}
use notification_system.Domain.Status.{aggregate_request_status}
use notification_system.Notification.{CreateInput}
use notification_system.Notification.Ownership.{NotOwned}
use notification_system.Provider.{ProviderReply, accepted}
use notification_system.Retry.{Floats, Policy}
use notification_system.Store.Consistent.{Consistent}
use notification_system.Store.Batches.{bucket_column}
use notification_system.Store.Session.{OutboxRow, Db, Session}
use notification_system.Worker.{Worker}

abbrev pub order_update : Request
order_update = record {
  id = 1;
  user_id = "ada";
  batch_id = some 7;
  recipient = "+90";
  channel = "sms";
  priority = "high";
  template_id = none;
  rendered_content = "shipped";
  idempotency_key = some "order-1";
  status = RequestStatus.pending;
  created_at = 100;
}

abbrev pub first_try : Delivery
first_try = record {
  id = 2;
  request_id = 1;
  channel = "sms";
  priority = "high";
  status = DeliveryStatus.pending;
  attempt_count = 0;
  provider_message_id = none;
  last_error = none;
  next_retry_at = none;
  locked_until = none;
  send_at = none;
  created_at = 100;
  updated_at = 100;
}

abbrev pub orders : Batch
orders = record {
  id = 7;
  user_id = "ada";
  idempotency_key = none;
  total_count = 1;
  pending_count = 1;
  sent_count = 0;
  failed_count = 0;
  cancelled_count = 0;
  created_at = 90;
}

abbrev pub to_deliver : DeliveryMessage
to_deliver = record {
  delivery_id = 2;
  delivery_created_at = 100;
  request_id = 1;
  channel = "sms";
  priority = "high";
  correlation_id = "c";
}

abbrev pub queued_row : OutboxRow
queued_row = record {
  id = 3;
  delivery_id = 2;
  delivery_created_at = 100;
  stream = "notif:high:sms";
  payload = to_deliver;
  created_at = 100;
  published_at = none;
}

-- The tables with one delivery.
abbrev pub tables : Delivery → Db
tables d = record {
  batches = orders ∷ [];
  templates = [];
  requests = order_update ∷ [];
  deliveries = d ∷ [];
  outbox = queued_row ∷ [];
}

abbrev pub at_noon : Db → Session
at_noon db = record {
  db = db;
  replica = db;
  now = 1000;
  faults = λ n. false;
  tick = 0;
  uuids = λ n. n + 50;
  drawn = 0;
  events = [];
}

abbrev pub shop : Session
shop = at_noon (tables first_try)

abbrev pub scheduled_shop : Session
scheduled_shop =
    at_noon (tables (record first_try { status = DeliveryStatus.scheduled; send_at = some 900 }))

abbrev pub retrying_shop : Session
retrying_shop =
    at_noon
      (tables (record first_try { status = DeliveryStatus.retrying; next_retry_at = some 900 }))

abbrev pub in_flight : Session
in_flight =
    at_noon
      (tables (record first_try { status = DeliveryStatus.processing; locked_until = some 900 }))

pub shop-Consistent : Consistent shop.db
unfolding aggregate_request_status bucket_column
shop-Consistent = record {
  distinct = (refl, tt);
  agrees = (refl, tt);
  counted =
      (record { total = refl; pending = refl; sent = refl; failed = refl; cancelled = refl }, tt);
}

pub in_flight-Consistent : Consistent in_flight.db
unfolding aggregate_request_status bucket_column
in_flight-Consistent = record {
  distinct = (refl, tt);
  agrees = (refl, tt);
  counted =
      (record { total = refl; pending = refl; sent = refl; failed = refl; cancelled = refl }, tt);
}

pub scheduled_shop-Consistent : Consistent scheduled_shop.db
unfolding aggregate_request_status bucket_column
scheduled_shop-Consistent = record {
  distinct = (refl, tt);
  agrees = (refl, tt);
  counted =
      (record { total = refl; pending = refl; sent = refl; failed = refl; cancelled = refl }, tt);
}

-- Whole numbers in place of floating-point ones.
abbrev pub whole_numbers : Floats
whole_numbers = record {
  Float = ℕ;
  one = 1;
  two = 2;
  le_zero = λ f. f == 0;
  of_duration = pos_part;
  to_duration = pos;
  add = λ a b. a + b;
  sub = λ a b. a - b;
  mul = λ a b. a * b;
}

abbrev pub two_steps : Policy whole_numbers
two_steps = record { max_attempts = 3; backoff = pos 10 ∷ pos 60 ∷ []; jitter_ratio = 1 }

abbrev pub told : ProviderRequest → ProviderReply
told r = accepted (record { message_id = "m-1"; status = "accepted"; timestamp = 1000 })

abbrev pub sender : Worker whole_numbers
sender = record {
  config = record {
    priorities = "high" ∷ [];
    channels = "sms" ∷ [];
    concurrency = pos 1;
    consumer = "w";
    batch_size = pos 1;
    lease_ttl = pos 60;
    block_time = pos 5;
    rate_wait_max = pos 30;
    rate_wait_step = pos 5;
  };
  policy = two_steps;
  draw = λ n. 1;
  ports = record {
    provider = λ n r. (true, told r);
    limiter = λ n c. record { allowed = true; retry_after = pos 0 };
    has_dlq = true;
  };
}

abbrev pub entry : StreamMessage
entry = record { stream = "notif:high:sms"; id = "1-0"; delivery = to_deliver }

abbrev pub order_input : CreateInput
order_input = record {
  user_id = "ada";
  recipient = "+90";
  channel = "sms";
  priority = "high";
  template_id = none;
  content = "shipped";
  variables = [];
  idempotency_key = some "order-1";
  send_at = none;
}

pub not_of_bob : NotOwned "bob" 1 shop
not_of_bob r found =
    subst
      (λ o. same_text (elim o as (λ _. String) [ none ↦ "" | some q ↦ q.user_id ]) "bob" ≡ false)
      found refl
