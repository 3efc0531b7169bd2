-- ===== src/Queue/Defs.antt =====
-- internal/adapters/redis: the streams, their consumer group and the dead-letter stream. Redis is the
-- environment: a read brings the raw entries, and the codec of the messages is a parameter.
use Prim.Native.String.{◌++◌ as ◌+++◌}
use notification_system.Prelude.{
  ℕ, same_text, String, Bool, Option, none, some, List, [], ◌∷◌, if◌then◌else◌, ◌++◌,
}
use notification_system.Domain.Errors.{Result, ok, err, other}
use notification_system.Domain.Models.{Time, DeliveryMessage, StreamMessage, DlqMessage}
use notification_system.Effects.{published, acknowledged, dead_lettered, inc_dlq, inc_poison}
use notification_system.Store.Session.{
  query, Action, pure, ◌>>=◌, ◌>>◌, clock_now, emit, external, attempt,
}

-- An entry as Redis delivers it; `data` is its field of that name, if it is a text.
pub record RawEntry : Type 0 where
  pub stream : String
  pub id : String
  pub payload : Option String

-- What `json.Unmarshal` makes of a text: a message, or the text of its error.
pub data Unmarshalled : Type 0 where
  parsed : DeliveryMessage → Unmarshalled
  unparsed : String → Unmarshalled

-- How a queue is set up.
pub record QueueConfig : Type 0 where
  pub decode : String → Unmarshalled
  pub has_dlq : Bool
  pub has_metrics : Bool

-- The length of a stream and its entries that are delivered and not acknowledged, at each tick.
pub record StreamSizes : Type 0 where
  pub length : ℕ → String → ℕ
  pub unacknowledged : ℕ → String → ℕ

-- `isBusyGroup`
abbrev pub is_busy_group : String → Bool
is_busy_group e = same_text e "BUSYGROUP Consumer Group name already exists"

-- `EnsureGroup`: what comes of the error of XGROUP CREATE, if it has one.
unfoldable pub ensure_group : String → Option String → Result (Unit {0})
ensure_group stream none = ok tt
ensure_group stream (some e) =
    if is_busy_group e then ok tt else err (other ("ensure group " +++ (stream +++ (": " +++ e))))

-- `Depth`
unfoldable pub depth : StreamSizes → String → Action ℕ
depth sizes stream = query "xlen" (λ s. sizes.length s.tick stream)

-- `Pending`
unfoldable pub pending : StreamSizes → String → Action ℕ
pending sizes stream = query "xpending" (λ s. sizes.unacknowledged s.tick stream)

-- `Queue.Publish`
unfoldable pub publish : String → DeliveryMessage → Action (Unit {0})
publish stream msg = external "xadd" (published stream msg)

-- `Queue.Ack`
unfoldable pub ack : String → String → Action (Unit {0})
ack stream id = external "xack" (acknowledged stream id)

abbrev pub poison_message : RawEntry → String → String → Time → DlqMessage
poison_message e reason error now = record {
  original = none;
  reason = reason;
  error = error;
  attempt_count = 0;
  stream = e.stream;
  entry_id = e.id;
  timestamp = now;
}

abbrev dropped : Result (Unit {0}) → Action (Unit {0})
dropped r = pure tt

-- `dropPoison`: errors are dropped too.
unfoldable pub drop_poison : QueueConfig → RawEntry → String → String → Action (Unit {0})
drop_poison q e reason error = do
  now ← clock_now
  sent ← attempt (
      if q.has_dlq
      then external "xadd dlq" (dead_lettered (poison_message e reason error now))
      else pure tt)
  if q.has_metrics then (emit inc_poison >> emit (inc_dlq "poison_pill")) else pure tt
  acked ← attempt (ack e.stream e.id)
  dropped acked

abbrev pub message_of : RawEntry → DeliveryMessage → StreamMessage
message_of e dm = record { stream = e.stream; id = e.id; delivery = dm }

-- What one entry decodes to, or why it does not.
pub data Decoded : Type 0 where
  message : DeliveryMessage → Decoded
  poison : String → String → Decoded

unfoldable pub decode_entry : QueueConfig → RawEntry → Decoded
decode_entry q e = elim e.payload [
  | none ↦ poison "missing_data_field" "stream entry missing data field"
  | some raw ↦ elim (q.decode raw) [
    | unparsed error ↦ poison "invalid_json" error
    | parsed dm ↦ message dm
  ]
]

-- The body of the loop of `Read`: the message, if the entry holds one.
unfoldable pub read_entry : QueueConfig → RawEntry → Action (List StreamMessage)
read_entry q e = elim (decode_entry q e) [
  | message dm ↦ pure (message_of e dm ∷ [])
  | poison reason error ↦ drop_poison q e reason error >> pure []
]

-- The loop of `Queue.Read` over the entries of one reply.
unfoldable pub read_entries : QueueConfig → List RawEntry → Action (List StreamMessage)
read_entries q [] = pure []
read_entries q (e ∷ es) = do first ← read_entry q e; rest ← read_entries q es; pure (first ++ rest)
