-- ===== src/Notification/Input.antt =====
-- input.go: the inputs and their validation.
use Prim.Native.String.{len}
use notification_system.Prelude.{
  ℕ, String, Bool, false, not, ◌&&◌, Option, none, some, List, [], ◌∷◌, ltb, length, is_some,
  is_blank, same_text, if◌then◌else◌,
}
use notification_system.Domain.Enums.{
  Channel, Priority, channel_valid, priority_valid, channel_sms, channel_email, channel_push,
}
use notification_system.Domain.Errors.{Result, ok, err, validation, ◌>>◌}
use notification_system.Domain.Models.{Uuid, Time}

-- `maxContentLength`, 0 for a channel that the map does not hold.
unfoldable pub max_content_length : Channel → ℕ
max_content_length c =
    if same_text c channel_sms
    then 1600
    else if same_text c channel_email
    then 100000
    else if same_text c channel_push
    then 4000
    else 0

abbrev pub max_batch_size : ℕ
max_batch_size = 1000

pub record CreateInput : Type 0 where
  pub user_id : String
  pub recipient : String
  pub channel : Channel
  pub priority : Priority
  pub template_id : Option Uuid
  pub content : String
  pub variables : List (String × String)
  pub idempotency_key : Option String
  pub send_at : Option Time

-- `len(*in.IdempotencyKey) > 255`, in bytes.
abbrev pub key_too_long : Option String → Bool
key_too_long none = false
key_too_long (some k) = ltb 255 (len k)

-- `CreateInput.validate`
unfoldable pub validate : CreateInput → Result (Unit {0})
validate i =
    if is_blank i.recipient
    then err (validation "recipient" "recipient is required")
    else if not (channel_valid i.channel)
    then err (validation "channel" "channel must be one of sms, email, push")
    else if not (priority_valid i.priority)
    then err (validation "priority" "priority must be one of high, normal, low")
    else if not (is_some i.template_id) && is_blank i.content
    then err (validation "content" "either content or template_id is required")
    else if not (is_some i.template_id) && ltb (max_content_length i.channel) (len i.content)
    then err (validation "content" "content exceeds maximum length for channel")
    else if key_too_long i.idempotency_key
    then err (validation "idempotency_key" "idempotency_key too long")
    else ok tt

pub record BatchInput : Type 0 where
  pub user_id : String
  pub idempotency_key : Option String
  pub items : List CreateInput

-- The first error among the items.
unfoldable pub validate_items : List CreateInput → Result (Unit {0})
unfolding validate
validate_items [] = ok tt
validate_items (i ∷ is) = do validate i; validate_items is

-- `BatchInput.validate`
unfoldable pub validate_batch : BatchInput → Result (Unit {0})
unfolding validate_items
validate_batch b = elim b.items [
  | [] ↦ err (validation "notifications" "at least one notification is required")
  | i ∷ is ↦
      if ltb max_batch_size (length b.items)
      then err (validation "notifications" "batch exceeds maximum of 1000 notifications")
      else validate_items b.items
]
