-- ===== src/Domain/Enums.antt =====
-- internal/domain/enums.go. Channels and priorities are texts, as in Go. The statuses, which the
-- code takes from its constants only, are enumerations.
use Prim.Native.String.{◌++◌ as ◌+++◌}
use notification_system.Prelude.{String, Bool, true, false, ◌||◌, List, [], ◌∷◌, same_text}

abbrev pub Channel : Type 0
Channel = String

abbrev pub channel_sms : Channel
channel_sms = "sms"

abbrev pub channel_email : Channel
channel_email = "email"

abbrev pub channel_push : Channel
channel_push = "push"

abbrev pub all_channels : List Channel
all_channels = channel_sms ∷ channel_email ∷ channel_push ∷ []

-- `Channel.Valid`
unfoldable pub channel_valid : Channel → Bool
channel_valid c = same_text c channel_sms || same_text c channel_email || same_text c channel_push

abbrev pub Priority : Type 0
Priority = String

abbrev pub priority_high : Priority
priority_high = "high"

abbrev pub priority_normal : Priority
priority_normal = "normal"

abbrev pub priority_low : Priority
priority_low = "low"

-- From the most to the least urgent.
abbrev pub all_priorities : List Priority
all_priorities = priority_high ∷ priority_normal ∷ priority_low ∷ []

-- `Priority.Valid`
unfoldable pub priority_valid : Priority → Bool
priority_valid p =
    same_text p priority_high || same_text p priority_normal || same_text p priority_low

-- `RequestStatus`, with the prefix of the constants left off.
pub data RequestStatus : Type 0 where
  pending partial sent failed cancelled : RequestStatus

unfoldable pub RequestStatus-discrete : Discrete RequestStatus
RequestStatus-discrete = hlevel

-- The texts of the constants, which the columns and the responses hold.
abbrev pub status_text : RequestStatus → String
status_text RequestStatus.pending = "PENDING"
status_text RequestStatus.partial = "PARTIAL"
status_text RequestStatus.sent = "SENT"
status_text RequestStatus.failed = "FAILED"
status_text RequestStatus.cancelled = "CANCELLED"

-- `DeliveryStatus`, with the prefix of the constants left off.
pub data DeliveryStatus : Type 0 where
  scheduled pending processing retrying sent failed cancelled : DeliveryStatus

unfoldable pub DeliveryStatus-discrete : Discrete DeliveryStatus
DeliveryStatus-discrete = hlevel

abbrev pub delivery_status_text : DeliveryStatus → String
delivery_status_text DeliveryStatus.scheduled = "SCHEDULED"
delivery_status_text DeliveryStatus.pending = "PENDING"
delivery_status_text DeliveryStatus.processing = "PROCESSING"
delivery_status_text DeliveryStatus.retrying = "RETRYING"
delivery_status_text DeliveryStatus.sent = "SENT"
delivery_status_text DeliveryStatus.failed = "FAILED"
delivery_status_text DeliveryStatus.cancelled = "CANCELLED"

unfoldable pub is_terminal : DeliveryStatus → Bool
is_terminal DeliveryStatus.sent = true
is_terminal DeliveryStatus.failed = true
is_terminal DeliveryStatus.cancelled = true
is_terminal _ = false

-- `Stream`: "notifications.<priority>.<channel>"
unfoldable pub stream : Priority → Channel → String
stream p c = "notifications." +++ (p +++ ("." +++ c))
