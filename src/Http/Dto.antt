-- ===== src/Http/Dto.antt =====
-- dto.go: the bodies of the requests. `uuid.Parse` is a parameter.
use notification_system.Prelude.{
  String, Option, none, some, List, [], ◌∷◌, same_text, if◌then◌else◌,
}
use notification_system.Domain.Errors.{validation, Result, ok, err, ◌>>=◌}
use notification_system.Domain.Models.{Uuid, Time}
use notification_system.Notification.{CreateInput, BatchInput}

pub record CreateRequest : Type 0 where
  pub recipient : String
  pub channel : String
  pub priority : String
  pub content : String
  pub template_id : Option String
  pub variables : List (String × String)
  pub idempotency_key : Option String
  pub send_at : Option Time

-- The key of the body, or else that of the header; an empty one is none.
abbrev pub header_key : String → Option String
header_key header = if same_text header "" then none else some header

unfoldable pub pick_key : Option String → String → Option String
pick_key none header = header_key header
pick_key (some k) header = if same_text k "" then header_key header else some k

-- The template id, if one is given that is not empty.
unfoldable pub parse_template_id : (String → Option Uuid) → Option String → Result (Option Uuid)
parse_template_id parse none = ok none
parse_template_id parse (some text) = if same_text text "" then ok none else elim (parse text) [
  | none ↦ err (validation "template_id" "must be a valid UUID")
  | some id ↦ ok (some id)
]

-- `createRequest.toInput`; the user is set by the handler.
unfoldable pub to_input : (String → Option Uuid) → CreateRequest → String → Result CreateInput
unfolding pick_key parse_template_id
to_input parse r header = do
  template ← parse_template_id parse r.template_id
  ok (record {
    user_id = "";
    recipient = r.recipient;
    channel = r.channel;
    priority = r.priority;
    template_id = template;
    content = r.content;
    variables = r.variables;
    idempotency_key = pick_key r.idempotency_key header;
    send_at = r.send_at;
  })

pub record BatchRequest : Type 0 where
  pub idempotency_key : Option String
  pub notifications : List CreateRequest

-- The loop over the notifications; the header's key is not theirs.
unfoldable pub to_inputs : (String → Option Uuid) → List CreateRequest → Result (List CreateInput)
unfolding to_input
to_inputs parse [] = ok []
to_inputs parse (r ∷ rs) = do
  item ← to_input parse r ""
  items ← to_inputs parse rs
  ok (item ∷ items)

-- `batchRequest.toInput`
unfoldable pub batch_to_input : (String → Option Uuid) → BatchRequest → String → Result BatchInput
unfolding to_inputs pick_key
batch_to_input parse r header = do
  items ← to_inputs parse r.notifications
  ok (record { user_id = ""; idempotency_key = pick_key r.idempotency_key header; items = items })
