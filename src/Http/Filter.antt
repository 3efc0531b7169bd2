-- ===== src/Http/Filter.antt =====
-- handlers.go: the filter of a listing, from the parameters of the query. A parameter that is absent
-- is an empty text; `time.Parse` is a parameter of the model.
use notification_system.Prelude.{
  ℤ, pos, String, Bool, Option, none, some, same_text, if◌then◌else◌, ltb, atoi,
}
use notification_system.Domain.Enums.{Channel, channel_valid}
use notification_system.Domain.Errors.{validation, Result, ok, err, ◌>>=◌, ◌>>◌}
use notification_system.Domain.Models.{Uuid, Time}
use notification_system.Domain.Query.{ListFilter, normalize}
use notification_system.Http.Cursor.{Codecs, decode_cursor}

-- `url.Values.Get`
abbrev pub Query : Type 0
Query = String → String

-- A parameter that is read only where it is not empty.
unfoldable pub optional : {A : Type 0} → (String → Result A) → String → Result (Option A)
optional read text =
    if same_text text "" then ok none else elim (read text) [ ok a ↦ ok (some a) | err e ↦ err e ]

abbrev pub read_channel : String → Result Channel
read_channel c = if channel_valid c then ok c else err (validation "channel" "invalid channel")

-- `parseQueryTime`, with the field's complaint.
abbrev pub read_time : (String → Option Time) → String → String → String → Result Time
read_time parse field message text = elim (parse text) [
  | none ↦ err (validation field message)
  | some t ↦ ok t
]

abbrev pub out_of_order : Option Time → Option Time → Bool
out_of_order (some from) (some to) = ltb to from
out_of_order (some from) none = Bool.false
out_of_order none to = Bool.false

-- `parseInt`
abbrev pub read_limit : String → Result ℤ
read_limit text = elim (atoi text) [
  | none ↦ err (validation "limit" "must be an integer")
  | some n ↦ ok n
]

abbrev pub limit_or_zero : Option ℤ → ℤ
limit_or_zero none = pos 0
limit_or_zero (some n) = n

abbrev pub read_cursor : Codecs → String → Result (Uuid × Time)
read_cursor c token = elim (decode_cursor c token) [
  | none ↦ err (validation "cursor" "invalid cursor")
  | some key ↦ ok key
]

abbrev pub key_id : Option (Uuid × Time) → Option Uuid
key_id none = none
key_id (some key) = some key.0

abbrev pub key_at : Option (Uuid × Time) → Option Time
key_at none = none
key_at (some key) = some key.1

abbrev pub from_message : String
from_message = "must be an RFC3339 datetime (e.g. 2026-06-10T00:00:00Z)"

abbrev pub to_message : String
to_message = "must be an RFC3339 datetime (e.g. 2026-06-10T23:59:59Z)"

-- `parseListFilter`; the user is set by the handler.
unfoldable pub parse_list_filter : Codecs → (String → Option Time) → Query → Result ListFilter
unfolding optional
parse_list_filter c parse q = do
  channel ← optional read_channel (q "channel")
  from ← optional (read_time parse "from" from_message) (q "from")
  to ← optional (read_time parse "to" to_message) (q "to")
  if out_of_order from to then err (validation "from" "must be before or equal to to") else ok tt
  limit ← optional read_limit (q "limit")
  key ← optional (read_cursor c) (q "cursor")
  ok (
      normalize (record {
        user_id = "";
        status = if same_text (q "status") "" then none else some (q "status");
        channel = channel;
        from_time = from;
        to_time = to;
        limit = limit_or_zero limit;
        cursor = key_id key;
        cursor_at = key_at key;
      }))
