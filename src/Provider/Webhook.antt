-- ===== src/Provider/Webhook.antt =====
-- webhook.go: what an HTTP response means for a delivery.
use Prim.Native.String.{◌++◌ as ◌+++◌}
use notification_system.Prelude.{
  ℕ, ◌-◌, String, ℤ, pos, Bool, true, false, ◌&&◌, Option, none, some, ltb, leb, ◌==◌, same_text,
  atoi, format_nat, wrap64, scale, if◌then◌else◌,
}
use notification_system.Domain.Models.{Time, ProviderResult, ProviderError}

-- What `Send` returns: a result, or an error and the `ProviderError` that it wraps, if any.
pub data ProviderReply : Type 0 where
  accepted : ProviderResult → ProviderReply
  refused : String → Option ProviderError → ProviderReply

-- What comes of a request: an error of `json.Marshal`, of `http.NewRequestWithContext` or of the
-- client, or its response.
pub data HttpReply : Type 0 where
  not_marshalled not_built : String → HttpReply
  no_response : String → HttpReply
  response : ℕ → String → String → HttpReply  -- the status, the Retry-After header, the body

pub record ResponseBody : Type 0 where
  pub message_id : String
  pub status : String
  pub timestamp : String

abbrev pub second : ℕ
second = 1000000000

-- `time.Until(t)`, and 0 for an instant that has passed.
abbrev until : Option Time → Time → Option ℤ
until none now = none
until (some t) now = some (pos (t - now))

-- `parseRetryAfter`: seconds, as 64-bit nanoseconds, or a date.
unfoldable pub parse_retry_after : (String → Option Time) → Time → String → Option ℤ
parse_retry_after parse_time now header = if same_text header "" then none else elim (atoi header) [
  | some secs ↦ some (wrap64 (scale second secs))
  | none ↦ until (parse_time header) now
]

abbrev or_now : Option Time → Time → Time
or_now none now = now
or_now (some t) now = t

-- `parseSuccess`; `decode` gives empty fields where the body is no JSON.
unfoldable pub parse_success :
    (String → ResponseBody) → (String → Option Time) → Time → String → ProviderResult
parse_success decode parse_rfc3339 now body =
    let rb = decode body in
    record {
      message_id = rb.message_id;
      status = if same_text rb.status "" then "accepted" else rb.status;
      timestamp =
          if same_text rb.timestamp "" then now else or_now (parse_rfc3339 rb.timestamp) now;
    }

abbrev pub provider_error : Bool → ℕ → Option ℤ → String → ProviderError
provider_error permanent code retry message = record {
  permanent = permanent;
  status_code = code;
  retry_after = retry;
  breaker_open = false;
  message = message;
}

-- The error of `Send`, whose text is that of the `ProviderError`.
abbrev pub refusal : Bool → ℕ → Option ℤ → String → ProviderReply
refusal permanent code retry message =
    refused message (some (provider_error permanent code retry message))

-- `fmt.Errorf` with a status and a body.
abbrev pub status_message : String → ℕ → String → String
status_message what code body = what +++ (format_nat code +++ ("): " +++ body))

-- `WebhookClient.Send`: its early returns, and the `switch` on the response.
unfoldable pub classify :
    (String → ResponseBody)
    → (String → Option Time)
    → (String → Option Time)
    → Time
    → HttpReply
    → ProviderReply
unfolding parse_retry_after parse_success
classify decode parse_rfc3339 parse_time now (not_marshalled e) =
    refusal true 0 none ("marshal request: " +++ e)
classify decode parse_rfc3339 parse_time now (not_built e) =
    refusal true 0 none ("build request: " +++ e)
classify decode parse_rfc3339 parse_time now (no_response e) =
    refusal false 0 none ("provider call: " +++ e)
classify decode parse_rfc3339 parse_time now (response code header body) =
    if leb 200 code && ltb code 300
    then accepted (parse_success decode parse_rfc3339 now body)
    else if code == 429
    then refusal false code (parse_retry_after parse_time now header)
        ("provider rate limited: " +++ body)
    else if leb 400 code && ltb code 500
    then refusal true code none (status_message "provider rejected (" code body)
    else refusal false code none (status_message "provider error (" code body)
