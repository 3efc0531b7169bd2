-- ===== src/Http/Handlers.antt =====
-- handlers.go: the handlers, over the service. JSON and `uuid.Parse` are parameters: a handler is
-- given what they make of the request.
use notification_system.Prelude.{String, Option, none, some, [], same_text, if◌then◌else◌}
use Prim.Native.String.{◌++◌ as ◌+++◌}
use notification_system.Domain.Errors.{Error, validation, Result, ok, err}
use notification_system.Domain.Models.{Uuid}
use notification_system.Http.Auth.{unauthorized}
use notification_system.Http.Dto.{CreateRequest, BatchRequest, to_input, batch_to_input}
use notification_system.Http.Responses.{to_notification_response, to_batch_response}
use notification_system.Http.Errors.{Response, notification_body, batch_body, write_error}
use notification_system.Notification.{
  CreateResult, BatchCreateResult, create, create_batch, get, cancel, get_batch,
}
use notification_system.Store.Session.{Action, pure, ◌>>=◌, attempt}

-- What the JSON decoder makes of a body.
pub data Decoding (A : Type 0) : Type 0 where
  decoded : A → Decoding A
  no_body : Decoding A
  bad_json : String → Decoding A

-- `decodeJSON`
unfoldable pub decode_json : {A : Type 0} → Decoding A → Result A
decode_json (decoded a) = ok a
decode_json no_body = err (validation "body" "request body is required")
decode_json (bad_json message) = err (validation "body" ("invalid JSON: " +++ message))

-- The response to a result of the service.
unfoldable pub respond : {A : Type 0} → (Error → String) → (A → Response) → Result A → Response
unfolding write_error
respond text render (ok a) = render a
respond text render (err e) = write_error text e

-- `userIDFromContext`: without a user, nothing is done.
unfoldable pub with_user : String → Action Response → Action Response
with_user user k = if same_text user "" then pure (unauthorized "authentication required") else k

-- A call of the service, and its response.
unfoldable pub answer :
    {A : Type 0} → (Error → String) → (A → Response) → Action A → Action Response
answer text render m = attempt m >>= λ r. pure (respond text render r)

-- An argument that may be wrong, before a call.
unfoldable pub given :
    {A : Type 0} → (Error → String) → Result A → (A → Action Response) → Action Response
given text (ok a) k = k a
given text (err e) k = pure (write_error text e)

abbrev pub valid_id : Option Uuid → Result Uuid
valid_id none = err (validation "id" "must be a valid UUID")
valid_id (some id) = ok id

abbrev pub created_response : CreateResult → Response
created_response r = record {
  status = if r.duplicate then 200 else 202;
  body = notification_body (to_notification_response r.request []);
}

-- `createNotification`
unfoldable pub create_notification :
    (Error → String)
    → (String → Option Uuid)
    → String
    → String
    → Decoding CreateRequest
    → String
    → Action Response
unfolding decode_json
create_notification text parse user header body correlation = with_user user (
    given text (decode_json body) (λ b.
      given text (to_input parse b header)
        (λ i. answer text created_response (create (record i { user_id = user }) correlation))))

abbrev pub batch_response : BatchCreateResult → Response
batch_response r = record {
  status = if r.duplicate then 200 else 202;
  body = batch_body (to_batch_response r.batch) (some (r.created_count, r.duplicate_count));
}

-- `createBatch`
unfoldable pub create_batch_handler :
    (Error → String)
    → (String → Option Uuid)
    → String
    → String
    → Decoding BatchRequest
    → String
    → Action Response
unfolding decode_json
create_batch_handler text parse user header body correlation = with_user user (
    given text (decode_json body) (λ b.
      given text (batch_to_input parse b header)
        (λ i. answer text batch_response (create_batch (record i { user_id = user }) correlation))))

-- `getNotification`; the id is what `uuid.Parse` makes of the path.
unfoldable pub get_notification : (Error → String) → String → Option Uuid → Action Response
get_notification text user id = with_user user (
    given text (valid_id id) (λ i.
      answer text
        (λ v. record {
          status = 200;
          body = notification_body (to_notification_response v.request v.deliveries);
        })
        (get user i)))

-- `cancelNotification`
unfoldable pub cancel_notification : (Error → String) → String → Option Uuid → Action Response
cancel_notification text user id = with_user user (
    given text (valid_id id) (λ i.
      answer text
        (λ r. record { status = 200; body = notification_body (to_notification_response r []) })
        (cancel user i)))

-- `getBatch`
unfoldable pub get_batch_handler : (Error → String) → String → Option Uuid → Action Response
get_batch_handler text user id = with_user user (
    given text (valid_id id) (λ i.
      answer text (λ b. record { status = 200; body = batch_body (to_batch_response b) none })
        (get_batch user i)))
