-- ===== src/Http/Errors.antt =====
-- errors.go: what an error looks like to a client. The text of an error is a parameter, since it
-- includes what drivers say.
use notification_system.Prelude.{ℕ, String, Option}
use notification_system.Domain.Errors.{
  Error, not_found, conflict, cancel_not_allowed, validation, template_variables_missing, other,
}
use notification_system.Http.Responses.{NotificationResponse, BatchResponse, ListResponse}

-- The bodies that the handlers write; a response of a batch may carry the created and duplicate
-- counts.
pub data Body : Type 0 where
  error_body : String → String → String → Body
  notification_body : NotificationResponse → Body
  batch_body : BatchResponse → Option (ℕ × ℕ) → Body
  list_body : ListResponse → Body

pub record Response : Type 0 where
  pub status : ℕ
  pub body : Body

abbrev pub error_response : ℕ → String → String → String → Response
error_response status code field message = record {
  status = status;
  body = error_body code field message;
}

-- `writeError`
unfoldable pub write_error : (Error → String) → Error → Response
write_error text (validation field message) = error_response 400 "validation_error" field message
write_error text (template_variables_missing names) =
    error_response 400 "template_variables_missing" "" (text (template_variables_missing names))
write_error text not_found = error_response 404 "not_found" "" "resource not found"
write_error text cancel_not_allowed =
    error_response 409 "cancel_not_allowed" "" (text cancel_not_allowed)
write_error text conflict = error_response 409 "conflict" "" (text conflict)
write_error text (other e) = error_response 500 "internal_error" "" "an unexpected error occurred"
