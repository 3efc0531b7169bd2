-- ===== src/Http/Answers.antt =====
-- What clients are told by the middleware, the handlers and `writeError` of transport/http.
use notification_system.Prelude.{
  ◌≡◌, refl, ◌⊎◌, inl, inr, Bool, true, false, none, some, String, arith, same_text, is_blank,
}
use notification_system.Domain.Errors.{
  Error, not_found, conflict, cancel_not_allowed, validation, template_variables_missing, other,
}
use notification_system.Domain.Models.{Uuid}
use notification_system.Http.Auth.{
  Admission, anonymous, as_user, denied, authenticate, requires_auth, bearer_token,
}
use notification_system.Http.Errors.{write_error, error_body, Body}
use notification_system.Http.Handlers.{answer, respond, given, with_user, cancel_notification}
use notification_system.Notification.Ownership.{NotOwned, cancel-NotOwned}
use notification_system.Platform.{Verifier, parse_token, validate_secret}
use notification_system.Store.Outcome.{Outcome, Faulty, attempt_rule, bind_rule, done, Outcome-mono}
use notification_system.Store.Session.{Session}

abbrev pub is_internal : Error → Bool
is_internal (other e) = true
is_internal _ = false

abbrev pub message_in_body : Body → String
message_in_body (error_body code field message) = message
message_in_body _ = ""

-- An error of the domain is the client's, with a status of 400, 404 or 409; any other is 500, and of
-- its text nothing is told.
pub write_error_status :
    (text : Error → String) (e : Error)
    → let r = write_error text e in
      (((is_internal e ≡ false) × ((r.status ≡ 400) ⊎ ((r.status ≡ 404) ⊎ (r.status ≡ 409))))
        ⊎ ((is_internal e ≡ true)
            × (r.status ≡ 500)
            × (message_in_body r.body ≡ "an unexpected error occurred")))
unfolding write_error
write_error_status text not_found = inl (refl, inr (inl refl))
write_error_status text conflict = inl (refl, inr (inr refl))
write_error_status text cancel_not_allowed = inl (refl, inr (inr refl))
write_error_status text (validation f m) = inl (refl, inl refl)
write_error_status text (template_variables_missing ks) = inl (refl, inl refl)
write_error_status text (other e) = inr (refl, refl, refl)

-- What reaches a handler: a path that needs no user, or a user who is not blank, under a secret
-- that is long enough.
abbrev pub Admitted : String → String → Admission → Type 0
Admitted secret path anonymous = requires_auth path ≡ false
Admitted secret path (as_user user) =
    (requires_auth path ≡ true) × (is_blank user ≡ false) × (validate_secret secret ≡ none)
Admitted secret path (denied r) = (requires_auth path ≡ true) × (r.status ≡ 401)

-- Every request under `/api/v1/` is answered with 401 or reaches its handler with a user who is not
-- blank, and only if the secret is long enough, whatever the JWT library says; other requests need
-- no user.
pub authenticate-Admitted :
    (verify : Verifier) (secret path header : String)
    → Admitted secret path (authenticate verify secret path header)
unfolding authenticate parse_token requires_auth bearer_token validate_secret
authenticate-Admitted verify secret path header = ground arith

refused_status :
    (text : Error → String) (e : Error) (s : Session)
    → (e ≡ not_found) ⊎ Faulty s
    → ((write_error text e).status ≡ 404) ⊎ Faulty s
unfolding write_error
refused_status text e s (inl missing) = inl (rw missing refl)
refused_status text e s (inr faulty) = inr faulty

-- Cancelling another user's notification is answered with 404, or with 500 if a statement fails, and
-- changes no table.
pub cancel_notification-NotOwned :
    (text : Error → String) (user : String) (id : Uuid) (s : Session)
    → same_text user "" ≡ false
    → NotOwned user id s
    → Outcome
        (λ r t. (t.db ≡ s.db) × ((r.status ≡ 404) ⊎ Faulty s))
        (λ e t. ⊥)
        (cancel_notification text user (some id) s)
unfolding cancel_notification with_user given answer respond write_error
cancel_notification-NotOwned text user id s named h = rw named (
    bind_rule _ _ s (
      attempt_rule _ s (
        Outcome-mono _ (λ a t x. absurd x) (λ e t k. done (k.0, refused_status text e s k.2))
          (cancel-NotOwned user id s h))))
