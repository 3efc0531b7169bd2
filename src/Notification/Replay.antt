-- ===== src/Notification/Replay.antt =====
-- `Create`, of notification/service.go, under an idempotency key that has a notification.
use notification_system.Prelude.{
  ◌≡◌, refl, ap, ◌⊎◌, inl, inr, Option, none, some, arith, find, String,
}
use notification_system.Domain.Errors.{
  Error, not_found, conflict, cancel_not_allowed, validation, template_variables_missing, other,
  Result, ok, err,
}
use notification_system.Domain.Models.{Request}
use notification_system.Notification.Input.{CreateInput, validate}
use notification_system.Notification.Service.{existing, create, replayed, unless_missing}
use notification_system.Store.Requests.{get_request_by_idempotency_key, same_key}
use notification_system.Store.Outcome.{
  Outcome, Faulty, statement_rule, or_fail_rule, bind_rule, Outcome-mono, done, failed,
}
use notification_system.Store.Session.{Session, Action, ◌>>=◌, attempt}

-- That nothing has changed.
abbrev pub Untouched : Session → Session → Type 0
Untouched s t = (t.db ≡ s.db) × (t.events ≡ s.events)

-- A lookup that may find nothing: what holds where a row is found, where none is, and otherwise.
pub existing_rule :
    {A : Type 0} {Q : Option A → Session → Type 0} {E E' : Error → Session → Type 0} (m : Action A)
    (s : Session)
    → ((t : Session) → E' not_found t → Q none t)
    → ((e : Error) (t : Session) → E' e t → E e t)
    → Outcome (λ a t. Q (some a) t) E' (m s)
    → Outcome Q E (existing m s)
unfolding existing attempt ◌>>=◌
existing_rule m s missing others h = settle (m s) missing others h
  where
    settle :
        {A : Type 0} {Q : Option A → Session → Type 0} {E E' : Error → Session → Type 0}
        (x : Result A × Session)
        → ((t : Session) → E' not_found t → Q none t)
        → ((e : Error) (t : Session) → E' e t → E e t)
        → Outcome (λ a t. Q (some a) t) E' x
        → Outcome Q E (unless_missing x.0 x.1)
    settle (ok a, t) missing others (done h) = done h
    settle (err not_found, t) missing others (failed h) = done (missing t h)
    settle (err conflict, t) missing others (failed h) = failed (others conflict t h)
    settle (err cancel_not_allowed, t) missing others (failed h) = failed (others _ t h)
    settle (err (validation f m), t) missing others (failed h) = failed (others _ t h)
    settle (err (template_variables_missing ks), t) missing others (failed h) =
        failed (others _ t h)
    settle (err (other e), t) missing others (failed h) = failed (others _ t h)

by_key_ends :
    (user key : String) (s : Session)
    → Outcome
        (λ r t. (find (same_key user (some key)) s.db.requests ≡ some r) × Untouched s t)
        (λ e t.
          Untouched s t
          × (((e ≡ not_found) × (find (same_key user (some key)) s.db.requests ≡ none))
              ⊎ ((e ≡ other "scan request") × Faulty s)))
        (get_request_by_idempotency_key user key s)
unfolding get_request_by_idempotency_key
by_key_ends user key s = bind_rule _ _ s (
    statement_rule _ _ _ s (λ f. ((refl, refl), inr (refl, (s.tick, f))))
      (or_fail_rule _ _ _ (λ r found. (found, (refl, refl)))
        (λ missing. ((refl, refl), inl (refl, missing)))))

-- Creating a notification from an input that is valid and under a key that the user has used before
-- returns the first notification as a duplicate, whatever else the input says; no table changes and
-- nothing is counted. For such an input only a failing statement prevents it.
pub create-replayed :
    (i : CreateInput) (correlation key : String) (r : Request) (s : Session)
    → validate i ≡ ok tt
    → i.idempotency_key ≡ some key
    → find (same_key i.user_id (some key)) s.db.requests ≡ some r
    → Outcome
        (λ res t. (res ≡ replayed r) × Untouched s t)
        (λ e t. Untouched s t × Faulty s)
        (create i correlation s)
unfolding create
create-replayed i correlation key r s valid keyed found = bind_rule _ _ s (
    rw valid (
      done (
        bind_rule _ _ s (
          rw keyed (
            existing_rule (get_request_by_idempotency_key i.user_id key) s
              (λ t missing. absurd (ground (arith, missing, found)))
              (λ e t h. (h.0, ground (arith, h.1, found)))
              (Outcome-mono _ (λ r' t h. done (ap replayed (ground (arith, h.0, found)), h.1))
                (λ e t h. h) (by_key_ends i.user_id key s)))))))
