-- ===== src/Worker/Counted.antt =====
-- `handleFailure`, of worker/process.go: the attempts that the row of a delivery counts.
use notification_system.Prelude.{
  ℕ, ◌+◌, ◌≤◌, ◌<◌, ◌≡◌, refl, ap, ◌∙◌, ◌⊎◌, inl, inr, true, false, String, Option, none, some,
  find, arith,
}
use notification_system.Domain.Enums.{DeliveryStatus}
use notification_system.Domain.Errors.{Result, ok, err}
use notification_system.Domain.Models.{Time, Request, Delivery, StreamMessage, ProviderError}
use notification_system.Retry.{
  Floats, Outcome as Verdict, evaluate_failure, evaluate_failure_cases, is_permanent,
}
use notification_system.Store.Atomic.{mark_failed-Finalizes}
use notification_system.Store.Cancellation.Row.{find-update, refreshed-deliveries}
use notification_system.Store.Deliveries.{as_failed, as_retrying, mark_failed, mark_retrying}
use notification_system.Store.Outcome.{Outcome, Faulty, statement_rule, done, Outcome-mono}
use notification_system.Store.Requests.{find_request}
use notification_system.Store.Session.{Db, Session, Action, ◌>>=◌, attempt}
use notification_system.Store.System.Stays.{Stays, emit-Stays}
use notification_system.Store.Tables.{has_key}
use notification_system.Worker.Process.{
  Worker, handle_failure, store_outcome, count_retry, is_breaker_open,
}
use notification_system.Worker.Quiet.{after_failed-Stays}

module _ (fl : Floats) where
  -- The row of a delivery after a failure: one attempt more, and failed if the error is permanent or
  -- this was the last attempt allowed, or else to be retried.
  abbrev pub CountedRow : ℕ → Delivery → Option ProviderError → Db → Type 0
  CountedRow max d perr db =
      (q : Delivery) × (find (has_key d.id d.created_at) db.deliveries ≡ some q)
      × (q.attempt_count ≡ d.attempt_count + 1)
      × (((q.status ≡ DeliveryStatus.failed)
            × ((is_permanent perr ≡ true) ⊎ (max ≤ d.attempt_count + 1)))
          ⊎ ((q.status ≡ DeliveryStatus.retrying)
              × (is_permanent perr ≡ false)
              × (d.attempt_count + 1 < max)))

  -- Either the row counts the failure, or a statement has failed and no table has changed.
  abbrev pub Counts : ℕ → Delivery → Option ProviderError → Session → Db → Type 0
  Counts max d perr s db = CountedRow max d perr db ⊎ ((db ≡ s.db) × Faulty s)

  -- What holds of the tables after an action, and of those that a writeless one after it leaves.
  then-keeps :
      {A B : Type 0} (P : Db → Type 0) (m : Action A) (f : Result A → Action B) (s : Session)
      → Outcome (λ _ t. P t.db) (λ _ t. P t.db) (m s)
      → ((r : Result A) → Stays P (f r))
      → P ((attempt m >>= f) s).1.db
  unfolding attempt ◌>>=◌
  then-keeps {A = A} P m f s h k = k (m s).0 (m s).1 (both (m s) h)
    where
      both : (x : Result A × Session) → Outcome (λ _ t. P t.db) (λ _ t. P t.db) x → P x.1.db
      both x (done p) = p
      both x (Outcome.failed p) = p

  count_retry-Stays :
      (P : Db → Type 0) (d : Delivery) (r : Result (Unit {0})) → Stays P (count_retry fl d r)
  count_retry-Stays P d (ok _) = emit-Stays P _
  count_retry-Stays P d (err e) = λ s p. p

  failed_row :
      (max : ℕ) (d : Delivery) (perr : Option ProviderError) (error : String) (r : Request)
      (s : Session)
      → find (has_key d.id d.created_at) s.db.deliveries ≡ some d
      → find_request d.request_id s.db ≡ some r
      → (is_permanent perr ≡ true) ⊎ (max ≤ d.attempt_count + 1)
      → Outcome
          (λ _ t. Counts max d perr s t.db)
          (λ _ t. Counts max d perr s t.db)
          (mark_failed d.id d.created_at d.request_id (d.attempt_count + 1) error s)
  failed_row max d perr error r s row found last =
      Outcome-mono _
        (λ _ t h. inl (
          as_failed (d.attempt_count + 1) error s.now d,
          ap (λ db. find (has_key d.id d.created_at) db.deliveries) h.2
              ∙ ap (find (has_key d.id d.created_at)) (refreshed-deliveries d.request_id h.0 _)
              ∙ find-update (has_key d.id d.created_at) _ s.db.deliveries (λ x. refl) row,
          refl,
          inl (refl, last),
        ))
        (λ _ t h. inr (h.0, fault h.1))
        (mark_failed-Finalizes d.id d.created_at d.request_id (d.attempt_count + 1) error s)
    where
      fault : Faulty s ⊎ (find_request d.request_id s.db ≡ none) → Faulty s
      fault (inl f) = f
      fault (inr missing) = absurd (ground (arith, found, missing))

  retrying_row :
      (max : ℕ) (d : Delivery) (perr : Option ProviderError) (error : String) (next : Time)
      (s : Session)
      → find (has_key d.id d.created_at) s.db.deliveries ≡ some d
      → is_permanent perr ≡ false
      → d.attempt_count + 1 < max
      → Outcome
          (λ _ t. Counts max d perr s t.db)
          (λ _ t. Counts max d perr s t.db)
          (mark_retrying d.id d.created_at (d.attempt_count + 1) next error s)
  unfolding mark_retrying
  retrying_row max d perr error next s row transient more =
      statement_rule _ _ _ s (λ f. inr (refl, (s.tick, f)))
        (inl (
          as_retrying (d.attempt_count + 1) next error s.now d,
          find-update (has_key d.id d.created_at) _ s.db.deliveries (λ x. refl) row,
          refl,
          inr (refl, transient, more),
        ))

  store_outcome-Counts :
      (max : ℕ) (w : Worker fl) (d : Delivery) (msg : StreamMessage) (error : String)
      (perr : Option ProviderError) (r : Request) (o : Verdict) (s : Session)
      → find (has_key d.id d.created_at) s.db.deliveries ≡ some d
      → find_request d.request_id s.db ≡ some r
      → o.attempt_count ≡ d.attempt_count + 1
      → ((o.status ≡ DeliveryStatus.failed)
          × ((is_permanent perr ≡ true) ⊎ (max ≤ d.attempt_count + 1)))
        ⊎ ((o.status ≡ DeliveryStatus.retrying)
            × (is_permanent perr ≡ false)
            × (d.attempt_count + 1 < max))
      → Counts max d perr s (store_outcome fl w d msg error s.now o s).1.db
  unfolding store_outcome
  store_outcome-Counts max w d msg error perr r o s row found n (inl (st, last)) =
      rw (st, n)
        (then-keeps (Counts max d perr s) _ _ s (failed_row max d perr error r s row found last)
          (after_failed-Stays fl (Counts max d perr s) w d msg _ error))
  store_outcome-Counts max w d msg error perr r o s row found n (inr (st, transient, more)) =
      rw (st, n)
        (then-keeps (Counts max d perr s) _ _ s
          (retrying_row max d perr error _ s row transient more)
          (count_retry-Stays (Counts max d perr s) d))

  -- A failure of which the breaker is not the cause is counted once: where the delivery's row and its
  -- request are there, the row has one attempt more, and it is failed exactly if the error is
  -- permanent or the ceiling of attempts is reached, and to be retried if not; so no delivery is
  -- retried that has used up its attempts. Otherwise a statement has failed and no table has changed.
  pub handle_failure-Counts :
      (w : Worker fl) (d : Delivery) (msg : StreamMessage) (error : String)
      (perr : Option ProviderError) (r : Request) (s : Session)
      → is_breaker_open perr ≡ false
      → find (has_key d.id d.created_at) s.db.deliveries ≡ some d
      → find_request d.request_id s.db ≡ some r
      → Counts w.policy.max_attempts d perr s (handle_failure fl w d msg error perr s).1.db
  unfolding handle_failure
  handle_failure-Counts w d msg error perr r s breaker row found =
      let o = evaluate_failure fl w.policy (w.draw s.tick) s.now d.attempt_count perr in
      let cases = evaluate_failure_cases fl w.policy (w.draw s.tick) s.now d.attempt_count perr in
      rw breaker (
        store_outcome-Counts w.policy.max_attempts w d msg error perr r o s row found cases.0
          (elim cases.1 [ inl f ↦ inl (f.0, f.2) | inr m ↦ inr (m.0, m.1, m.2) ]))
