-- ===== src/Store/BatchKeys.antt =====
-- `CreateBatch`, of postgres/batch.go, and the idempotency keys.
use notification_system.Prelude.{
  ℕ, ◌+◌, ◌≡◌, refl, ◌∙◌, inl, inr, true, Bool-cases, List, [], ◌∷◌, if◌then◌else◌,
}
use notification_system.Domain.Models.{Request, Batch, BatchItem}
use notification_system.Store.Insertion.{
  KeysDistinct, append-KeysDistinct, Insertion-cases, key_free, requests_of, insert_delivery-Writes,
  insert_outbox-Writes,
}
use notification_system.Store.Deliveries.{insert_delivery}
use notification_system.Store.Outcome.{
  Outcome, stepped, statement_rule, bind_rule, if_rule, with_tx_rule, Outcome-mono, done, failed,
}
use notification_system.Store.Requests.{
  Insertion, insertion, inserted, with_request, insert_request_on_conflict, on_conflict_result,
  duplicate_key, duplicate_id, dangling, insert_outbox_if, insert_item, insert_items, batch_taken,
  with_batch, create_batch,
}
use notification_system.Store.Session.{Db, Session, Action, pure, ◌>>=◌}

-- An action that keeps the keys distinct, if it succeeds.
abbrev Keeps : {A : Type 0} → Action A → Session → Type 0
Keeps m s =
    Outcome (λ _ t. (t.faults ≡ s.faults) × KeysDistinct t.db.requests) (λ e t. Unit {0}) (m s)

with_request-KeysDistinct :
    (r : Request) (db : Db) → KeysDistinct db.requests → KeysDistinct (with_request r db).requests
with_request-KeysDistinct r db h = elim (Insertion-cases (insertion r db)) [
  | inl e ↦ rw (e, with_request) (append-KeysDistinct db.requests r h (key_free r db e))
  | inr (inl e) ↦ rw (e, with_request) h
  | inr (inr (inl e)) ↦ rw (e, with_request) h
  | inr (inr (inr e)) ↦ rw (e, with_request) h
]

conflict-Keeps :
    (i : Insertion) (s t : Session)
    → t.faults ≡ s.faults
    → KeysDistinct t.db.requests
    → Outcome
        (λ _ u. (u.faults ≡ s.faults) × KeysDistinct u.db.requests)
        (λ e u. Unit {0})
        (on_conflict_result i t)
conflict-Keeps inserted s t f k = done (f, k)
conflict-Keeps duplicate_key s t f k = done (f, k)
conflict-Keeps duplicate_id s t f k = failed tt
conflict-Keeps dangling s t f k = failed tt

Keeps-on_conflict :
    (r : Request) (s : Session)
    → KeysDistinct s.db.requests
    → Keeps (insert_request_on_conflict r) s
unfolding insert_request_on_conflict
Keeps-on_conflict r s h = bind_rule _ _ s (
    statement_rule _ _ _ s (λ f. tt)
      (conflict-Keeps (insertion r s.db) s (stepped s (with_request r s.db)) refl
        (with_request-KeysDistinct r s.db h)))

-- The delivery and the outbox row of a new request.
rows-Keeps :
    (item : BatchItem) (s : Session)
    → KeysDistinct s.db.requests
    → Keeps
        (insert_delivery item.delivery >>= λ _. insert_outbox_if item.outbox >>= λ _. pure true)
        s
rows-Keeps item s h = bind_rule _ _ s (
    Outcome-mono _
      (λ _ t k. bind_rule _ _ t (
        Outcome-mono _
          (λ _ u l. done (l.0 ∙ k.0, rw (l.3, requests_of item.outbox t.now t.db, k.3) h))
          (λ _ u x. tt) (insert_outbox-Writes item.outbox t)))
      (λ _ t x. tt) (insert_delivery-Writes item.delivery s))

Keeps-insert_item :
    (item : BatchItem) (s : Session) → KeysDistinct s.db.requests → Keeps (insert_item item) s
unfolding insert_item
Keeps-insert_item item s h = bind_rule _ _ s (
    Outcome-mono _
      (λ fresh t k.
        if_rule fresh _ _ t
          (λ new. Outcome-mono _ (λ _ u l. (l.0 ∙ k.0, l.1)) (λ _ u x. tt) (rows-Keeps item t k.1))
          (λ old. done (k.0, k.1)))
      (λ _ t x. tt) (Keeps-on_conflict item.request s h))

Keeps-insert_items :
    (created : ℕ) (items : List BatchItem) (s : Session)
    → KeysDistinct s.db.requests
    → Keeps (insert_items created items) s
unfolding insert_items
Keeps-insert_items created [] s h = done (refl, h)
Keeps-insert_items created (item ∷ items) s h = bind_rule _ _ s (
    Outcome-mono _
      (λ fresh t k.
        Outcome-mono _ (λ _ u l. (l.0 ∙ k.0, l.1)) (λ _ u x. tt)
          (Keeps-insert_items (if fresh then created + 1 else created) items t k.1))
      (λ _ t x. tt) (Keeps-insert_item item s h))

with_batch-requests : (b : Batch) (db : Db) → (with_batch b db).requests ≡ db.requests
with_batch-requests b db = elim (Bool-cases (batch_taken b db)) [
  | inl taken ↦ rw (with_batch, taken) refl
  | inr free ↦ rw (with_batch, free) refl
]

-- Creating a batch keeps it so that no user has two requests with one idempotency key, also where
-- items of the batch share a key or another request has it; on an error no table changes.
pub create_batch-KeysDistinct :
    (b : Batch) (items : List BatchItem) (s : Session)
    → KeysDistinct s.db.requests
    → Outcome (λ res t. KeysDistinct t.db.requests) (λ e t. t.db ≡ s.db) (create_batch b items s)
unfolding create_batch
create_batch-KeysDistinct b items s h =
    with_tx_rule _ s (λ _ t f e. e)
      (bind_rule _ _ _ (
        statement_rule _ _ _ _ (λ f. refl)
          (bind_rule _ _ _ (
            if_rule (batch_taken b s.db) _ _ _ (λ taken. failed refl)
              (λ free. done (
                bind_rule _ _ _ (
                  Outcome-mono _
                    (λ created t k.
                      bind_rule _ _ t (statement_rule _ _ _ t (λ f. refl) (done (k.0, k.1))))
                    (λ _ t x. refl)
                    (Keeps-insert_items 0 items (stepped (stepped s s.db) (with_batch b s.db))
                      (rw (with_batch-requests b s.db) h)))))))))
