-- ===== src/Store/System/Batched.antt =====
-- `CreateBatch` and the invariant.
use notification_system.Prelude.{
  ℕ, ◌+◌, Bool, true, false, List, [], ◌∷◌, ◌++◌, some, All, ◌≡◌, refl, sym, ◌∙◌, ap, subst, ◌⊎◌,
  inl, inr, if◌then◌else◌,
}
use notification_system.Domain.Errors.{Result}
use notification_system.Domain.Models.{Uuid, Time, Batch, BatchItem, BatchResult}
use notification_system.Store.Deliveries.{delivery_taken}
use notification_system.Store.Insertion.{
  add_outbox, add_request, add_delivery, insert_delivery-Writes, insert_outbox-Writes,
  Insertion-cases, with_request-inserted,
}
use notification_system.Store.Outcome.{
  Outcome, stepped, statement_rule, bind_rule, if_rule, with_tx_rule, Outcome-mono, done, failed,
}
use notification_system.Store.Requests.{
  insertion, inserted, with_request, insert_request_on_conflict, insert_item, insert_items,
  batch_taken, with_batch, new_batch, create_batch,
}
use notification_system.Store.Session.{Db, Session}
use notification_system.Store.System.Defs.{Inv}
use notification_system.Store.System.Added.{New}
use notification_system.Store.System.Filling.{
  Filling, Filling-added, Filling-outbox, Filling-start, Filling-ends,
}

-- The items as the service builds them: new rows of the batch.
abbrev pub NewIn : Uuid → BatchItem → Type 0
NewIn b i = New i.request i.delivery × (i.request.batch_id ≡ some b)

-- An INSERT that leaves out a duplicate.
on_conflict_ends :
    (i : BatchItem) (s : Session)
    → Outcome
        (λ fresh t.
          (t.faults ≡ s.faults)
          × (t.now ≡ s.now)
          × (((fresh ≡ false) × (t.db ≡ s.db))
              ⊎ ((fresh ≡ true)
                  × (insertion i.request s.db ≡ inserted)
                  × (t.db ≡ add_request i.request s.db))))
        (λ e t. Unit {0})
        (insert_request_on_conflict i.request s)
unfolding insert_request_on_conflict
on_conflict_ends i s = bind_rule _ _ s (
    statement_rule _ _ _ s (λ f. tt)
      (elim (Insertion-cases (insertion i.request s.db)) [
        | inl e ↦ rw e (done (refl, refl, inr (refl, refl, with_request-inserted i.request s.db e)))
        | inr (inl e) ↦ rw e (failed tt)
        | inr (inr (inl e)) ↦ rw e (done (refl, refl, inl (refl, rw (e, with_request) refl)))
        | inr (inr (inr e)) ↦ rw e (failed tt)
      ]))

-- The rows of an item that is new.
stored-Filling :
    (b : Uuid) (n : ℕ) (i : BatchItem) (now : Time) (before requested delivered after : Db)
    → NewIn b i
    → Filling b n before
    → insertion i.request before ≡ inserted
    → requested ≡ add_request i.request before
    → delivery_taken i.delivery requested ≡ false
    → delivered ≡ add_delivery i.delivery requested
    → after ≡ add_outbox i.outbox now delivered
    → Filling b (n + 1) after
stored-Filling b n i now before requested delivered after new h free e1 untaken e2 e3 =
    subst (Filling b (n + 1))
      (sym (e3 ∙ ap (add_outbox i.outbox now) (e2 ∙ ap (add_delivery i.delivery) e1)))
      (Filling-outbox b (n + 1) i.outbox now _ (
        Filling-added b n i.request i.delivery before new.0 new.1 free
          (subst (λ db. delivery_taken i.delivery db ≡ false) e1 untaken) h))

clash : {x : Bool} → x ≡ true → x ≡ false → ⊥
clash p q = cc

-- What the batch holds after an item, which may have been a duplicate.
abbrev after_item : ℕ → Bool → ℕ
after_item n fresh = if fresh then n + 1 else n

item-Filling :
    (b : Uuid) (n : ℕ) (i : BatchItem) (s : Session)
    → NewIn b i
    → Filling b n s.db
    → Outcome
        (λ fresh t. (t.faults ≡ s.faults) × Filling b (after_item n fresh) t.db)
        (λ e t. Unit {0})
        (insert_item i s)
unfolding insert_item
item-Filling b n i s new h = bind_rule _ _ s (
    Outcome-mono _
      (λ fresh t k.
        if_rule fresh _ _ t
          (λ yes_fresh. bind_rule _ _ t (
            Outcome-mono _
              (λ _ u l. bind_rule _ _ u (
                Outcome-mono _
                  (λ _ v m. done (
                    m.0 ∙ l.0 ∙ k.0,
                    elim k.2 [
                      | inl old ↦ absurd (clash yes_fresh old.0)
                      | inr (_, free, e) ↦
                          stored-Filling b n i u.now s.db t.db u.db v.db new h free e l.2 l.3 m.3
                    ],
                  ))
                  (λ _ v x. tt) (insert_outbox-Writes i.outbox u)))
              (λ _ u x. tt) (insert_delivery-Writes i.delivery t)))
          (λ not_fresh. done (
            k.0,
            elim k.2 [
              | inl (_, e) ↦ subst (Filling b n) (sym e) h
              | inr (yes_fresh, _, _) ↦ absurd (clash yes_fresh not_fresh)
            ],
          )))
      (λ _ t x. tt) (on_conflict_ends i s))

items-Filling :
    (b : Uuid) (n : ℕ) (items : List BatchItem) (s : Session)
    → All (NewIn b) items
    → Filling b n s.db
    → Outcome
        (λ created t. (t.faults ≡ s.faults) × Filling b created t.db)
        (λ e t. Unit {0})
        (insert_items n items s)
unfolding insert_items
items-Filling b n [] s new h = done (refl, h)
items-Filling b n (i ∷ items) s new h = bind_rule _ _ s (
    Outcome-mono _
      (λ fresh t k.
        Outcome-mono _ (λ _ u l. (l.0 ∙ k.0, l.1)) (λ _ u x. tt)
          (items-Filling b (after_item n fresh) items t new.1 k.1))
      (λ _ t x. tt) (item-Filling b n i s new.0 h))

with_batch-free :
    (b : Batch) (db : Db)
    → batch_taken b db ≡ false
    → with_batch b db ≡ record db { batches = db.batches ++ new_batch b ∷ [] }
with_batch-free b db e = rw (e, with_batch) refl

-- Creating a batch either keeps the invariant or, on an error, changes no table.
pub create_batch_keeps :
    (b : Batch) (items : List BatchItem) (s : Session)
    → All (NewIn b.id) items
    → Inv s.db
    → Outcome (λ res t. Inv t.db) (λ e t. t.db ≡ s.db) (create_batch b items s)
unfolding create_batch
create_batch_keeps b items s new h =
    with_tx_rule _ s (λ _ t f e. e)
      (bind_rule _ _ _ (
        statement_rule _ _ _ _ (λ f. refl)
          (bind_rule _ _ _ (
            if_rule (batch_taken b s.db) _ _ _ (λ taken. failed refl)
              (λ free. done (
                bind_rule _ _ _ (
                  Outcome-mono _
                    (λ created t k. bind_rule _ _ t (
                      statement_rule _ _ _ t (λ f. refl)
                        (done (k.0, Filling-ends b.id created t.db k.1))))
                    (λ _ t x. refl)
                    (items-Filling b.id 0 items (stepped (stepped s s.db) (with_batch b s.db)) new
                      (rw (with_batch-free b s.db free) (Filling-start b s.db free h))))))))))

pub create_batch-Inv :
    (b : Batch) (items : List BatchItem) (s : Session)
    → All (NewIn b.id) items
    → Inv s.db
    → Inv (create_batch b items s).1.db
create_batch-Inv b items s new h =
    settle (create_batch b items s) (create_batch_keeps b items s new h)
  where
    settle :
        (x : Result BatchResult × Session)
        → Outcome (λ res t. Inv t.db) (λ e t. t.db ≡ s.db) x
        → Inv x.1.db
    settle x (done k) = k
    settle x (failed e) = subst Inv (sym e) h
