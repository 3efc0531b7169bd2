-- ===== src/Store/Promotion.antt =====
-- `PromoteDue`, `SweepRetries` and `ReconcilePending`, of postgres/scheduler.go.
use notification_system.Prelude.{
  append_more, append_nil, ℕ, ◌≡◌, refl, ap, ◌∙◌, Bool, true, some, List, [], ◌∷◌, ◌++◌, arith, map,
  update, length, String, ◌≤◌, length-take_le, ◌-◌,
}
use notification_system.Domain.Enums.{stream}
use notification_system.Domain.Models.{Uuid, Time, Delivery}
use notification_system.Store.Due.{
  DueRow, due_row, enqueue_due, in_rows, as_pending, transition_and_enqueue, orphans,
  reconcile_pending, pick_scheduled, promote_due, pick_retries, sweep_retries, waiting,
}
use notification_system.Store.Insertion.{insert_outbox-Writes}
use notification_system.Store.Requests.{insert_outbox_if}
use notification_system.Store.Outbox.{is_unpublished}
use notification_system.Store.Outcome.{
  Outcome, statement_rule, bind_rule, with_tx_rule, Outcome-mono, done,
}
use notification_system.Store.Session.{OutboxRow, Db, Session, Action, each, new_uuid, ◌>>=◌}

-- What a row of the outbox sends where, and whether it waits to be published.
abbrev pub entry_key : OutboxRow → Uuid × String × Bool
entry_key o = (o.delivery_id, o.stream, is_unpublished o)

-- What a due row has to send, and where.
abbrev pub due_key : DueRow → Uuid × String × Bool
due_key d = (d.id, stream d.priority d.channel, true)

-- The outbox has grown by the entries of the rows, in their order, and nothing else has changed.
abbrev pub Queued : List DueRow → Db → Db → Type 0
Queued due before after =
    (map entry_key after.outbox ≡ map entry_key before.outbox ++ map due_key due)
    × (after.deliveries ≡ before.deliveries)
    × (after.requests ≡ before.requests)
    × (after.batches ≡ before.batches)

pub append_key :
    {A B : Type 0} (f : A → B) (xs : List A) (x : A) → map f (xs ++ x ∷ []) ≡ map f xs ++ f x ∷ []
append_key f [] x = refl
append_key f (y ∷ ys) x = ap (λ l. f y ∷ l) (append_key f ys x)

Queued-more :
    (d : DueRow) (ds : List DueRow) (a b c : Db)
    → Queued (d ∷ []) a b
    → Queued ds b c
    → Queued (d ∷ ds) a c
Queued-more d ds a b c h k =
    (k.0 ∙ ap (λ l. l ++ map due_key ds) h.0 ∙ append_more _ _ _, k.1 ∙ h.1, k.2 ∙ h.2, k.3 ∙ h.3)

length-map : {A B : Type 0} (f : A → B) (xs : List A) → length (map f xs) ≡ length xs
length-map f [] = refl
length-map f (x ∷ xs) = omega (arith, length-map f xs)

enqueue_one :
    (d : DueRow) (s : Session)
    → Outcome
        (λ _ t. (t.faults ≡ s.faults) × (t.now ≡ s.now) × Queued (d ∷ []) s.db t.db)
        (λ e t. Unit {0})
        (enqueue_due d s)
unfolding enqueue_due new_uuid ◌>>=◌ insert_outbox_if
enqueue_one d s =
    Outcome-mono _ (λ _ t h. (h.0, h.1, rw h.3 (append_key _ _ _, refl, refl, refl))) (λ _ t h. tt)
      (insert_outbox-Writes (some _) _)

enqueue_each :
    (due : List DueRow) (s : Session)
    → Outcome
        (λ _ t. (t.faults ≡ s.faults) × (t.now ≡ s.now) × Queued due s.db t.db)
        (λ e t. Unit {0})
        (each enqueue_due due s)
unfolding each
enqueue_each [] s = done (refl, refl, (append_nil _, refl, refl, refl))
enqueue_each (d ∷ ds) s = bind_rule _ _ s (
    Outcome-mono _
      (λ _ t h.
        Outcome-mono _ (λ _ u k. (k.0 ∙ h.0, k.1 ∙ h.1, Queued-more d ds s.db t.db u.db h.2 k.2))
          (λ _ u k. tt) (enqueue_each ds t))
      (λ _ t h. tt) (enqueue_one d s))

-- What a transition does to the tables, given the rows that it picks.
abbrev pub Moves : Action ℕ → (Time → ℕ → List Delivery → List Delivery) → ℕ → Session → Type 0
Moves m pick limit s =
    let picked = pick s.now limit s.db.deliveries in
    Outcome
      (λ n t.
        (n ≡ length (map due_row picked))
        × Queued (map due_row picked)
            (record s.db {
              deliveries = update (in_rows picked) (as_pending s.now) s.db.deliveries;
            })
            t.db)
      (λ e t. t.db ≡ s.db) (m s)

transition-Moves :
    (pick : Time → ℕ → List Delivery → List Delivery) (limit : ℕ) (s : Session)
    → Moves (transition_and_enqueue pick limit) pick limit s
unfolding transition_and_enqueue
transition-Moves pick limit s =
    with_tx_rule _ s (λ _ t f e. e)
      (bind_rule _ _ _ (
        statement_rule _ _ _ _ (λ f. refl)
          (bind_rule _ _ _ (
            Outcome-mono _ (λ _ t h. done (h.0, (refl, h.2))) (λ _ t h. refl)
              (enqueue_each (map due_row (pick s.now limit s.db.deliveries)) _)))))

-- Promoting the scheduled deliveries that are due makes them pending and puts an unpublished outbox
-- row for each of them on its stream, in the same transaction: either both happen, or nothing.
pub promote_due-Moves : (limit : ℕ) (s : Session) → Moves (promote_due limit) pick_scheduled limit s
unfolding promote_due
promote_due-Moves limit s = transition-Moves pick_scheduled limit s

-- Sweeping the deliveries whose retry is due makes them pending and puts an unpublished outbox row for
-- each of them on its stream, in the same transaction: either both happen, or nothing.
pub sweep_retries-Moves :
    (limit : ℕ) (s : Session) → Moves (sweep_retries limit) pick_retries limit s
unfolding sweep_retries
sweep_retries-Moves limit s = transition-Moves pick_retries limit s

-- Reconciling queues the pending deliveries that have waited too long without an unpublished outbox
-- row, at most as many as asked for, and changes no delivery.
pub reconcile_pending_ends :
    (older_than limit : ℕ) (s : Session)
    → Outcome
        (λ n t.
          (n ≤ limit) × Queued (map due_row (orphans (s.now - older_than) limit s.db)) s.db t.db)
        (λ e t. t.db ≡ s.db)
        (reconcile_pending older_than limit s)
unfolding reconcile_pending
reconcile_pending_ends older_than limit s =
    with_tx_rule _ s (λ _ t f e. e)
      (bind_rule _ _ _ (
        statement_rule _ _ _ _ (λ f. refl)
          (bind_rule _ _ _ (
            Outcome-mono _ (λ _ t h. done (h.0, (bounded, h.2))) (λ _ t h. refl)
              (enqueue_each (map due_row (orphans (s.now - older_than) limit s.db)) _)))))
  where
    bounded : length (map due_row (orphans (s.now - older_than) limit s.db)) ≤ limit
    bounded = omega (
      arith,
      length-map due_row (orphans (s.now - older_than) limit s.db),
      length-take_le limit (waiting (s.now - older_than) s.db),
    )
