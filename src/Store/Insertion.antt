-- ===== src/Store/Insertion.antt =====
-- `CreateNotification`, of postgres/request.go: its three rows, and the idempotency keys.
use text.Mathlib.TextEquality.{eq_iff}
use notification_system.Prelude.{
  ◌≡◌, refl, sym, subst, ◌∙◌, ◌⊎◌, inl, inr, Bool, false, Bool-cases, Option, none, some, List, [],
  ◌∷◌, ◌++◌, arith, any, same_text, String,
}
use notification_system.Domain.Errors.{Result}
use notification_system.Domain.Models.{Time, Request, Delivery, OutboxRecord}
use notification_system.Store.Deliveries.{insert_delivery, delivery_taken}
use notification_system.Store.Outbox.{insert_outbox, outbox_row, outbox_id_taken}
use notification_system.Store.Outcome.{
  Outcome, statement_rule, bind_rule, if_rule, with_tx_rule, Outcome-mono, done, failed,
}
use notification_system.Store.Requests.{
  same_key, request_key_taken, insertion, inserted, duplicate_id, duplicate_key, dangling,
  Insertion, with_request, insert_request, insert_outbox_if, create_notification,
}
use notification_system.Store.Session.{Db, Session, Action}

-- The action succeeds under a condition only, and leaves the tables given.
abbrev pub Writes : Action (Unit {0}) → Session → Type 0 → Db → Type 0
Writes m s C db =
    Outcome (λ _ t. (t.faults ≡ s.faults) × (t.now ≡ s.now) × C × (t.db ≡ db)) (λ e t. Unit {0})
      (m s)

abbrev pub add_request : Request → Db → Db
add_request r db = record db { requests = db.requests ++ r ∷ [] }

abbrev pub add_delivery : Delivery → Db → Db
add_delivery d db = record db { deliveries = db.deliveries ++ d ∷ [] }

abbrev pub add_outbox : Option OutboxRecord → Time → Db → Db
add_outbox none now db = db
add_outbox (some o) now db = record db { outbox = db.outbox ++ outbox_row o now ∷ [] }

pub Insertion-cases :
    (i : Insertion) → (i ≡ inserted) ⊎ ((i ≡ duplicate_id) ⊎ ((i ≡ duplicate_key) ⊎ (i ≡ dangling)))
Insertion-cases inserted = inl refl
Insertion-cases duplicate_id = inr (inl refl)
Insertion-cases duplicate_key = inr (inr (inl refl))
Insertion-cases dangling = inr (inr (inr refl))

pub with_request-inserted :
    (r : Request) (db : Db) → insertion r db ≡ inserted → with_request r db ≡ add_request r db
with_request-inserted r db e = rw (e, with_request) refl

insert_request-Writes :
    (r : Request) (s : Session)
    → Writes (insert_request r) s (insertion r s.db ≡ inserted) (add_request r s.db)
unfolding insert_request
insert_request-Writes r s = bind_rule _ _ s (
    statement_rule _ _ _ s (λ f. tt)
      (elim (Insertion-cases (insertion r s.db)) [
        | inl e ↦ rw e (done (refl, refl, refl, with_request-inserted r s.db e))
        | inr (inl e) ↦ rw e (failed tt)
        | inr (inr (inl e)) ↦ rw e (failed tt)
        | inr (inr (inr e)) ↦ rw e (failed tt)
      ]))

pub insert_delivery-Writes :
    (d : Delivery) (s : Session)
    → Writes (insert_delivery d) s (delivery_taken d s.db ≡ false) (add_delivery d s.db)
unfolding insert_delivery
insert_delivery-Writes d s = bind_rule _ _ s (
    statement_rule _ _ _ s (λ f. tt)
      (if_rule (delivery_taken d s.db) _ _ _ (λ taken. failed tt)
        (λ free. rw free (done (refl, refl, refl, refl)))))

pub insert_outbox-Writes :
    (o : Option OutboxRecord) (s : Session)
    → Writes (insert_outbox_if o) s (Unit {0}) (add_outbox o s.now s.db)
unfolding insert_outbox_if insert_outbox
insert_outbox-Writes none s = done (refl, refl, tt, refl)
insert_outbox-Writes (some o) s = bind_rule _ _ s (
    statement_rule _ _ _ s (λ f. tt)
      (if_rule (outbox_id_taken o.id s.db.outbox) _ _ _ (λ taken. failed tt)
        (λ free. rw free (done (refl, refl, tt, refl)))))

untaken :
    (d : Delivery) (a b : Db) → delivery_taken d a ≡ false → a ≡ b → delivery_taken d b ≡ false
untaken d a b h e = subst (λ x. delivery_taken d x ≡ false) e h

-- The rows of a notification, in the tables.
abbrev pub created : Request → Delivery → Option OutboxRecord → Time → Db → Db
created r d o now db = add_outbox o now (add_delivery d (add_request r db))

pub create_notification_ends :
    (r : Request) (d : Delivery) (o : Option OutboxRecord) (s : Session)
    → Outcome
        (λ _ t.
          (insertion r s.db ≡ inserted)
          × (delivery_taken d s.db ≡ false)
          × (t.db ≡ created r d o s.now s.db))
        (λ e t. t.db ≡ s.db)
        (create_notification r d o s)
unfolding create_notification
create_notification_ends r d o s =
    with_tx_rule _ s (λ _ t f e. e)
      (bind_rule _ _ _ (
        Outcome-mono _
          (λ _ t h. bind_rule _ _ t (
            Outcome-mono _
              (λ _ u k.
                Outcome-mono _
                  (λ _ v l. (
                    l.0 ∙ k.0 ∙ h.0,
                    (h.2, untaken d t.db _ k.2 h.3, rw (l.3, k.1, h.1, k.3, h.3) refl),
                  ))
                  (λ _ v l. refl) (insert_outbox-Writes o u))
              (λ _ u k. refl) (insert_delivery-Writes d t)))
          (λ _ t h. refl) (insert_request-Writes r _)))

-- Creating a notification stores its request, its delivery and the outbox row of an immediate send
-- together, and only if neither the request's id nor the user's key is taken and the batch and the
-- template that it names exist; otherwise nothing is stored.
pub create_notification_atomic :
    (r : Request) (d : Delivery) (o : Option OutboxRecord) (s : Session)
    → Outcome
        (λ _ t. (insertion r s.db ≡ inserted) × (t.db ≡ created r d o s.now s.db))
        (λ e t. t.db ≡ s.db)
        (create_notification r d o s)
create_notification_atomic r d o s =
    Outcome-mono _ (λ _ t h. (h.0, h.2)) (λ e t h. h) (create_notification_ends r d o s)

same_text_sym : (a b : String) → same_text a b ≡ same_text b a
same_text_sym a b = elim (Bool-cases (same_text a b)) [
  | inl e ↦ rw ((eq_iff a b).0 e) refl
  | inr e ↦ elim (Bool-cases (same_text b a)) [
    | inl f ↦ rw ((eq_iff b a).0 f) refl
    | inr f ↦ e ∙ sym f
  ]
]

keys_sym :
    (u v : String) (j k : Option String) (r q : Request)
    → r.user_id ≡ u
    → q.user_id ≡ v
    → r.idempotency_key ≡ j
    → q.idempotency_key ≡ k
    → same_key u j q ≡ false
    → same_key v k r ≡ false
keys_sym u v j none r q eu ev ej ek h = refl
keys_sym u v none (some k) r q eu ev ej ek h = ground arith
keys_sym u v (some j) (some k) r q eu ev ej ek h =
    ground (arith, same_text_sym u v, same_text_sym j k)

-- Two rows share a user and an idempotency key whichever of them is asked.
same_key-sym :
    (r q : Request)
    → same_key r.user_id r.idempotency_key q ≡ false
    → same_key q.user_id q.idempotency_key r ≡ false
same_key-sym r q h = keys_sym _ _ _ _ r q refl refl refl refl h

-- No user has two requests with one idempotency key.
abbrev pub KeysDistinct : List Request → Type 0
KeysDistinct [] = Unit
KeysDistinct (r ∷ rs) = (any (same_key r.user_id r.idempotency_key) rs ≡ false) × KeysDistinct rs

any-append-none :
    (p : Request → Bool) (rs : List Request) (r : Request)
    → any p rs ≡ false
    → p r ≡ false
    → any p (rs ++ r ∷ []) ≡ false
any-append-none p [] r h k = rw k refl
any-append-none p (q ∷ rs) r h k = ground (arith, any-append-none p rs r)

pub append-KeysDistinct :
    (rs : List Request) (r : Request)
    → KeysDistinct rs
    → any (same_key r.user_id r.idempotency_key) rs ≡ false
    → KeysDistinct (rs ++ r ∷ [])
append-KeysDistinct [] r h k = (refl, tt)
append-KeysDistinct (q ∷ rs) r h k = (
  any-append-none _ rs r h.0 (same_key-sym r q (ground (arith, k))),
  append-KeysDistinct rs r h.1 (ground (arith, k)),
)

pub requests_of :
    (o : Option OutboxRecord) (now : Time) (db : Db) → (add_outbox o now db).requests ≡ db.requests
requests_of none now db = refl
requests_of (some o) now db = refl

pub key_free : (r : Request) (db : Db) → insertion r db ≡ inserted → request_key_taken r db ≡ false
key_free r db e = ground arith

-- Creating a notification keeps it so that no user has two requests with one idempotency key.
pub create_notification-KeysDistinct :
    (r : Request) (d : Delivery) (o : Option OutboxRecord) (s : Session)
    → KeysDistinct s.db.requests
    → KeysDistinct (create_notification r d o s).1.db.requests
create_notification-KeysDistinct r d o s h =
    settle (create_notification r d o s) (create_notification_atomic r d o s)
  where
    settle :
        (x : Result (Unit {0}) × Session)
        → Outcome
            (λ _ t. (insertion r s.db ≡ inserted) × (t.db ≡ created r d o s.now s.db))
            (λ e t. t.db ≡ s.db)
            x
        → KeysDistinct x.1.db.requests
    settle x (done (free, e)) =
        rw (e, requests_of o s.now (add_delivery d (add_request r s.db)))
          (append-KeysDistinct s.db.requests r h (key_free r s.db free))
    settle x (failed e) = rw e h
