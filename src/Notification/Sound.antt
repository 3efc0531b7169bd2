-- ===== src/Notification/Sound.antt =====
-- The use cases that write, and the invariant of the tables.
use notification_system.Prelude.{
  String, Option, none, some, List, [], ◌∷◌, ◌≡◌, refl, ◌⊎◌, inl, inr, All, Bool-cases, same_text,
}
use notification_system.Domain.Enums.{DeliveryStatus}
use notification_system.Domain.Errors.{
  Error, Result, ok, err, not_found, conflict, cancel_not_allowed, validation,
  template_variables_missing, other,
}
use notification_system.Domain.Models.{Uuid, Time, BatchItem, BatchResult}
use notification_system.Notification.Build.{
  BuiltNotification, is_future, content_of, outbox_of, build, built_delivery,
}
use notification_system.Notification.Input.{CreateInput, BatchInput}
use notification_system.Notification.Service.{
  unless_missing, existing, find_existing, recover, after_insert, insert_new, create, CreateResult,
  build_items, after_batch, insert_new_batch, create_batch, new_row, replayed, replayed_batch,
  BatchCreateResult,
}
use notification_system.Store.Batches.{get_batch_by_idempotency_key}
use notification_system.Store.Requests.{get_request_by_idempotency_key}
use notification_system.Store.Session.{Db, Session, Action, pure, ◌>>=◌, clock_now, new_uuid, emit}
use notification_system.Store.System.{Inv}
use notification_system.Store.System.Stays.{
  Stays, query-Stays, bind-Stays, or_fail-Stays, attempt-Stays, if-Stays, each-Stays, Gives,
  bind-Gives, bind-Stays_given, bind-Gives_given, new_uuid-Stays, clock_now-Stays,
}
use notification_system.Store.System.{
  New, NewIn, create_notification-Inv, create_batch-Inv as store_batch-Inv,
}
use notification_system.Template.{render, get_template_by_id, refuse_missing}

module _ (P : Db → Type 0) where
  refuse_missing-Stays : (names : List String) → Stays P (refuse_missing names)
  refuse_missing-Stays [] s h = h
  refuse_missing-Stays (k ∷ ks) s h = h

  render-Stays :
      (id : Uuid) (channel : String) (variables : List (String × String))
      → Stays P (render id channel variables)
  unfolding render get_template_by_id
  render-Stays id channel variables =
      bind-Stays P _ _ (bind-Stays P _ _ (query-Stays P _ _) (λ row. or_fail-Stays P row not_found))
        (λ tmpl.
          bind-Stays P _ _ (if-Stays P (same_text tmpl.channel channel) _ _ (λ s h. h) (λ s h. h))
            (λ _. bind-Stays P _ _ (refuse_missing-Stays _) (λ _ s h. h)))

  content_of-Stays : (i : CreateInput) → Stays P (content_of i)
  unfolding content_of
  content_of-Stays i =
      elim i.template_id
        as (λ o. Stays P (elim o as (λ _. Action String) [
          | none ↦ pure i.content
          | some t ↦ render t i.channel i.variables >>= λ r. pure r.1
        ])) [
          | none ↦ λ s h. h
          | some t ↦ bind-Stays P _ _ (render-Stays t i.channel i.variables) (λ r s h. h)
        ]

  build-Stays :
      (i : CreateInput) (batch : Option Uuid) (correlation : String)
      → Stays P (build i batch correlation)
  unfolding build outbox_of clock_now new_uuid
  build-Stays i batch correlation = bind-Stays P _ _ (content_of-Stays i) (λ content.
      bind-Stays P _ _ (λ s h. h)
        (λ now.
          bind-Stays P _ _ (λ s h. h)
            (λ rid.
              bind-Stays P _ _ (λ s h. h)
                (λ did.
                  bind-Stays P _ _
                    (if-Stays P (is_future i.send_at now) _ _ (λ s h. h)
                      (bind-Stays P _ _ (λ s h. h) (λ o s h. h)))
                    (λ o s h. h)))))

built_delivery_waits :
    (i : CreateInput) (rid did : Uuid) (now : Time)
    → let d = built_delivery i rid did now in
      ((d.status ≡ DeliveryStatus.pending) ⊎ (d.status ≡ DeliveryStatus.scheduled))
built_delivery_waits i rid did now = elim (Bool-cases (is_future i.send_at now)) [
  | inl later ↦ inr (rw later refl)
  | inr at_once ↦ inl (rw at_once refl)
]

-- The rows that `build` returns are new ones.
abbrev NewRows : Option Uuid → BuiltNotification → Type 0
NewRows batch b = New b.request b.delivery × (b.request.batch_id ≡ batch)

build-NewRows :
    (i : CreateInput) (batch : Option Uuid) (correlation : String)
    → Gives (NewRows batch) (build i batch correlation)
unfolding build
build-NewRows i batch correlation = bind-Gives (NewRows batch) _ _ (λ content.
    bind-Gives _ _ _ (λ now. bind-Gives _ _ _ (λ rid.
      bind-Gives _ _ _ (λ did.
        bind-Gives _ _ _ (λ o s. ((refl, refl, built_delivery_waits i rid did now), refl))))))

module _ (P : Db → Type 0) where
  recover-Stays :
      {A B : Type 0} (get : String → Action A) (found : A → B) (key : Option String) (e : Error)
      → ((k : String) → Stays P (get k))
      → Stays P (recover get found key e)
  unfolding recover
  recover-Stays get found (some k) conflict h = bind-Stays P _ _ (h k) (λ a s p. p)
  recover-Stays get found none e h = λ s p. p
  recover-Stays get found (some k) not_found h = λ s p. p
  recover-Stays get found (some k) cancel_not_allowed h = λ s p. p
  recover-Stays get found (some k) (validation f m) h = λ s p. p
  recover-Stays get found (some k) (template_variables_missing ks) h = λ s p. p
  recover-Stays get found (some k) (other m) h = λ s p. p

  unless_missing-Stays : {A : Type 0} (r : Result A) → Stays P (unless_missing r)
  unless_missing-Stays (ok a) s p = p
  unless_missing-Stays (err not_found) s p = p
  unless_missing-Stays (err conflict) s p = p
  unless_missing-Stays (err cancel_not_allowed) s p = p
  unless_missing-Stays (err (validation f m)) s p = p
  unless_missing-Stays (err (template_variables_missing ks)) s p = p
  unless_missing-Stays (err (other m)) s p = p

  find_existing-Stays :
      {A : Type 0} (get : String → Action A) (key : Option String)
      → ((k : String) → Stays P (get k))
      → Stays P (find_existing get key)
  unfolding existing
  find_existing-Stays get none h = λ s p. p
  find_existing-Stays get (some k) h =
      bind-Stays P _ _ (attempt-Stays P (get k) (h k)) unless_missing-Stays

  request_by_key-Stays : (user key : String) → Stays P (get_request_by_idempotency_key user key)
  unfolding get_request_by_idempotency_key
  request_by_key-Stays user key =
      bind-Stays P _ _ (query-Stays P _ _) (λ row. or_fail-Stays P row not_found)

  batch_by_key-Stays : (user key : String) → Stays P (get_batch_by_idempotency_key user key)
  unfolding get_batch_by_idempotency_key
  batch_by_key-Stays user key =
      bind-Stays P _ _ (query-Stays P _ _) (λ row. or_fail-Stays P row not_found)

  after_insert-Stays :
      (i : CreateInput) (built : BuiltNotification) (r : Result (Unit {0}))
      → Stays P (after_insert i built r)
  unfolding after_insert emit
  after_insert-Stays i built (ok _) = bind-Stays P _ _ (λ s p. p) (λ _ s p. p)
  after_insert-Stays i built (err e) =
      recover-Stays _ _ i.idempotency_key e (request_by_key-Stays i.user_id)

  after_batch-Stays :
      (b : BatchInput) (items : List BatchItem) (r : Result BatchResult)
      → Stays P (after_batch b items r)
  unfolding after_batch emit
  after_batch-Stays b items (ok res) =
      bind-Stays P _ _ (each-Stays P _ items (λ i s p. p)) (λ _ s p. p)
  after_batch-Stays b items (err e) =
      recover-Stays _ _ b.idempotency_key e (batch_by_key-Stays b.user_id)

insert_new-Inv : (i : CreateInput) (correlation : String) → Stays Inv (insert_new i correlation)
unfolding insert_new
insert_new-Inv i correlation =
    bind-Stays_given Inv (NewRows none) _ _ (build-Stays Inv i none correlation)
      (build-NewRows i none correlation)
      (λ built new.
        bind-Stays Inv _ _
          (attempt-Stays Inv _
            (λ s. create_notification-Inv built.request built.delivery built.outbox s new.0 new.1))
          (after_insert-Stays Inv i built))

-- Creating a notification keeps the invariant of the tables, whatever the input, the time and the
-- faults: what the service stores always meets what the store asks of new rows.
pub create-Inv :
    (i : CreateInput) (correlation : String) (s : Session)
    → Inv s.db
    → Inv (create i correlation s).1.db
unfolding create
create-Inv i correlation =
    bind-Stays Inv _ _ (λ s p. p)
      (λ _.
        bind-Stays Inv _ _
          (find_existing-Stays Inv _ i.idempotency_key (request_by_key-Stays Inv i.user_id))
          (λ found.
            elim found
              as (λ o. Stays Inv (elim o as (λ _. Action CreateResult) [
                | some r ↦ pure (replayed r)
                | none ↦ insert_new i correlation
              ])) [ some r ↦ λ s p. p | none ↦ insert_new-Inv i correlation ]))

build_items-Stays :
    (P : Db → Type 0) (user : String) (b : Uuid) (correlation : String) (is : List CreateInput)
    → Stays P (build_items user b correlation is)
unfolding build_items
build_items-Stays P user b correlation [] = λ s p. p
build_items-Stays P user b correlation (i ∷ is) =
    bind-Stays P _ _ (build-Stays P _ _ _)
      (λ built. bind-Stays P _ _ (build_items-Stays P user b correlation is) (λ rest s p. p))

build_items-NewIn :
    (user : String) (b : Uuid) (correlation : String) (is : List CreateInput)
    → Gives (All (NewIn b)) (build_items user b correlation is)
unfolding build_items
build_items-NewIn user b correlation [] = λ s. tt
build_items-NewIn user b correlation (i ∷ is) =
    bind-Gives_given (NewRows (some b)) _ _ _ (build-NewRows _ _ _) (λ built new.
      bind-Gives_given (All (NewIn b)) _ _ _ (build_items-NewIn user b correlation is)
        (λ rest h s. (new, h)))

insert_new_batch-Inv :
    (b : BatchInput) (correlation : String) → Stays Inv (insert_new_batch b correlation)
unfolding insert_new_batch
insert_new_batch-Inv b correlation = bind-Stays Inv _ _ (new_uuid-Stays Inv) (λ batch_id.
    bind-Stays Inv _ _ (clock_now-Stays Inv) (λ now.
      bind-Stays_given Inv (All (NewIn batch_id)) _ _
        (build_items-Stays Inv b.user_id batch_id correlation b.items)
        (build_items-NewIn b.user_id batch_id correlation b.items)
        (λ items new.
          bind-Stays Inv _ _
            (attempt-Stays Inv _ (λ s. store_batch-Inv (new_row b batch_id now) items s new))
            (after_batch-Stays Inv b items))))

-- Creating a batch keeps the invariant of the tables, whatever the input, the time and the faults.
pub create_batch_service-Inv :
    (b : BatchInput) (correlation : String) (s : Session)
    → Inv s.db
    → Inv (create_batch b correlation s).1.db
unfolding create_batch
create_batch_service-Inv b correlation =
    bind-Stays Inv _ _ (λ s p. p)
      (λ _.
        bind-Stays Inv _ _
          (find_existing-Stays Inv _ b.idempotency_key (batch_by_key-Stays Inv b.user_id))
          (λ found.
            elim found
              as (λ o. Stays Inv (elim o as (λ _. Action BatchCreateResult) [
                | some x ↦ pure (replayed_batch x)
                | none ↦ insert_new_batch b correlation
              ])) [ some x ↦ λ s p. p | none ↦ insert_new_batch-Inv b correlation ]))
