-- ===== src/Store/Outbox.antt =====
-- outbox.go: the transactional outbox. The JSON payload is the message itself.
use notification_system.Prelude.{
  ℕ, Bool, not, List, [], ◌∷◌, ◌++◌, none, some, ◌==◌, any, select, map, take, update, count,
  is_some, if◌then◌else◌,
}
use notification_system.Domain.Errors.{other}
use notification_system.Domain.Models.{Uuid, Time, OutboxRecord, OutboxEntry}
use notification_system.Store.Session.{
  OutboxRow, Db, Action, pure, raise, ◌>>=◌, statement, exec, query,
}
use notification_system.Store.Tables.{order_by}

abbrev pub outbox_row : OutboxRecord → Time → OutboxRow
outbox_row o now = record {
  id = o.id;
  delivery_id = o.delivery_id;
  delivery_created_at = o.delivery_created_at;
  stream = o.stream;
  payload = o.message;
  created_at = now;
  published_at = none;
}

abbrev pub outbox_id_taken : Uuid → List OutboxRow → Bool
outbox_id_taken id = any (λ o. o.id == id)

-- The row goes in, unless its id is taken.
abbrev pub with_outbox : OutboxRecord → Time → Db → Db
with_outbox o now db =
    if outbox_id_taken o.id db.outbox
    then db
    else record db { outbox = db.outbox ++ outbox_row o now ∷ [] }

-- `insertOutbox`
unfoldable pub insert_outbox : OutboxRecord → Action (Unit {0})
insert_outbox o = do
  taken ←
      statement "insert outbox" (λ s. outbox_id_taken o.id s.db.outbox)
        (λ s. with_outbox o s.now s.db)
  if taken then raise (other "insert outbox") else pure tt

abbrev pub is_unpublished : OutboxRow → Bool
is_unpublished o = not (is_some o.published_at)

abbrev pub entry_of : OutboxRow → OutboxEntry
entry_of o = record { id = o.id; stream = o.stream; message = o.payload }

-- The oldest unpublished rows, as many as the limit allows.
abbrev pub unpublished : ℕ → List OutboxRow → List OutboxRow
unpublished limit rows = take limit (order_by (λ o. o.created_at) (select is_unpublished rows))

-- `FetchUnpublishedOutbox`
unfoldable pub fetch_unpublished_outbox : ℕ → Action (List OutboxEntry)
fetch_unpublished_outbox limit =
    query "fetch outbox" (λ s. map entry_of (unpublished limit s.db.outbox))

abbrev pub is_in : List Uuid → Uuid → Bool
is_in ids id = any (λ i. i == id) ids

abbrev pub published : List Uuid → Time → List OutboxRow → List OutboxRow
published ids now = update (λ o. is_in ids o.id) (λ o. record o { published_at = some now })

-- `MarkOutboxPublished`: no statement at all for an empty list.
unfoldable pub mark_outbox_published : List Uuid → Action (Unit {0})
mark_outbox_published [] = pure tt
mark_outbox_published (i ∷ ids) =
    exec "mark outbox published"
      (λ s. record s.db { outbox = published (i ∷ ids) s.now s.db.outbox })

-- `CountUnpublishedOutbox`
unfoldable pub count_unpublished_outbox : Action ℕ
count_unpublished_outbox = query "count outbox" (λ s. count is_unpublished s.db.outbox)
