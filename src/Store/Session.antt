-- ===== src/Store/Session.antt =====
-- store.go: a session with the database, and `withTx`. A statement either takes effect or fails, as
-- the session's oracle says; a failed one changes nothing. Time is the session's, and so are the
-- UUIDs that `uuid.New` draws. The reads of the `reader` pool go to `replica`, which is the primary
-- or an older state of it.
use notification_system.Prelude.{
  ℕ, ◌+◌, String, Bool, List, Option, none, some, if◌then◌else◌, ◌++◌, [], ◌∷◌,
}
use notification_system.Domain.Errors.{Error, other, Result, ok, err}
use notification_system.Effects.{Event}
use notification_system.Domain.Models.{
  Uuid, Time, Batch, Request, Delivery, DeliveryMessage, Template,
}

-- A row of `outbox`; the payload is the message that it encodes.
pub record OutboxRow : Type 0 where
  pub id : Uuid
  pub delivery_id : Uuid
  pub delivery_created_at : Time
  pub stream : String
  pub payload : DeliveryMessage
  pub created_at : Time
  pub published_at : Option Time

pub record Db : Type 0 where
  pub batches : List Batch
  pub templates : List Template
  pub requests : List Request
  pub deliveries : List Delivery
  pub outbox : List OutboxRow

pub record Session : Type 0 where
  pub db : Db
  pub replica : Db
  pub now : Time
  pub faults : ℕ → Bool
  pub tick : ℕ
  pub uuids : ℕ → Uuid
  pub drawn : ℕ
  pub events : List Event

abbrev pub Action : Type 0 → Type 0
Action A = Session → Result A × Session

abbrev pub pure : {A : Type 0} → A → Action A
pure a s = (ok a, s)

abbrev pub raise : {A : Type 0} → Error → Action A
raise e s = (err e, s)

unfoldable pub or_fail : {A : Type 0} → Option A → Error → Action A
or_fail none e = raise e
or_fail (some a) e = pure a

infixl 5 ◌>>=◌ ◌>>◌
unfoldable pub ◌>>=◌ : {A B : Type 0} → Action A → (A → Action B) → Action B
◌>>=◌ m f s = let (r, s') = m s in elim r [ ok a ↦ f a s' | err e ↦ (err e, s') ]

abbrev pub ◌>>◌ : {B : Type 0} → Action (Unit {0}) → Action B → Action B
m >> k = m >>= λ _. k

-- A statement with what it returns and the tables that it leaves.
unfoldable pub statement : {A : Type 0} → String → (Session → A) → (Session → Db) → Action A
statement what read write s =
    if s.faults s.tick
    then (err (other what), record s { tick = s.tick + 1 })
    else (ok (read s), record s { tick = s.tick + 1; db = write s })

-- A statement that returns nothing.
abbrev pub exec : String → (Session → Db) → Action (Unit {0})
exec what write = statement what (λ _. tt) write

-- A statement that changes nothing.
abbrev pub query : {A : Type 0} → String → (Session → A) → Action A
query what read = statement what read (λ s. s.db)

-- `uuid.New`
unfoldable pub new_uuid : Action Uuid
new_uuid s = (ok (s.uuids s.drawn), record s { drawn = s.drawn + 1 })

-- `clock.Now`
unfoldable pub clock_now : Action Time
clock_now s = (ok s.now, s)

-- An effect that cannot fail, such as a counter.
unfoldable pub emit : Event → Action (Unit {0})
emit e s = (ok tt, record s { events = s.events ++ e ∷ [] })

-- A call of an outside service that has the effect, or fails and has none.
unfoldable pub external : String → Event → Action (Unit {0})
external what e s =
    if s.faults s.tick
    then (err (other what), record s { tick = s.tick + 1 })
    else (ok tt, record s { tick = s.tick + 1; events = s.events ++ e ∷ [] })

-- The error as a value, for a caller that looks at it.
unfoldable pub attempt : {A : Type 0} → Action A → Action (Result A)
attempt m s = let (r, t) = m s in (ok r, t)

-- The tables as they were, once an error has been returned.
abbrev pub roll_back : {A : Type 0} → Db → Result A × Session → Result A × Session
roll_back db (ok a, s) = (ok a, s)
roll_back db (err e, s) = (err e, record s { db = db })

-- `withTx`: begin, run, and commit, or roll back on an error.
unfoldable pub with_tx : {A : Type 0} → Action A → Action A
with_tx body s =
    roll_back s.db ((do exec "begin" (λ t. t.db); a ← body; exec "commit" (λ t. t.db); pure a) s)

-- A `for` loop that returns at the first error.
unfoldable pub each : {A : Type 0} → (A → Action (Unit {0})) → List A → Action (Unit {0})
each f [] = pure tt
each f (x ∷ xs) = do f x; each f xs
