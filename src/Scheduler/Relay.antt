-- ===== src/Scheduler/Relay.antt =====
-- `relayOutbox`, of scheduler/jobs.go: what is published and what is marked.
use notification_system.Prelude.{
  append_more, append_nil, ℕ, ◌+◌, ◌≡◌, refl, ap, ◌∙◌, inl, inr, ◌⊎◌, Bool, true, false, subst,
  length, arith, if◌then◌else◌, List, [], ◌∷◌, ◌++◌, map,
}
use notification_system.Domain.Errors.{Result}
use notification_system.Domain.Models.{Uuid, Time, OutboxEntry}
use notification_system.Effects.{Event, published}
use notification_system.Queue.{publish}
use notification_system.Scheduler.Jobs.{publish_entries, relay_round, relay_entries}
use notification_system.Store.Outcome.{
  statement_exact_rule, Outcome, stepped, bind_rule, statement_rule, attempt_rule, external_rule,
  Outcome-mono, done,
}
use notification_system.Store.Outbox.{
  fetch_unpublished_outbox, mark_outbox_published, unpublished, entry_of, published as mark_rows,
}
use notification_system.Store.Session.{Db, OutboxRow, Session}

abbrev pub publication : OutboxEntry → Event
publication e = published e.stream e.message

-- The entries that reach their stream, in their order: one after the other is sent by a call of its
-- own, the first by the call with the given number, and those are left out whose own call fails.
abbrev pub reached : (ℕ → Bool) → ℕ → List OutboxEntry → List OutboxEntry
reached faults n [] = []
reached faults n (e ∷ es) =
    let rest = reached faults (n + 1) es in if faults n then rest else e ∷ rest

-- What publishing the entries does.
pub record Relayed (es : List OutboxEntry) (s : Session) (ids : List Uuid) (t : Session)
    : Type 0 where
  pub marked : ids ≡ map (λ e. e.id) (reached s.faults s.tick es)
  pub sent : t.events ≡ s.events ++ map publication (reached s.faults s.tick es)
  pub calls : t.tick ≡ s.tick + length es
  pub tables : t.db ≡ s.db
  pub faults : t.faults ≡ s.faults
  pub now : t.now ≡ s.now

Relayed-drop :
    (es : List OutboxEntry) (s t : Session) (ids : List Uuid) (e : OutboxEntry)
    → s.faults s.tick ≡ true
    → Relayed es (stepped s s.db) ids t
    → Relayed (e ∷ es) s ids t
Relayed-drop es s t ids e f h = record {
  marked = rw f h.marked;
  sent = rw f h.sent;
  calls = omega (arith, h.calls);
  tables = h.tables;
  faults = h.faults;
  now = h.now;
}

Relayed-keep :
    (es : List OutboxEntry) (s t : Session) (ids : List Uuid) (e : OutboxEntry)
    → s.faults s.tick ≡ false
    → Relayed es (record s { tick = s.tick + 1; events = s.events ++ publication e ∷ [] }) ids t
    → Relayed (e ∷ es) s (e.id ∷ ids) t
Relayed-keep es s t ids e f h = record {
  marked = rw f (ap (λ l. e.id ∷ l) h.marked);
  sent = rw f (h.sent ∙ append_more _ _ _);
  calls = omega (arith, h.calls);
  tables = h.tables;
  faults = h.faults;
  now = h.now;
}

-- Publishing returns exactly the ids of the entries that reached their stream; the others are left
-- out, and no table changes.
pub publish_entries-Relayed :
    (es : List OutboxEntry) (s : Session) → Outcome (Relayed es s) (λ e t. ⊥) (publish_entries es s)
unfolding publish_entries publish
publish_entries-Relayed [] s = done (record {
  marked = refl;
  sent = append_nil s.events;
  calls = omega arith;
  tables = refl;
  faults = refl;
  now = refl;
})
publish_entries-Relayed (e ∷ es) s = bind_rule _ _ s (
    attempt_rule _ s (
      external_rule "xadd" (publication e) s
        (λ faulty. bind_rule _ _ _ (
          Outcome-mono _ (λ ids t h. done (Relayed-drop es s t ids e faulty h)) (λ _ t x. x)
            (publish_entries-Relayed es _)))
        (λ fine. bind_rule _ _ _ (
          Outcome-mono _ (λ ids t h. done (Relayed-keep es s t ids e fine h)) (λ _ t x. x)
            (publish_entries-Relayed es _)))))

mark_nothing : (now : Time) (rows : List OutboxRow) → rows ≡ mark_rows [] now rows
mark_nothing now [] = refl
mark_nothing now (o ∷ os) = ap (λ l. o ∷ l) (mark_nothing now os)

abbrev marked_in : List Uuid → Session → Db
marked_in ids t = record t.db { outbox = mark_rows ids t.now t.db.outbox }

nothing_marked : (s : Session) → s.db ≡ marked_in [] s
nothing_marked s = ap (λ rows. record s.db { outbox = rows }) (mark_nothing s.now s.db.outbox)

mark_ends :
    (ids : List Uuid) (t : Session)
    → Outcome
        (λ _ u. (u.db ≡ marked_in ids t) × (u.events ≡ t.events))
        (λ e u. (u.db ≡ t.db) × (u.events ≡ t.events) × (t.faults t.tick ≡ true))
        (mark_outbox_published ids t)
unfolding mark_outbox_published
mark_ends [] t = done (nothing_marked t, refl)
mark_ends (i ∷ ids) t = statement_rule _ _ _ t (λ f. (refl, refl, f)) (refl, refl)

-- The entries that a round works on: none if its query fails.
abbrev pub fetched : Session → List OutboxEntry → List OutboxEntry
fetched s es = if s.faults s.tick then [] else es

-- What a round leaves that has worked on the entries, with the calls after the query.
abbrev pub Settled : List OutboxEntry → Session → Session → Type 0
Settled es s t =
    let sent = reached s.faults (s.tick + 1) es in
    (t.events ≡ s.events ++ map publication sent)
    × ((t.db ≡ marked_in (map (λ e. e.id) sent) s)
        ⊎ ((t.db ≡ s.db) × (s.faults (s.tick + 1 + length es) ≡ true)))

-- How a round ends where the entries wait in the outbox.
abbrev pub RoundOf : List OutboxEntry → Session → Result Bool × Session → Type 0
RoundOf es s x = Outcome (λ _ t. Settled (fetched s es) s t) (λ e t. ⊥) x

relay_ends :
    (batch : ℕ) (es : List OutboxEntry) (s : Session)
    → Outcome (λ _ t. Settled es s t) (λ e t. ⊥) (relay_entries batch es (stepped s s.db))
unfolding relay_entries
relay_ends batch [] s = done (append_nil s.events, inl (nothing_marked s))
relay_ends batch (e ∷ es) s = bind_rule _ _ _ (
    Outcome-mono _
      (λ ids t h. bind_rule _ _ t (
        attempt_rule _ t (
          Outcome-mono _
            (λ _ u k. done (k.1 ∙ h.sent, inl (rw (k.0, h.marked, h.now, h.tables) refl)))
            (λ e' u k. done (
              k.1 ∙ h.sent,
              inr (
                k.0 ∙ h.tables,
                subst (λ n. s.faults n ≡ true) h.calls (subst (λ f. f t.tick ≡ true) h.faults k.2),
              ),
            ))
            (mark_ends ids t))))
      (λ _ t x. x) (publish_entries-Relayed (e ∷ es) (stepped s s.db)))

-- A round of the relay fetches the oldest unpublished entries, none if its query fails, and publishes
-- all of them in their order but for those whose own call fails. Exactly those that were published
-- are marked as published in the outbox, in one statement, and no other table changes; only if that
-- very statement fails is nothing marked. The round itself never fails.
pub relay_round-RoundOf :
    (batch : ℕ) (s : Session)
    → RoundOf (map entry_of (unpublished batch s.db.outbox)) s (relay_round batch s)
unfolding relay_round fetch_unpublished_outbox
relay_round-RoundOf batch s = bind_rule _ _ s (
    attempt_rule _ s (
      statement_exact_rule _ _ _ s (λ f. done (rw f (append_nil s.events, inl (nothing_marked s))))
        (λ fine.
          Outcome-mono _ (λ _ t h. rw fine h) (λ _ t x. x)
            (relay_ends batch (map entry_of (unpublished batch s.db.outbox)) s))))
