-- ===== src/Store/Consistent/Scheduling.antt =====
-- `PromoteDue` and `SweepRetries`, of postgres/scheduler.go, and the invariant of the tables.
use notification_system.Prelude.{ℕ, ◌≡◌, refl, ◌⊎◌, inl, inr, false, List, [], ◌∷◌, All, map}
use notification_system.Domain.Enums.{is_terminal}
use notification_system.Domain.Errors.{Result}
use notification_system.Domain.Models.{Time, Delivery}
use notification_system.Store.Consistent.Defs.{Consistent}
use notification_system.Store.Consistent.Progress.{InProgress, rewritten, progress-Consistent}
use notification_system.Store.Due.{
  DueRow, due_row, in_rows, as_pending, pick_scheduled, pick_retries, promote_due, sweep_retries,
}
use notification_system.Store.Outcome.{done, failed}
use notification_system.Store.Promotion.{Moves, Queued, promote_due-Moves, sweep_retries-Moves}
use notification_system.Store.Session.{Db, Session}

-- No delivery that shares its key with a row that is picked is in a terminal state.
abbrev pub Open : List Delivery → Delivery → Type 0
Open picked d = (in_rows picked d ≡ false) ⊎ (is_terminal d.status ≡ false)

InProgress-pending :
    (picked : List Delivery) (now : Time) (ds : List Delivery)
    → All (Open picked) ds
    → All (InProgress (in_rows picked) (as_pending now)) ds
unfolding is_terminal
InProgress-pending picked now [] h = tt
InProgress-pending picked now (d ∷ ds) h = (
  elim h.0 [ inl other ↦ inl other | inr going ↦ inr (going, refl, refl) ],
  InProgress-pending picked now ds h.1,
)

-- Rows added to the outbox do not matter to the invariant.
pub Queued-Consistent :
    (due : List DueRow) (before after : Db)
    → Queued due before after
    → Consistent before
    → Consistent after
Queued-Consistent due before after q c = record {
  distinct = rw q.2 c.distinct;
  agrees = rw (q.1, q.2) c.agrees;
  counted = rw (q.2, q.3) c.counted;
}

-- A transition has the invariant, however it has ended.
ended-Consistent :
    (pick : Time → ℕ → List Delivery → List Delivery) (limit : ℕ) (s : Session)
    (x : Result ℕ × Session)
    → Moves (λ _. x) pick limit s
    → Consistent s.db
    → All (Open (pick s.now limit s.db.deliveries)) s.db.deliveries
    → Consistent x.1.db
ended-Consistent pick limit s x (done {s = t} h) c open_rows =
    let picked = pick s.now limit s.db.deliveries in
    Queued-Consistent (map due_row picked) (rewritten (in_rows picked) (as_pending s.now) s.db) t.db
      h.1
      (progress-Consistent (in_rows picked) (as_pending s.now) s.db
        (InProgress-pending picked s.now s.db.deliveries open_rows) c)
ended-Consistent pick limit s x (failed e) c open_rows = rw e c

-- Promoting the scheduled deliveries that are due keeps the tables consistent, whether or not it
-- commits, if no delivery that shares its key with one of them is in a terminal state.
pub promote_due-Consistent :
    (limit : ℕ) (s : Session)
    → Consistent s.db
    → All (Open (pick_scheduled s.now limit s.db.deliveries)) s.db.deliveries
    → Consistent (promote_due limit s).1.db
promote_due-Consistent limit s =
    ended-Consistent pick_scheduled limit s (promote_due limit s) (promote_due-Moves limit s)

-- Sweeping the deliveries whose retry is due keeps the tables consistent, whether or not it
-- commits, if no delivery that shares its key with one of them is in a terminal state.
pub sweep_retries-Consistent :
    (limit : ℕ) (s : Session)
    → Consistent s.db
    → All (Open (pick_retries s.now limit s.db.deliveries)) s.db.deliveries
    → Consistent (sweep_retries limit s).1.db
sweep_retries-Consistent limit s =
    ended-Consistent pick_retries limit s (sweep_retries limit s) (sweep_retries-Moves limit s)
