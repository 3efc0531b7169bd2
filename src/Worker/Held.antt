-- ===== src/Worker/Held.antt =====
-- A delivery that a worker has claimed, and actions that lead from one property of the tables to
-- another.
use mathlib.Core.Option
use notification_system.Prelude.{
  false, Option, none, some, List, [], ◌∷◌, any, find, map, update, ◌≡◌, refl, arith, find-holds,
}
use notification_system.Domain.Enums.{is_terminal}
use notification_system.Domain.Errors.{Result, ok, err}
use notification_system.Domain.Models.{Uuid, Time, Delivery}
use notification_system.Store.Deliveries.{can_claim, claimed, claim_delivery}
use notification_system.Store.Outcome.{Outcome, statement_rule, done, failed}
use notification_system.Store.Session.{Db, Session, Action, ◌>>=◌, attempt}
use notification_system.Store.System.{Inv, delivery_key, same_delivery, Once, claim_delivery-Inv}
use notification_system.Store.System.Stays.{Stays}
use notification_system.Store.Tables.{has_key}

-- The worker holds the delivery: its row is there, in progress.
abbrev pub Held : Delivery → Db → Type 0
Held d db =
    (q : Delivery) × (find (has_key d.id d.created_at) db.deliveries ≡ some q)
    × (q.request_id ≡ d.request_id)
    × (is_terminal q.status ≡ false)

no_row :
    (id : Uuid) (created : Time) (ds : List Delivery)
    → any (same_delivery id created) (map delivery_key ds) ≡ false
    → find (can_claim id created) ds ≡ none
no_row id created [] h = refl
no_row id created (d ∷ ds) h = ground (arith, no_row id created ds)

-- The row that a claim returns is the one with its key, in the tables that it leaves.
claimed_found :
    (id : Uuid) (created lease now : Time) (ds : List Delivery) (q : Delivery)
    → Once (map delivery_key ds)
    → find (can_claim id created) ds ≡ some q
    → find (has_key q.id q.created_at) (update (can_claim id created) (claimed lease now) ds)
      ≡ some (claimed lease now q)
claimed_found id created lease now [] q once h = cc
claimed_found id created lease now (d ∷ ds) q once h = ground (
  arith,
  no_row d.id d.created_at ds once.0,
  find-holds (can_claim id created) ds q,
  claimed_found id created lease now ds q once.1,
)

-- What a claim returns is held.
abbrev pub HeldIf : Option Delivery → Db → Type 0
HeldIf none db = Unit
HeldIf (some d) db = Held d db

claimed-HeldIf :
    (id : Uuid) (created lease : Time) (s : Session) (o : Option Delivery)
    → Once (map delivery_key s.db.deliveries)
    → find (can_claim id created) s.db.deliveries ≡ o
    → HeldIf (Option.map (claimed lease s.now) o) (record s.db {
      deliveries = update (can_claim id created) (claimed lease s.now) s.db.deliveries;
    })
unfolding is_terminal
claimed-HeldIf id created lease s none once h = tt
claimed-HeldIf id created lease s (some q) once h = (
  claimed lease s.now q,
  claimed_found id created lease s.now s.db.deliveries q once h,
  refl,
  refl,
)

claim-HeldIf :
    (id : Uuid) (created lease : Time) (s : Session)
    → Inv s.db
    → Outcome (λ o t. HeldIf o t.db) (λ e t. Unit {0}) (claim_delivery id created lease s)
unfolding claim_delivery
claim-HeldIf id created lease s h =
    statement_rule _ _ _ s (λ f. tt)
      (claimed-HeldIf id created lease s (find (can_claim id created) s.db.deliveries) h.linked.once
        refl)

pub claim_ends :
    (id : Uuid) (created lease : Time) (s : Session)
    → Inv s.db
    → Outcome
        (λ o t. Inv t.db × HeldIf o t.db)
        (λ e t. Inv t.db)
        (claim_delivery id created lease s)
claim_ends id created lease s h =
    ends (claim_delivery id created lease s) (claim_delivery-Inv id created lease s h)
      (claim-HeldIf id created lease s h)
  where
    ends :
        (x : Result (Option Delivery) × Session)
        → Inv x.1.db
        → Outcome (λ o t. HeldIf o t.db) (λ e t. Unit {0}) x
        → Outcome (λ o t. Inv t.db × HeldIf o t.db) (λ e t. Inv t.db) x
    ends x i (done k) = done (i, k)
    ends x i (failed k) = failed i

-- An action that starts with a property of the tables and leaves another.
abbrev pub Leads : {A : Type 0} → (Db → Type 0) → (Db → Type 0) → Action A → Type 0
Leads P R m = (s : Session) → P s.db → R (m s).1.db

-- A worker that holds a delivery.
abbrev pub Holding : Delivery → Db → Type 0
Holding d db = Inv db × Held d db

after-Leads :
    {A B : Type 0} (P R : Db → Type 0) (f : A → Action B) (x : Result A × Session)
    → ((db : Db) → P db → R db)
    → ((a : A) → Leads P R (f a))
    → P x.1.db
    → R (elim x.0 as (λ _. Result B × Session) [ ok a ↦ f a x.1 | err e ↦ (err e, x.1) ]).1.db
after-Leads P R f (ok a, t) weaken k p = k a t p
after-Leads P R f (err e, t) weaken k p = weaken t.db p

pub bind-Leads :
    {A B : Type 0} (P R : Db → Type 0) (m : Action A) (f : A → Action B)
    → ((db : Db) → P db → R db)
    → Stays P m
    → ((a : A) → Leads P R (f a))
    → Leads P R (m >>= f)
unfolding ◌>>=◌
bind-Leads P R m f weaken h k s p = after-Leads P R f (m s) weaken k (h s p)

pub then-Stays :
    {A B : Type 0} (P R : Db → Type 0) (m : Action A) (f : A → Action B)
    → Leads P R m
    → ((a : A) → Stays R (f a))
    → Leads P R (m >>= f)
unfolding ◌>>=◌
then-Stays P R m f h k s p = after-Leads R R f (m s) (λ db r. r) k (h s p)

pub attempt-Leads :
    {A : Type 0} (P R : Db → Type 0) (m : Action A) → Leads P R m → Leads P R (attempt m)
unfolding attempt
attempt-Leads P R m h s p = h s p
