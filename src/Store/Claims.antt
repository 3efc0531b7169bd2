-- ===== src/Store/Claims.antt =====
-- Races of several claims for a delivery, by `ClaimDelivery` of postgres/delivery.go.
use notification_system.Prelude.{
  ℕ, ◌+◌, ◌≤◌, ◌≡◌, refl, ◌⊎◌, inl, inr, List, [], ◌∷◌, Option, none, some, arith, find, update,
}
use notification_system.Domain.Errors.{Result, ok}
use notification_system.Domain.Models.{Uuid, Time, Delivery}
use notification_system.Store.Deliveries.{claimable, can_claim, claimed, claim_delivery}
use notification_system.Store.Session.{Session, statement}

abbrev won : Result (Option Delivery) → ℕ
won (ok (some d)) = 1
won _ = 0

-- A race: one claim after the other for the same delivery, each with its own lease, and the number
-- of them that win.
unfoldable pub wins : Uuid → Time → List Time → Session → ℕ
wins id created [] s = 0
wins id created (lease ∷ leases) s =
    let (r, t) = claim_delivery id created lease s in won r + wins id created leases t

-- Nobody can claim the delivery.
abbrev Taken : Uuid → Time → List Delivery → Type 0
Taken id created ds = find (can_claim id created) ds ≡ none

update-Taken :
    (id : Uuid) (created lease now : Time) (ds : List Delivery)
    → Taken id created (update (can_claim id created) (claimed lease now) ds)
unfolding claimable
update-Taken id created lease now [] = refl
update-Taken id created lease now (d ∷ ds) = ground (arith, update-Taken id created lease now ds)

Taken-keeps :
    (id : Uuid) (created lease now : Time) (ds : List Delivery)
    → Taken id created ds
    → update (can_claim id created) (claimed lease now) ds ≡ ds
Taken-keeps id created lease now [] h = refl
Taken-keeps id created lease now (d ∷ ds) h = ground (arith, Taken-keeps id created lease now ds)

claim_leaves_Taken :
    (id : Uuid) (created lease : Time) (s : Session)
    → let (r, t) = claim_delivery id created lease s in
      ((won r ≡ 0) × (t.db ≡ s.db)) ⊎ ((won r ≤ 1) × Taken id created t.db.deliveries)
unfolding claim_delivery statement
claim_leaves_Taken id created lease s =
    ground (arith, update-Taken id created lease s.now s.db.deliveries)

-- A lost claim, on a delivery that nobody can claim.
Taken-lost :
    (id : Uuid) (created lease : Time) (s : Session)
    → Taken id created s.db.deliveries
    → let (r, t) = claim_delivery id created lease s in
      (won r ≡ 0) × Taken id created t.db.deliveries
unfolding claim_delivery statement
Taken-lost id created lease s h =
    ground (arith, update-Taken id created lease s.now s.db.deliveries)

wins-Taken :
    (id : Uuid) (created : Time) (leases : List Time) (s : Session)
    → Taken id created s.db.deliveries
    → wins id created leases s ≡ 0
unfolding wins
wins-Taken id created [] s h = refl
wins-Taken id created (lease ∷ leases) s h =
    let lost = Taken-lost id created lease s h in
    ground
      (arith, lost.0, wins-Taken id created leases (claim_delivery id created lease s).1 lost.1)

-- Of any number of claims for one delivery, one after the other and with nothing between them, at
-- most one wins, whatever statements fail.
pub wins-le-1 :
    (id : Uuid) (created : Time) (leases : List Time) (s : Session) → wins id created leases s ≤ 1
unfolding wins
wins-le-1 id created [] s = omega arith
wins-le-1 id created (lease ∷ leases) s = elim (claim_leaves_Taken id created lease s) [
  | inl (lost, _) ↦
      ground (arith, lost, wins-le-1 id created leases (claim_delivery id created lease s).1)
  | inr (one, taken) ↦
      ground (arith, one, wins-Taken id created leases (claim_delivery id created lease s).1 taken)
]
