-- ===== src/Store/Cancellation/Rows.antt =====
-- The deliveries that a cancellation changes, of postgres/request.go.
use notification_system.Prelude.{
  ◌≡◌, refl, ◌⊎◌, inl, inr, true, false, Bool-cases, List, [], ◌∷◌, if◌then◌else◌, update, count,
  arith, ◌<◌, All,
}
use notification_system.Domain.Enums.{DeliveryStatus}
use notification_system.Domain.Models.{Uuid, Time, Delivery}
use notification_system.Store.Requests.{cancellable, can_cancel, as_cancelled}

-- The statuses that can be cancelled; a delivery in process cannot.
abbrev pub Waits : DeliveryStatus → Type 0
Waits st =
    (st ≡ DeliveryStatus.scheduled)
    ⊎ ((st ≡ DeliveryStatus.pending) ⊎ (st ≡ DeliveryStatus.retrying))

abbrev pub WaitsOf : Uuid → Delivery → Type 0
WaitsOf id d = (d.request_id ≡ id) × Waits d.status

-- A row before and after: it is cancelled if it belongs to the request and waits, and as it was if not.
abbrev pub CancelledRow : Uuid → Time → Delivery → Delivery → Type 0
CancelledRow id now d e =
    (WaitsOf id d × (e ≡ record d { status = DeliveryStatus.cancelled; updated_at = now }))
    ⊎ (¬ (WaitsOf id d) × (e ≡ d))

abbrev pub CancelledRows : Uuid → Time → List Delivery → List Delivery → Type 0
CancelledRows id now [] [] = Unit {0}
CancelledRows id now (d ∷ ds) (e ∷ es) = CancelledRow id now d e × CancelledRows id now ds es
CancelledRows id now _ _ = ⊥

cancellable-Waits : (st : DeliveryStatus) → cancellable st ≡ true → Waits st
unfolding cancellable
cancellable-Waits DeliveryStatus.scheduled e = inl refl
cancellable-Waits DeliveryStatus.pending e = inr (inl refl)
cancellable-Waits DeliveryStatus.retrying e = inr (inr refl)
cancellable-Waits DeliveryStatus.processing e = cc
cancellable-Waits DeliveryStatus.sent e = cc
cancellable-Waits DeliveryStatus.failed e = cc
cancellable-Waits DeliveryStatus.cancelled e = cc

Waits-cancellable : (st : DeliveryStatus) → Waits st → cancellable st ≡ true
unfolding cancellable
Waits-cancellable st (inl e) = rw e refl
Waits-cancellable st (inr (inl e)) = rw e refl
Waits-cancellable st (inr (inr e)) = rw e refl

can_cancel-WaitsOf : (id : Uuid) (d : Delivery) → can_cancel id d ≡ true → WaitsOf id d
can_cancel-WaitsOf id d e = (ground (arith, e), cancellable-Waits d.status (ground (arith, e)))

WaitsOf-can_cancel : (id : Uuid) (d : Delivery) → WaitsOf id d → can_cancel id d ≡ true
WaitsOf-can_cancel id d h = ground (arith, h.0, Waits-cancellable d.status h.1)

not_waiting : (id : Uuid) (d : Delivery) → can_cancel id d ≡ false → ¬ (WaitsOf id d)
not_waiting id d e h = ground (arith, e, WaitsOf-can_cancel id d h)

pub update-CancelledRows :
    (id : Uuid) (now : Time) (ds : List Delivery)
    → CancelledRows id now ds (update (can_cancel id) (as_cancelled now) ds)
update-CancelledRows id now [] = tt
update-CancelledRows id now (d ∷ ds) =
    (row (Bool-cases (can_cancel id d)), update-CancelledRows id now ds)
  where
    row :
        (can_cancel id d ≡ true) ⊎ (can_cancel id d ≡ false)
        → CancelledRow id now d (if can_cancel id d then as_cancelled now d else d)
    row (inl e) = rw e (inl (can_cancel-WaitsOf id d e, refl))
    row (inr e) = rw e (inr (not_waiting id d e, refl))

pub none-Waits :
    (id : Uuid) (ds : List Delivery) → count (can_cancel id) ds ≡ 0 → All (λ d. ¬ (WaitsOf id d)) ds
none-Waits id [] e = tt
none-Waits id (d ∷ ds) e =
    (not_waiting id d (ground (arith, e)), none-Waits id ds (ground (arith, e)))

pub some_wait :
    (id : Uuid) (ds : List Delivery)
    → 0 < count (can_cancel id) ds
    → ¬ (All (λ d. ¬ (WaitsOf id d)) ds)
some_wait id [] e h = absurd (omega arith)
some_wait id (d ∷ ds) e h = elim (Bool-cases (can_cancel id d)) [
  | inl yes_it ↦ absurd (h.0 (can_cancel-WaitsOf id d yes_it))
  | inr no_it ↦ some_wait id ds (ground (arith, e, no_it)) h.1
]
